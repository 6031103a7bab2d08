-- ===== src/Auth/Refresh/Rotation.antt =====
-- One use of a refresh token: what a rotation issues, what it refuses, and what a refusal changes.
use easyserver.Base.{
  nat_test_iff, ℕ, suc, ◌+◌, String, ◌≡◌, ◌≢◌, refl, inl, inr, Option, none, some, arith, string_eq,
  nat_eq, true, false, Bool-cases, Option-cases, ◌∷◌, ◌==◌, ◌⊎◌, map, not, ◌&&◌, ◌||◌,
}
use easyserver.Base.Map.{mapped}
use easyserver.Auth.Refresh.{
  Row, Db, RefreshPair, Faults, Statement, Refusal, device_mismatch, replayed, database, issued,
  refused, refresh_ttl, find_hash, revoke_chain, mark_if, mark_rotated, is_some, null_if_empty,
  insert_row, issue_in_tx, rotate_row,
}
use easyserver.Auth.Refresh.Table.{find_hash-map}

-- The row that a rotation of `row` inserts.
abbrev pub successor : ℕ → String → String → Row → ℕ → Row
successor now h old_hash row i = record {
  id = i;
  token_hash = h;
  family_id = row.family_id;
  user_id = row.user_id;
  device_id = row.device_id;
  expires_at = now + refresh_ttl;
  rotated_from = null_if_empty old_hash;
  rotated_at = none;
  revoked_at = none;
}

abbrev pub FitsDevice : String → Row → Type 0
FitsDevice device_id row = (device_id ≡ "") ⊎ (row.device_id ≡ device_id)

-- The two shapes of a transaction that ends in an insert: rolled back, or committed.
pub mark_if-hash : (now i : ℕ) (r : Row) → (mark_if now i r).token_hash ≡ r.token_hash
mark_if-hash now i r = ground arith

is_some-mapped-false : (f : Row → Row) (o : Option Row) → is_some (mapped f o) ≡ false → o ≡ none
is_some-mapped-false f none h = refl
is_some-mapped-false f (some r) h = absurd (cc)

-- The table after a rotation that issues a token.
abbrev pub rotated_db : ℕ → String → String → Row → Db → Db
rotated_db now h old_hash row db = record {
  rows = successor now h old_hash row db.next_id ∷ mark_rotated now row.id db.rows;
  next_id = suc db.next_id;
}

abbrev pub new_pair : ℕ → String → RefreshPair
new_pair now token = record { token = token; expires_at = now + refresh_ttl }

abbrev pub revoked_db : ℕ → String → Db → Db
revoked_db now family db = record db { rows = revoke_chain now family db.rows }

module _ (hash : String → String) (fails : Faults) where
  issue_in_tx_cases :
      (now : ℕ) (token : String) (row : Row) (bound old_hash : String) (db marked : Db)
      → (issue_in_tx hash fails now token row bound old_hash db marked ≡ (db, refused database))
        ⊎ ((db' : Db) × (insert_row
                (hash token)
                row.family_id
                row.user_id
                bound
                (now + refresh_ttl)
                (null_if_empty old_hash)
                marked
              ≡ some db')
            × (issue_in_tx hash fails now token row bound old_hash db marked
                ≡ (db', issued (new_pair now token))))
  unfolding issue_in_tx
  issue_in_tx_cases now token row bound old_hash db marked =
      elim (Bool-cases (fails Statement.draws || fails Statement.inserts)) [
        | inl broken ↦ inl (rw (broken, issue_in_tx))
        | inr fine ↦
            elim (Option-cases (
              insert_row (hash token) row.family_id row.user_id bound (now + refresh_ttl)
                (null_if_empty old_hash) marked)) [
                  | inl e ↦ inl (ground (arith, fine, e))
                  | inr (db', e) ↦ elim (Bool-cases (fails Statement.commits)) [
                    | inl c ↦ inl (ground (arith, fine, e, c))
                    | inr c ↦ inr (db', e, ground (arith, fine, e, c))
                  ]
                ]
      ]

  insert_marked :
      (now : ℕ) (h old_hash : String) (row : Row) (db db' : Db)
      → insert_row h row.family_id row.user_id row.device_id
          (now + refresh_ttl)
          (null_if_empty old_hash)
          (record db { rows = mark_rotated now row.id db.rows })
        ≡ some db'
      → (find_hash h db.rows ≡ none) × (db' ≡ rotated_db now h old_hash row db)
  unfolding insert_row mark_rotated
  insert_marked now h old_hash row db db' e =
      elim (Bool-cases (is_some (find_hash h (map (mark_if now row.id) db.rows)))) [
        | inl taken ↦ absurd (ground arith)
        | inr free ↦
            let e' : is_some (mapped (mark_if now row.id) (find_hash h db.rows)) ≡ false =
              rw
                (find_hash-map (mark_if now row.id) (λ r. ground arith) (mark_if-hash now row.id) h
                  db.rows)
                at free in
            (is_some-mapped-false _ (find_hash h db.rows) e', ground arith)
      ]

  pub rotate_row_cases :
      (now : ℕ) (token old_hash device_id : String) (row : Row) (db : Db)
      → ((e : Refusal) × (e ≢ replayed)
          × (rotate_row hash fails now token old_hash device_id row row.device_id db
              ≡ (db, refused e)))
        ⊎ (FitsDevice device_id row
            × (is_some row.rotated_at ≡ true)
            × ((rotate_row hash fails now token old_hash device_id row row.device_id db
                    ≡ (db, refused replayed))
                  × (fails Statement.commits ≡ true)
                ⊎ (rotate_row hash fails now token old_hash device_id row row.device_id db
                    ≡ (revoked_db now row.family_id db, refused replayed))))
        ⊎ (FitsDevice device_id row
            × (row.rotated_at ≡ none)
            × (find_hash (hash token) db.rows ≡ none)
            × (rotate_row hash fails now token old_hash device_id row row.device_id db
                ≡ (rotated_db now (hash token) old_hash row db, issued (new_pair now token))))
  unfolding rotate_row
  rotate_row_cases now token old_hash device_id row db =
      elim (Bool-cases (not (device_id == "") && not (row.device_id == device_id))) [
        | inl foreign ↦ inl (device_mismatch, (λ e. cc), rw (foreign, rotate_row))
        | inr mine ↦
            let fits : FitsDevice device_id row = ground (
              arith,
              mine,
              string_eq.test_iff device_id "",
              string_eq.test_iff row.device_id device_id,
            ) in
            elim (Option-cases row.rotated_at) [
              | inl fresh ↦ elim (Bool-cases (fails Statement.marks)) [
                | inl c ↦ inl (database, (λ e. cc), ground (arith, mine, fresh, c))
                | inr c ↦
                    elim (issue_in_tx_cases now token row row.device_id old_hash db
                      (record db { rows = mark_rotated now row.id db.rows })) [
                        | inl rolled ↦
                            inl (database, (λ e. cc), ground (arith, mine, fresh, c, rolled))
                        | inr (db', e, done) ↦
                            let (unused, same) =
                              insert_marked now (hash token) old_hash row db db' e in
                            inr (
                              inr (fits, fresh, unused, ground (arith, mine, fresh, c, done, same)))
                      ]
              ]
              | inr (at, used) ↦ elim (Bool-cases (fails Statement.revokes)) [
                | inl c ↦ inl (database, (λ e. cc), ground (arith, mine, used, c))
                | inr c ↦ inr (
                    inl (
                      fits,
                      ground (arith, used),
                      elim (Bool-cases (fails Statement.commits)) [
                        | inl d ↦ inl (ground (arith, mine, used, c, d), d)
                        | inr d ↦ inr (ground (arith, mine, used, c, d))
                      ],
                    ))
              ]
            ]
      ]

-- After an issuing rotation the new hash finds the successor, and the old one the row, marked.
pub rotated_db_new :
    (now : ℕ) (h old_hash : String) (row : Row) (db : Db)
    → find_hash h (rotated_db now h old_hash row db).rows
      ≡ some (successor now h old_hash row db.next_id)
unfolding find_hash
rotated_db_new now h old_hash row db = ground (arith, string_eq.test_iff h h)

pub rotated_db_old :
    (now : ℕ) (h old_hash : String) (row : Row) (db : Db)
    → find_hash h db.rows ≡ none
    → find_hash old_hash db.rows ≡ some row
    → find_hash old_hash (rotated_db now h old_hash row db).rows
      ≡ some (record row { rotated_at = some now })
unfolding find_hash mark_rotated
rotated_db_old now h old_hash row db unused found =
    let marked =
      find_hash-map (mark_if now row.id) (λ r. ground arith) (mark_if-hash now row.id) old_hash
        db.rows in
    elim (Bool-cases (h == old_hash)) [
      | inl same ↦
          let e = (string_eq.test_iff h old_hash).0 same in
          absurd (ground (arith, e, unused, found))
      | inr other ↦ ground (arith, other, marked, found, nat_test_iff row.id row.id)
    ]
