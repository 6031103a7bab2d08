-- ===== src/Auth/Refresh/Replay.antt =====
-- Rotations of a well formed table: what is issued, that a refusal is atomic, and that a second use
-- of a token ends its chain.
use easyserver.Base.{
  ℕ, ◌≤◌, String, ◌≡◌, ◌≢◌, inl, inr, none, some, arith, string_eq, nat_eq, true, false, Bool-cases,
  Option-cases, ◌⊎◌, ltb, ◌||◌,
}
use easyserver.Auth.Refresh.{
  Row, Db, RefreshPair, Faults, Statement, Refusal, unknown, inactive, replayed, database, Outcome,
  issued, refused, find_hash, is_some, rotate_row, rotate,
}
use easyserver.Auth.Refresh.Table.{IsValid, find_device-find_hash}
use easyserver.Auth.Refresh.Rotation.{
  successor, FitsDevice, rotated_db, new_pair, revoked_db, rotate_row_cases, rotated_db_new,
  rotated_db_old,
}

abbrev pub no_faults : Faults
no_faults _ = false

-- The row of a token that is neither revoked nor expired and may be used from the device.
pub record Accepts (hash : String → String) (now : ℕ) (token device_id : String) (db : Db)
    (row : Row) : Type 0 where
  pub found : find_hash (hash token) db.rows ≡ some row
  pub unrevoked : row.revoked_at ≡ none
  pub unexpired : now ≤ row.expires_at
  pub fits : FitsDevice device_id row

-- What a rotation does, as a disjunction over its result `r`: refuse and leave the table as it was;
-- find the token used before and revoke its chain, or lose the revocation because the commit
-- failed; or issue a successor.
abbrev pub Rotates :
    (String → String) → Faults → ℕ → String → String → String → Db → Db × Outcome → Type 0
Rotates hash fails now token old_token device_id db r =
    ((e : Refusal) × (e ≢ replayed) × (r ≡ (db, refused e)))
    ⊎ ((row : Row) × Accepts hash now old_token device_id db row
        × (is_some row.rotated_at ≡ true)
        × ((r ≡ (db, refused replayed)) × (fails Statement.commits ≡ true)
            ⊎ (r ≡ (revoked_db now row.family_id db, refused replayed))))
    ⊎ ((row : Row) × Accepts hash now old_token device_id db row
        × (row.rotated_at ≡ none)
        × (find_hash (hash token) db.rows ≡ none)
        × (r ≡ (rotated_db now (hash token) (hash old_token) row db, issued (new_pair now token))))

module _ (hash : String → String) (fails : Faults) (now : ℕ) (token old_token device_id : String)
    (db : Db) where
  -- From the row on.
  rotate_found :
      (row : Row)
      → find_hash (hash old_token) db.rows ≡ some row
      → (is_some row.revoked_at || ltb row.expires_at now) ≡ false
      → Rotates hash fails now token old_token device_id db
          (rotate_row hash fails now token (hash old_token) device_id row row.device_id db)
  rotate_found row found live =
      elim (rotate_row_cases hash fails now token (hash old_token) device_id row db) [
        | inl refusal ↦ inl refusal
        | inr (inl (fits, used, r)) ↦ inr (inl (row, accepted fits, used, r))
        | inr (inr (fits, fresh, unused, r)) ↦ inr (inr (row, accepted fits, fresh, unused, r))
      ]
    where
      accepted : FitsDevice device_id row → Accepts hash now old_token device_id db row
      accepted fits = record {
        found = found;
        unrevoked = ground (arith, live);
        unexpired = ground (arith, live);
        fits = fits;
      }

  pub rotate-Rotates :
      IsValid db
      → Rotates hash fails now token old_token device_id db
          (rotate hash fails now token old_token device_id db)
  unfolding rotate
  rotate-Rotates v = elim (Bool-cases (fails Statement.begins || fails Statement.queries)) [
    | inl c ↦ inl (database, (λ e. cc), rw (c, rotate))
    | inr c ↦ elim (Option-cases (find_hash (hash old_token) db.rows)) [
      | inl missing ↦ inl (unknown, (λ e. cc), ground (arith, c, missing))
      | inr (row, found) ↦ elim (Bool-cases (is_some row.revoked_at || ltb row.expires_at now)) [
        | inl dead ↦ inl (inactive, (λ e. cc), ground (arith, c, found, dead))
        | inr live ↦ elim (Bool-cases (fails Statement.reads_device)) [
          | inl d ↦ inl (database, (λ e. cc), ground (arith, c, found, live, d))
          | inr d ↦
              let same : rotate hash fails now token old_token device_id db
                  ≡ rotate_row hash fails now token (hash old_token) device_id row row.device_id
                      db =
                ground (
                  arith,
                  c,
                  found,
                  live,
                  d,
                  find_device-find_hash (hash old_token) db.next_id db.rows {r = row} v.below found,
                ) in
              rw same (rotate_found row found live)
        ]
      ]
    ]
  ]

  -- A refusal other than that of a replay leaves the table as it was, whatever statement failed:
  -- the marked token, the new row and the revocations are rolled back together.
  pub rotate_atomic :
      (e : Refusal)
      → IsValid db
      → (rotate hash fails now token old_token device_id db).1 ≡ refused e
      → e ≢ replayed
      → (rotate hash fails now token old_token device_id db).0 ≡ db
  rotate_atomic e v answer other = elim (rotate-Rotates v) [
    | inl (e', _, r) ↦ ground (arith, r)
    | inr (inl (row, _, _, inl (r, _))) ↦ ground (arith, r)
    | inr (inl (row, _, _, inr r)) ↦ ground (arith, r)
    | inr (inr (row, _, _, _, r)) ↦ ground (arith, r)
  ]

  -- A token is issued only for one that is stored, neither revoked, expired nor used before, and
  -- used from its own device if the request names one; the new row belongs to the same chain, user
  -- and device, and the old row is marked as used.
  pub rotate_issued :
      (pair : RefreshPair)
      → IsValid db
      → (rotate hash fails now token old_token device_id db).1 ≡ issued pair
      → (row : Row) × Accepts hash now old_token device_id db row
        × (row.rotated_at ≡ none)
        × (pair ≡ new_pair now token)
        × (find_hash (hash token) (rotate hash fails now token old_token device_id db).0.rows
            ≡ some (successor now (hash token) (hash old_token) row db.next_id))
        × (find_hash (hash old_token) (rotate hash fails now token old_token device_id db).0.rows
            ≡ some (record row { rotated_at = some now }))
  rotate_issued pair v answer = elim (rotate-Rotates v) [
    | inl (e', _, r) ↦ absurd (ground (arith, r))
    | inr (inl (row, _, _, inl (r, _))) ↦ absurd (ground (arith, r))
    | inr (inl (row, _, _, inr r)) ↦ absurd (ground (arith, r))
    | inr (inr (row, accepted, fresh, unused, r)) ↦ (
      row,
      accepted,
      fresh,
      ground (arith, r),
      rw r (rotated_db_new now (hash token) (hash old_token) row db),
      rw r (rotated_db_old now (hash token) (hash old_token) row db unused accepted.found),
    )
  ]
