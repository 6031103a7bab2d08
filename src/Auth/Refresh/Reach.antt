-- ===== src/Auth/Refresh/Reach.antt =====
-- The histories of the table as a step relation, and what holds of every table they reach.
use easyserver.Base.{
  ℕ, ◌+◌, ◌≤◌, String, ◌≡◌, inl, inr, none, some, arith, string_eq, nat_eq, true, Bool-cases,
  Option-cases, ◌==◌, ◌||◌,
}
use easyserver.Auth.Refresh.{
  Row, Db, Faults, Statement, refresh_ttl, find_hash, revoke_if, revoke_chain, mark_if,
  mark_rotated, insert_row, rotate, revoke_row, revoke_family, is_active, issue, cleanup_expired,
  is_kept,
}
use easyserver.Auth.Refresh.Table.{IsValid, map-IsValid, keep-IsValid, insert_row-IsValid}
use easyserver.Auth.Refresh.Rotation.{rotated_db, revoked_db}
use easyserver.Auth.Refresh.Replay.{rotate-Rotates}
use easyserver.Auth.Refresh.Invariant.{
  active_in, active_in-map, active_in-keep, active_in-mark_rotated, IsSingle, rotate-IsValid,
}

rotated_db_single :
    (now : ℕ) (h old_hash : String) (row : Row) (db : Db) (family : String)
    → IsValid db
    → find_hash old_hash db.rows ≡ some row
    → is_active row ≡ true
    → active_in family db.rows ≤ 1
    → active_in family (rotated_db now h old_hash row db).rows ≤ 1
unfolding mark_rotated
rotated_db_single now h old_hash row db family v found live one =
    let fewer = active_in-mark_rotated now db.next_id old_hash row db.rows v.below found live in
    let others =
      active_in-map (mark_if now row.id) (λ x. ground arith) (λ x. ground arith) family db.rows in
    elim (Bool-cases (row.family_id == family)) [
      | inl same ↦
          let e : row.family_id ≡ family = (string_eq.test_iff row.family_id family).0 same in
          ground (arith, fewer, e, one, same)
      | inr other ↦ ground (arith, others, one, other)
    ]

-- A revocation of a chain makes no token live.
revoked_db_single :
    (now : ℕ) (chain family : String) (db : Db)
    → active_in family db.rows ≤ 1
    → active_in family (revoked_db now chain db).rows ≤ 1
unfolding revoke_chain
revoked_db_single now chain family db one =
    let others =
      active_in-map (revoke_if now chain) (λ x. ground arith) (λ x. ground arith) family db.rows in
    omega (arith, others)

pub rotate-IsSingle :
    (hash : String → String) (fails : Faults) (now : ℕ) (token old_token device_id : String)
    (db : Db)
    → IsSingle db
    → IsSingle (rotate hash fails now token old_token device_id db).0
rotate-IsSingle hash fails now token old_token device_id db v = record {
  valid = rotate-IsValid hash fails now token old_token device_id db v.valid;
  single = λ family. single' family;
}
  where
    single' :
        (family : String)
        → active_in family (rotate hash fails now token old_token device_id db).0.rows ≤ 1
    single' family = elim (rotate-Rotates hash fails now token old_token device_id db v.valid) [
      | inl (e, _, r) ↦ rw r (v.single family)
      | inr (inl (row, _, _, inl (r, _))) ↦ rw r (v.single family)
      | inr (inl (row, _, _, inr r)) ↦
          rw r (revoked_db_single now row.family_id family db (v.single family))
      | inr (inr (row, a, fresh, unused, r)) ↦ rw r (
          rotated_db_single now (hash token) (hash old_token) row db family v.valid a.found
            (ground (arith, a.unrevoked, fresh)) (v.single family))
    ]

insert_row_single :
    (h family other : String) (user_id : ℕ) (device_id : String) (exp : ℕ) (db db' : Db)
    → active_in family db.rows ≡ 0
    → active_in other db.rows ≤ 1
    → insert_row h family user_id device_id exp none db ≡ some db'
    → active_in other db'.rows ≤ 1
unfolding insert_row
insert_row_single h family other user_id device_id exp db db' unused one e =
    elim (Bool-cases (family == other)) [
      | inl same ↦
          let e' = (string_eq.test_iff family other).0 same in ground (arith, e', unused, same)
      | inr differs ↦ ground (arith, one, differs)
    ]

pub issue-IsSingle :
    (hash : String → String) (fails : Faults) (now : ℕ) (token family : String) (user_id : ℕ)
    (device_id : String) (db : Db)
    → IsSingle db
    → active_in family db.rows ≡ 0
    → IsSingle (issue hash fails now token family user_id device_id db).0
unfolding issue
issue-IsSingle hash fails now token family user_id device_id db v unused =
    elim (Bool-cases (fails Statement.draws || fails Statement.inserts)) [
      | inl c ↦ rw (c, issue) v
      | inr c ↦
          elim (Option-cases
            (insert_row (hash token) family user_id device_id (now + refresh_ttl) none db)) [
              | inl e ↦ rw (c, issue) (rw (e, issue) v)
              | inr (db', e) ↦
                  rw (c, issue)
                    (rw (e, issue)
                      (record {
                        valid =
                            insert_row-IsValid (hash token) family user_id device_id
                              (now + refresh_ttl) none db db' v.valid e;
                        single = λ other.
                            insert_row_single (hash token) family other user_id device_id
                              (now + refresh_ttl) db db' unused (v.single other) e;
                      }))
            ]
    ]

pub revoke_family-IsSingle :
    (now user_id : ℕ) (device_id : String) (db : Db)
    → IsSingle db
    → IsSingle (revoke_family now user_id device_id db)
unfolding revoke_family
revoke_family-IsSingle now user_id device_id db v = record {
  valid =
      map-IsValid (revoke_row now user_id device_id) (λ r. ground arith) (λ r. ground arith) db
        v.valid;
  single = λ family. omega (
    arith,
    v.single family,
    active_in-map (revoke_row now user_id device_id) (λ x. ground arith) (λ x. ground arith) family
        db.rows,
  );
}

pub cleanup_expired-IsSingle :
    (now : ℕ) (db : Db) → IsSingle db → IsSingle (cleanup_expired now db).0
unfolding cleanup_expired
cleanup_expired-IsSingle now db v = record {
  valid = keep-IsValid (is_kept now) db v.valid;
  single = λ family. omega (arith, v.single family, active_in-keep (is_kept now) family db.rows);
}

-- One call, with any faults and any clock. A chain's id is drawn at random: a login that draws the
-- id of a chain with a live token is left out.
pub data Step (hash : String → String) : Db → Db → Type 0 where
  issues :
      (fails : Faults) (now : ℕ) (token family : String) (user_id : ℕ) (device_id : String)
      (db : Db)
      → active_in family db.rows ≡ 0
      → Step hash db (issue hash fails now token family user_id device_id db).0
  rotates :
      (fails : Faults) (now : ℕ) (token old_token device_id : String) (db : Db)
      → Step hash db (rotate hash fails now token old_token device_id db).0
  revokes :
      (now user_id : ℕ) (device_id : String) (db : Db)
      → Step hash db (revoke_family now user_id device_id db)
  cleans : (now : ℕ) (db : Db) → Step hash db (cleanup_expired now db).0

pub data Reach (hash : String → String) (start : Db) : Db → Type 0 where
  here : Reach hash start start
  next : {db db' : Db} → Reach hash start db → Step hash db db' → Reach hash start db'

Step-IsSingle :
    {hash : String → String} {db db' : Db} → Step hash db db' → IsSingle db → IsSingle db'
Step-IsSingle {hash} (issues fails now token family user_id device_id db unused) v =
    issue-IsSingle hash fails now token family user_id device_id db v unused
Step-IsSingle {hash} (rotates fails now token old_token device_id db) v =
    rotate-IsSingle hash fails now token old_token device_id db v
Step-IsSingle (revokes now user_id device_id db) v =
    revoke_family-IsSingle now user_id device_id db v
Step-IsSingle (cleans now db) v = cleanup_expired-IsSingle now db v

-- In every table that logins, rotations, revocations and cleanups reach, with any statements
-- failing, from one in which ids and hashes are distinct and each chain has at most one token that
-- is neither used nor revoked, this holds again; left out are logins that draw, as the id of a new
-- chain, that of a chain with such a token.
pub Reach-IsSingle :
    {hash : String → String} {start db : Db} → IsSingle start → Reach hash start db → IsSingle db
Reach-IsSingle v here = v
Reach-IsSingle v (next r s) = Step-IsSingle s (Reach-IsSingle v r)
