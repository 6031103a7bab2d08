-- ===== src/Auth/Refresh/Invariant.antt =====
-- Every statement of the service keeps the table well formed, and no chain has two live tokens.
use easyserver.Base.{
  ℕ, suc, ◌+◌, ◌≤◌, String, ◌≡◌, inl, inr, none, some, arith, string_eq, nat_eq, Bool, true,
  Bool-cases, List, [], ◌∷◌, if◌then◌else◌, ◌==◌, map, ◌&&◌, nat_test_iff, keep,
}
use easyserver.Auth.Refresh.{
  Row, Db, Faults, find_hash, revoke_if, revoke_chain, mark_if, mark_rotated, rotate, is_active,
}
use easyserver.Auth.Refresh.Table.{IsValid, Below, find_hash-map, find_hash-Below, map-IsValid}
use easyserver.Auth.Refresh.Rotation.{rotated_db, revoked_db, mark_if-hash}
use easyserver.Auth.Refresh.Replay.{rotate-Rotates}

-- The live tokens of a chain: neither used nor revoked.
abbrev pub active_in : String → List Row → ℕ
active_in family [] = 0
active_in family (r ∷ rs) =
    if r.family_id == family && is_active r then suc (active_in family rs) else active_in family rs

-- Well formed, and at most one live token in each chain.
pub record IsSingle (db : Db) : Type 0 where
  pub valid : IsValid db
  pub single : (family : String) → active_in family db.rows ≤ 1

-- An update that makes no row live.
module _ (f : Row → Row) (same_family : (r : Row) → (f r).family_id ≡ r.family_id)
    (no_revival : (r : Row) → is_active (f r) ≡ true → is_active r ≡ true) where
  pub active_in-map :
      (family : String) (rs : List Row) → active_in family (map f rs) ≤ active_in family rs
  active_in-map family [] = omega arith
  active_in-map family (r ∷ rs) =
      ground (arith, same_family r, no_revival r, active_in-map family rs)

pub active_in-keep :
    (p : Row → Bool) (family : String) (rs : List Row)
    → active_in family (keep p rs) ≤ active_in family rs
unfolding keep
active_in-keep p family [] = omega arith
active_in-keep p family (r ∷ rs) = ground (arith, active_in-keep p family rs)

-- Marking a live row as used takes it from the live tokens of its chain.
pub active_in-mark_rotated :
    (now n : ℕ) (h : String) (row : Row) (rs : List Row)
    → Below n rs
    → find_hash h rs ≡ some row
    → is_active row ≡ true
    → active_in row.family_id (mark_rotated now row.id rs) + 1 ≤ active_in row.family_id rs
unfolding find_hash mark_rotated
active_in-mark_rotated now n h row [] b found live = absurd (cc)
active_in-mark_rotated now n h row (r ∷ rs) b found live =
    let others =
      active_in-map (mark_if now row.id) (λ x. ground arith) (λ x. ground arith) row.family_id rs in
    elim (Bool-cases (r.token_hash == h)) [
      | inl hit ↦
          let e : r ≡ row = ground arith in
          ground (
            arith,
            e,
            others,
            nat_test_iff row.id row.id,
            string_eq.test_iff row.family_id row.family_id,
          )
      | inr miss ↦
          let found' : find_hash h rs ≡ some row = rw miss at found in
          let smaller = find_hash-Below h r.id rs {r = row} b.1 found' in
          let rest = active_in-mark_rotated now r.id h row rs b.1 found' live in
          ground (arith, smaller, rest)
    ]

mark_rotated-IsValid :
    (now i : ℕ) (db : Db) → IsValid db → IsValid (record db { rows = mark_rotated now i db.rows })
unfolding mark_rotated
mark_rotated-IsValid now i db v =
    map-IsValid (mark_if now i) (λ r. ground arith) (mark_if-hash now i) db v

rotated_db-IsValid :
    (now : ℕ) (h old_hash : String) (row : Row) (db : Db)
    → IsValid db
    → find_hash h db.rows ≡ none
    → IsValid (rotated_db now h old_hash row db)
unfolding mark_rotated
rotated_db-IsValid now h old_hash row db v unused =
    let marked = mark_rotated-IsValid now row.id db v in
    let absent =
      find_hash-map (mark_if now row.id) (λ r. ground arith) (mark_if-hash now row.id) h db.rows in
    record {
      below = (omega arith, unfold mark_rotated in marked.below);
      distinct = (ground (arith, absent, unused), unfold mark_rotated in marked.distinct);
    }

pub revoked_db-IsValid :
    (now : ℕ) (family : String) (db : Db) → IsValid db → IsValid (revoked_db now family db)
unfolding revoke_chain
revoked_db-IsValid now family db v =
    map-IsValid (revoke_if now family) (λ r. ground arith) (λ r. ground arith) db v

pub rotate-IsValid :
    (hash : String → String) (fails : Faults) (now : ℕ) (token old_token device_id : String)
    (db : Db)
    → IsValid db
    → IsValid (rotate hash fails now token old_token device_id db).0
rotate-IsValid hash fails now token old_token device_id db v =
    elim (rotate-Rotates hash fails now token old_token device_id db v) [
      | inl (e, _, r) ↦ rw r v
      | inr (inl (row, _, _, inl (r, _))) ↦ rw r v
      | inr (inl (row, _, _, inr r)) ↦ rw r (revoked_db-IsValid now row.family_id db v)
      | inr (inr (row, _, _, unused, r)) ↦
          rw r (rotated_db-IsValid now (hash token) (hash old_token) row db v unused)
    ]
