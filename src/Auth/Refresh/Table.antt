-- ===== src/Auth/Refresh/Table.antt =====
-- The table of refresh tokens: ids below the next one and distinct, hashes distinct.
use easyserver.Base.{
  ℕ, ◌≤◌, ◌<◌, String, ◌≡◌, refl, inl, inr, Option, none, some, arith, string_eq, nat_eq, Bool,
  Bool-cases, List, [], ◌∷◌, ◌==◌, keep, map, nat_test_iff,
}
use easyserver.Base.Map.{mapped}
use easyserver.Auth.Refresh.{Row, Db, find_hash, find_device, insert_row}

-- Ids fall along the list and stay under the bound.
abbrev pub Below : ℕ → List Row → Type 0
Below n [] = Unit {0}
Below n (r ∷ rs) = (r.id < n) × Below r.id rs

abbrev pub Distinct : List Row → Type 0
Distinct [] = Unit {0}
Distinct (r ∷ rs) = (find_hash r.token_hash rs ≡ none) × Distinct rs

pub record IsValid (db : Db) : Type 0 where
  pub below : Below db.next_id db.rows
  pub distinct : Distinct db.rows

pub Below-mono : {m n : ℕ} (rs : List Row) → m ≤ n → Below m rs → Below n rs
Below-mono [] h b = tt
Below-mono (r ∷ rs) h b = (omega arith, b.1)

-- An update of the rows that keeps ids and hashes.
module _ (f : Row → Row) (same_id : (r : Row) → (f r).id ≡ r.id)
    (same_hash : (r : Row) → (f r).token_hash ≡ r.token_hash) where
  pub find_hash-map :
      (h : String) (rs : List Row) → find_hash h (map f rs) ≡ mapped f (find_hash h rs)
  unfolding find_hash
  find_hash-map h [] = refl
  find_hash-map h (r ∷ rs) = ground (arith, same_hash r, find_hash-map h rs)

  pub map-Below : (n : ℕ) (rs : List Row) → Below n rs → Below n (map f rs)
  map-Below n [] b = tt
  map-Below n (r ∷ rs) b = ground (arith, same_id r, map-Below r.id rs b.1)

  pub map-Distinct : (rs : List Row) → Distinct rs → Distinct (map f rs)
  map-Distinct [] d = tt
  map-Distinct (r ∷ rs) d =
      ground (arith, same_hash r, find_hash-map r.token_hash rs, map-Distinct rs d.1)

  pub map-IsValid : (db : Db) → IsValid db → IsValid (record db { rows = map f db.rows })
  map-IsValid db v = record {
    below = map-Below db.next_id db.rows v.below;
    distinct = map-Distinct db.rows v.distinct;
  }

keep-Below : (p : Row → Bool) (n : ℕ) (rs : List Row) → Below n rs → Below n (keep p rs)
unfolding keep
keep-Below p n [] b = tt
keep-Below p n (r ∷ rs) b =
    ground (arith, keep-Below p r.id rs b.1, Below-mono {m = r.id} {n = n} (keep p rs))

find_hash-keep-none :
    (p : Row → Bool) (h : String) (rs : List Row)
    → find_hash h rs ≡ none
    → find_hash h (keep p rs) ≡ none
unfolding find_hash keep
find_hash-keep-none p h [] e = refl
find_hash-keep-none p h (r ∷ rs) e = ground (arith, find_hash-keep-none p h rs)

keep-Distinct : (p : Row → Bool) (rs : List Row) → Distinct rs → Distinct (keep p rs)
unfolding keep
keep-Distinct p [] d = tt
keep-Distinct p (r ∷ rs) d =
    ground (arith, find_hash-keep-none p r.token_hash rs, keep-Distinct p rs d.1)

pub keep-IsValid :
    (p : Row → Bool) (db : Db) → IsValid db → IsValid (record db { rows = keep p db.rows })
keep-IsValid p db v = record {
  below = keep-Below p db.next_id db.rows v.below;
  distinct = keep-Distinct p db.rows v.distinct;
}

pub insert_row-IsValid :
    (h family : String) (user_id : ℕ) (device_id : String) (exp : ℕ) (from : Option String)
    (db db' : Db)
    → IsValid db
    → insert_row h family user_id device_id exp from db ≡ some db'
    → IsValid db'
unfolding insert_row
insert_row-IsValid h family user_id device_id exp from db db' v e = ground arith

pub find_hash-Below :
    (h : String) (n : ℕ) (rs : List Row) {r : Row} → Below n rs → find_hash h rs ≡ some r → r.id < n
unfolding find_hash
find_hash-Below h n [] b e = absurd (cc)
find_hash-Below h n (x ∷ rs) {r} b e = elim (Bool-cases (x.token_hash == h)) [
  | inl hit ↦ ground arith
  | inr miss ↦ let smaller = find_hash-Below h x.id rs {r = r} b.1 (rw miss at e) in omega arith
]

pub find_hash_hash :
    (h : String) (rs : List Row) {r : Row} → find_hash h rs ≡ some r → r.token_hash ≡ h
unfolding find_hash
find_hash_hash h [] e = absurd (cc)
find_hash_hash h (x ∷ rs) {r} e = elim (Bool-cases (x.token_hash == h)) [
  | inl hit ↦ ground (arith, string_eq.test_iff x.token_hash h)
  | inr miss ↦ find_hash_hash h rs (rw miss at e)
]

-- The second query of a rotation reads the device of the row that the first one read.
pub find_device-find_hash :
    (h : String) (n : ℕ) (rs : List Row) {r : Row}
    → Below n rs
    → find_hash h rs ≡ some r
    → find_device r.id rs ≡ some r.device_id
unfolding find_hash find_device
find_device-find_hash h n [] b e = absurd (cc)
find_device-find_hash h n (x ∷ rs) {r} b e = elim (Bool-cases (x.token_hash == h)) [
  | inl hit ↦ ground (arith, nat_test_iff r.id r.id)
  | inr miss ↦
      let e' : find_hash h rs ≡ some r = rw miss at e in
      let smaller = find_hash-Below h x.id rs {r = r} b.1 e' in
      ground (arith, smaller, find_device-find_hash h x.id rs {r = r} b.1 e')
]
