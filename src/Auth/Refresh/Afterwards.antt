-- ===== src/Auth/Refresh/Afterwards.antt =====
-- A token whose row is revoked, through any calls of the service that come after.
use easyserver.Base.{
  ℕ, ◌+◌, String, ◌≡◌, ◌≢◌, refl, inl, inr, none, some, arith, string_eq, nat_eq, true, Bool,
  Bool-cases, Option, Option-cases, ◌==◌, ◌||◌, List, [], ◌∷◌, keep, map,
}
use easyserver.Base.Map.{mapped}
use easyserver.Auth.Refresh.{
  Row, Db, Faults, Statement, refresh_ttl, find_hash, revoke_if, revoke_chain, mark_if,
  mark_rotated, insert_row, is_some, rotate, revoke_row, revoke_family, issue, cleanup_expired,
  is_kept,
}
use easyserver.Auth.Refresh.Table.{
  IsValid, Distinct, find_hash-map, map-IsValid, keep-IsValid, insert_row-IsValid,
}
use easyserver.Auth.Refresh.Rotation.{successor}
use easyserver.Auth.Refresh.Replay.{rotate-Rotates}
use easyserver.Auth.Refresh.Invariant.{rotate-IsValid}

-- One call, with its faults and its clock.
pub data Call : Type 0 where
  issues :
      (fails : Faults) (now : ℕ) (token family : String) (user_id : ℕ) (device_id : String) → Call
  rotates : (fails : Faults) (now : ℕ) (token old_token device_id : String) → Call
  revokes : (now user_id : ℕ) (device_id : String) → Call
  cleans : ℕ → Call

module _ (hash : String → String) where
  abbrev pub run_call : Call → Db → Db
  run_call (issues fails now token family user_id device_id) db =
      (issue hash fails now token family user_id device_id db).0
  run_call (rotates fails now token old_token device_id) db =
      (rotate hash fails now token old_token device_id db).0
  run_call (revokes now user_id device_id) db = revoke_family now user_id device_id db
  run_call (cleans now) db = (cleanup_expired now db).0

  unfoldable pub run_calls : List Call → Db → Db
  run_calls [] db = db
  run_calls (c ∷ cs) db = run_calls cs (run_call c db)

  -- The token that a call draws is not the one of this hash.
  abbrev pub Avoids : String → Call → Type 0
  Avoids h (issues fails now token family user_id device_id) = hash token ≢ h
  Avoids h (rotates fails now token old_token device_id) = hash token ≢ h
  Avoids h (revokes now user_id device_id) = Unit {0}
  Avoids h (cleans now) = Unit {0}

  abbrev pub AllAvoid : String → List Call → Type 0
  AllAvoid h [] = Unit {0}
  AllAvoid h (c ∷ cs) = Avoids h c × AllAvoid h cs

-- Every row that the hash finds is revoked.
abbrev pub IsDead : String → List Row → Type 0
IsDead h rs = (r : Row) → find_hash h rs ≡ some r → is_some r.revoked_at ≡ true

map-IsDead :
    (f : Row → Row) (h : String) (rs : List Row)
    → ((r : Row) → (f r).token_hash ≡ r.token_hash)
    → ((r : Row) → is_some r.revoked_at ≡ true → is_some (f r).revoked_at ≡ true)
    → ((r : Row) → (f r).id ≡ r.id)
    → IsDead h rs
    → IsDead h (map f rs)
map-IsDead f h rs same kept id d r found =
    revoked (find_hash h rs) (λ x e. d x e) (rw (find_hash-map f id same h rs) at found)
  where
    revoked :
        (o : Option Row)
        → ((x : Row) → o ≡ some x → is_some x.revoked_at ≡ true)
        → mapped f o ≡ some r
        → is_some r.revoked_at ≡ true
    revoked none all e = absurd (cc)
    revoked (some x) all e = let k = kept x (all x refl) in ground (arith, e, k)

find_hash-keep :
    (p : Row → Bool) (h : String) (rs : List Row) (r : Row)
    → Distinct rs
    → find_hash h (keep p rs) ≡ some r
    → find_hash h rs ≡ some r
unfolding find_hash keep
find_hash-keep p h [] r d e = e
find_hash-keep p h (x ∷ rs) r d e = elim (Bool-cases (p x)) [
  | inl kept ↦ elim (Bool-cases (x.token_hash == h)) [
    | inl hit ↦ ground (arith, kept, hit)
    | inr miss ↦
        let rest : find_hash h (keep p rs) ≡ some r = ground (arith, kept, miss, e) in
        let found = find_hash-keep p h rs r d.1 rest in ground (arith, miss, found)
  ]
  | inr dropped ↦
      let rest : find_hash h (keep p rs) ≡ some r = ground (arith, dropped, e) in
      let found = find_hash-keep p h rs r d.1 rest in
      elim (Bool-cases (x.token_hash == h)) [
        | inl hit ↦
            let same = (string_eq.test_iff x.token_hash h).0 hit in
            absurd (ground (arith, d.0, same, found))
        | inr miss ↦ ground (arith, miss, found)
      ]
]

cons-IsDead :
    (x : Row) (h : String) (rs : List Row) → x.token_hash ≢ h → IsDead h rs → IsDead h (x ∷ rs)
unfolding find_hash
cons-IsDead x h rs other d r found = elim (Bool-cases (x.token_hash == h)) [
  | inl same ↦ absurd (other ((string_eq.test_iff x.token_hash h).0 same))
  | inr miss ↦ d r (rw miss at found)
]

insert_row-IsDead :
    (h' family : String) (user_id : ℕ) (device_id : String) (exp : ℕ) (from : Option String)
    (db db' : Db) (h : String)
    → insert_row h' family user_id device_id exp from db ≡ some db'
    → h' ≢ h
    → IsDead h db.rows
    → IsDead h db'.rows
unfolding insert_row find_hash
insert_row-IsDead h' family user_id device_id exp from db db' h e other d r found =
    elim (Bool-cases (h' == h)) [
      | inl same ↦ absurd (other ((string_eq.test_iff h' h).0 same))
      | inr miss ↦ d r (ground arith)
    ]

keep-IsDead :
    (p : Row → Bool) (h : String) (rs : List Row) → Distinct rs → IsDead h rs → IsDead h (keep p rs)
keep-IsDead p h rs v d r found = d r (find_hash-keep p h rs r v found)

module _ (hash : String → String) (h : String) where
  rotate-IsDead :
      (fails : Faults) (now : ℕ) (token old_token device_id : String) (db : Db)
      → IsValid db
      → hash token ≢ h
      → IsDead h db.rows
      → IsDead h (rotate hash fails now token old_token device_id db).0.rows
  unfolding mark_rotated revoke_chain
  rotate-IsDead fails now token old_token device_id db v other d =
      elim (rotate-Rotates hash fails now token old_token device_id db v) [
        | inl (_, _, r) ↦ rw r d
        | inr (inl (_, _, _, inl (r, _))) ↦ rw r d
        | inr (inl (row, _, _, inr r)) ↦ rw r (
            map-IsDead (revoke_if now row.family_id) h db.rows (λ x. ground arith)
              (λ x. ground arith) (λ x. ground arith) d)
        | inr (inr (row, _, _, _, r)) ↦ rw r (
            cons-IsDead (successor now (hash token) (hash old_token) row db.next_id) h _ other (
              map-IsDead (mark_if now row.id) h db.rows (λ x. ground arith) (λ x. ground arith)
                (λ x. ground arith) d))
      ]

  issue-IsDead :
      (fails : Faults) (now : ℕ) (token family : String) (user_id : ℕ) (device_id : String)
      (db : Db)
      → IsValid db
      → hash token ≢ h
      → IsDead h db.rows
      → let after = (issue hash fails now token family user_id device_id db).0 in
        IsValid after × IsDead h after.rows
  unfolding issue
  issue-IsDead fails now token family user_id device_id db v other d =
      elim (Bool-cases (fails Statement.draws || fails Statement.inserts)) [
        | inl c ↦ rw (c, issue) (v, d)
        | inr c ↦
            elim (Option-cases
              (insert_row (hash token) family user_id device_id (now + refresh_ttl) none db)) [
                | inl e ↦ rw (c, issue) (rw (e, issue) (v, d))
                | inr (db', e) ↦
                    rw (c, issue)
                      (rw (e, issue)
                        (
                          insert_row-IsValid (hash token) family user_id device_id
                              (now + refresh_ttl) none db db' v e,
                          insert_row-IsDead (hash token) family user_id device_id
                              (now + refresh_ttl) none db db' h e other d,
                        ))
              ]
      ]

  run_call-IsDead :
      (c : Call) (db : Db)
      → IsValid db
      → Avoids hash h c
      → IsDead h db.rows
      → IsValid (run_call hash c db) × IsDead h (run_call hash c db).rows
  unfolding revoke_family cleanup_expired
  run_call-IsDead (issues fails now token family user_id device_id) db v other d =
      issue-IsDead fails now token family user_id device_id db v other d
  run_call-IsDead (rotates fails now token old_token device_id) db v other d = (
    rotate-IsValid hash fails now token old_token device_id db v,
    rotate-IsDead fails now token old_token device_id db v other d,
  )
  run_call-IsDead (revokes now user_id device_id) db v other d = (
    map-IsValid (revoke_row now user_id device_id) (λ x. ground arith) (λ x. ground arith) db v,
    map-IsDead (revoke_row now user_id device_id) h db.rows (λ x. ground arith) (λ x. ground arith)
        (λ x. ground arith) d,
  )
  run_call-IsDead (cleans now) db v other d =
      (keep-IsValid (is_kept now) db v, keep-IsDead (is_kept now) h db.rows v.distinct d)

  -- A revoked token stays so through any calls, of which none draws it again.
  pub run_calls-IsDead :
      (cs : List Call) (db : Db)
      → IsValid db
      → AllAvoid hash h cs
      → IsDead h db.rows
      → IsValid (run_calls hash cs db) × IsDead h (run_calls hash cs db).rows
  unfolding run_calls
  run_calls-IsDead [] db v others d = (v, d)
  run_calls-IsDead (c ∷ cs) db v others d =
      let (v', d') = run_call-IsDead c db v others.0 d in
      run_calls-IsDead cs (run_call hash c db) v' others.1 d'
