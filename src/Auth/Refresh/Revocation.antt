-- ===== src/Auth/Refresh/Revocation.antt =====
-- How a chain ends: by a second use of one of its tokens, or by a logout.
use easyserver.Base.{ℕ, ◌≤◌, String, ◌≡◌, ◌≢◌, refl, some, arith, string_eq, nat_eq, ◌⊎◌, List}
use easyserver.Auth.Refresh.{
  Row, Db, RefreshPair, Faults, replayed, issued, refused, find_hash, rotate, revoke_row,
  revoke_family,
}
use easyserver.Auth.Refresh.Table.{IsValid, find_hash-map, map-IsValid}
use easyserver.Auth.Refresh.Rotation.{successor, revoked_db, FitsDevice}
use easyserver.Auth.Refresh.Replay.{Accepts, no_faults, rotate_issued}
use easyserver.Auth.Refresh.Chain.{rotate_dead, rotate_revoked, rotate_used, find_hash-revoke_chain}
use easyserver.Auth.Refresh.Afterwards.{Call, run_calls, AllAvoid, IsDead, run_calls-IsDead}
use easyserver.Auth.Refresh.Invariant.{revoked_db-IsValid, rotate-IsValid}

-- The rows of a revoked chain, whichever token finds them, are revoked.
revoked_db-IsDead :
    (now : ℕ) (h : String) (row : Row) (db : Db)
    → find_hash h db.rows ≡ some row
    → IsDead h (revoked_db now row.family_id db).rows
revoked_db-IsDead now h row db found r found' = ground (
  arith,
  find_hash-revoke_chain now row.family_id h db.rows,
  found,
  found',
  string_eq.test_iff row.family_id row.family_id,
)

module _ (hash : String → String) where
  pub rotate_twice :
      (first : Faults) (now later : ℕ) (token token' old_token device_id device_id' : String)
      (db : Db) (row : Row) (pair : RefreshPair) (calls : List Call) (fails : Faults) (at : ℕ)
      (next device : String) (pair' : RefreshPair)
      → IsValid db
      → find_hash (hash old_token) db.rows ≡ some row
      → (rotate hash first now token old_token device_id db).1 ≡ issued pair
      → later ≤ row.expires_at
      → FitsDevice device_id' row
      → AllAvoid hash (hash token) calls
      → let (db₂, answer) =
          rotate hash no_faults later token' old_token device_id'
            (rotate hash first now token old_token device_id db).0 in
        (answer ≡ refused replayed)
        × ((rotate hash fails at next token device (run_calls hash calls db₂)).1 ≢ issued pair')
  rotate_twice first now later token token' old_token device_id device_id' db row pair calls fails
        at next device pair' v found once early fits others =
      let (row₁, a, fresh, _, child, marked) =
        rotate_issued hash first now token old_token device_id db pair v once in
      let same : row₁ ≡ row = ground (arith, a.found, found) in
      let db₁ = (rotate hash first now token old_token device_id db).0 in
      let v₁ = rotate-IsValid hash first now token old_token device_id db v in
      let used = record row₁ { rotated_at = some now } in
      let again : Accepts hash later old_token device_id' db₁ used = record {
        found = marked;
        unrevoked = a.unrevoked;
        unexpired = ground (arith, same, early);
        fits = ground (arith, same, fits);
      } in
      let second = rotate_used hash later token' old_token device_id' db₁ used v₁ again refl in
      let (v₃, dead) =
        run_calls-IsDead hash (hash token) calls (revoked_db later row₁.family_id db₁)
          (revoked_db-IsValid later row₁.family_id db₁ v₁) others
          (revoked_db-IsDead later (hash token)
            (successor now (hash token) (hash old_token) row₁ db.next_id) db₁ child) in
      (rw second, rw second (rotate_dead hash fails at next token device _ pair' v₃ dead))

  -- After a logout no token of the user on the device, or of the user on any device where none is
  -- named, is ever exchanged again, whatever statements fail.
  pub rotate-revoke_family :
      (now user_id : ℕ) (device_id : String) (db : Db) (token : String) (row : Row) (fails : Faults)
      (at : ℕ) (next device : String) (pair : RefreshPair)
      → IsValid db
      → find_hash (hash token) db.rows ≡ some row
      → row.user_id ≡ user_id
      → (device_id ≡ "") ⊎ (row.device_id ≡ device_id)
      → (rotate hash fails at next token device (revoke_family now user_id device_id db)).1
        ≢ issued pair
  unfolding revoke_family
  rotate-revoke_family now user_id device_id db token row fails at next device pair v found own
        fits =
      let updated =
        find_hash-map (revoke_row now user_id device_id) (λ r. ground arith) (λ r. ground arith)
          (hash token) db.rows in
      let v' =
        map-IsValid (revoke_row now user_id device_id) (λ r. ground arith) (λ r. ground arith) db
          v in
      rotate_revoked hash fails at next token device _ (revoke_row now user_id device_id row) pair
        v' (ground (arith, updated, found))
        (ground
          (arith, string_eq.test_iff device_id "", string_eq.test_iff row.device_id device_id))
