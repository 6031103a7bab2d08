-- ===== src/Auth/Refresh/Chain.antt =====
-- A chain of refresh tokens from its login to its end: the successor lives, a second use of a token
-- ends every token of the chain, and a logout ends every token of the device or the user.
use easyserver.Base.{ℕ, String, ◌≡◌, ◌≢◌, Option, none, some, arith, string_eq, nat_eq, true, List}
use easyserver.Base.Map.{mapped}
use easyserver.Auth.Refresh.{
  Row, Db, RefreshPair, Faults, replayed, issued, refused, find_hash, revoke_if, revoke_chain,
  mark_if, mark_rotated, is_some, insert_row, rotate,
}
use easyserver.Auth.Refresh.Table.{IsValid, find_hash-map, find_device-find_hash}
use easyserver.Auth.Refresh.Rotation.{rotated_db, new_pair, revoked_db, mark_if-hash}
use easyserver.Auth.Refresh.Replay.{Accepts, no_faults, rotate_issued}

pub find_hash-revoke_chain :
    (now : ℕ) (family h : String) (rs : List Row)
    → find_hash h (revoke_chain now family rs) ≡ mapped (revoke_if now family) (find_hash h rs)
unfolding revoke_chain
find_hash-revoke_chain now family h rs =
    find_hash-map (revoke_if now family) (λ r. ground arith) (λ r. ground arith) h rs

pub revoke_chain_revoked :
    (now : ℕ) (family h : String) (rs : List Row) (r : Row)
    → find_hash h (revoke_chain now family rs) ≡ some r
    → r.family_id ≡ family
    → r.revoked_at ≡ some now
revoke_chain_revoked now family h rs r found same =
    let e : mapped (revoke_if now family) (find_hash h rs) ≡ some r =
      rw (find_hash-revoke_chain now family h rs) at found in
    revoked (find_hash h rs) e
  where
    revoked : (o : Option Row) → mapped (revoke_if now family) o ≡ some r → r.revoked_at ≡ some now
    revoked none e = absurd (cc)
    revoked (some x) e = ground (arith, string_eq.test_iff x.family_id family)

module _ (hash : String → String) where
  -- A token whose row is revoked is never exchanged again.
  pub rotate_revoked :
      (fails : Faults) (now : ℕ) (token old_token device_id : String) (db : Db) (row : Row)
      (pair : RefreshPair)
      → IsValid db
      → find_hash (hash old_token) db.rows ≡ some row
      → is_some row.revoked_at ≡ true
      → (rotate hash fails now token old_token device_id db).1 ≢ issued pair
  rotate_revoked fails now token old_token device_id db row pair v found revoked answer =
      let (row', accepted, _, _, _, _) =
        rotate_issued hash fails now token old_token device_id db pair v answer in
      ground (arith, accepted.found, accepted.unrevoked)

  -- Nor one that finds no row but revoked ones.
  pub rotate_dead :
      (fails : Faults) (now : ℕ) (token old_token device_id : String) (db : Db) (pair : RefreshPair)
      → IsValid db
      → ((r : Row) → find_hash (hash old_token) db.rows ≡ some r → is_some r.revoked_at ≡ true)
      → (rotate hash fails now token old_token device_id db).1 ≢ issued pair
  rotate_dead fails now token old_token device_id db pair v dead answer =
      let (row, accepted, _, _, _, _) =
        rotate_issued hash fails now token old_token device_id db pair v answer in
      let revoked = dead row accepted.found in ground (arith, revoked, accepted.unrevoked)

  -- Without a failing statement a token that is accepted and was not used before is exchanged, if
  -- the token drawn is new.
  pub rotate_fresh :
      (now : ℕ) (token old_token device_id : String) (db : Db) (row : Row)
      → IsValid db
      → Accepts hash now old_token device_id db row
      → row.rotated_at ≡ none
      → find_hash (hash token) db.rows ≡ none
      → rotate hash no_faults now token old_token device_id db
        ≡ (rotated_db now (hash token) (hash old_token) row db, issued (new_pair now token))
  unfolding rotate insert_row mark_rotated
  rotate_fresh now token old_token device_id db row v a fresh unused =
      let device =
        find_device-find_hash (hash old_token) db.next_id db.rows {r = row} v.below a.found in
      let marked =
        find_hash-map (mark_if now row.id) (λ r. ground arith) (mark_if-hash now row.id)
          (hash token) db.rows in
      ground (
        arith,
        a.found,
        a.unrevoked,
        a.unexpired,
        a.fits,
        device,
        marked,
        string_eq.test_iff device_id "",
        string_eq.test_iff row.device_id device_id,
      )

  -- Without a failing statement a token that is accepted but was used before revokes its chain.
  pub rotate_used :
      (now : ℕ) (token old_token device_id : String) (db : Db) (row : Row)
      → IsValid db
      → Accepts hash now old_token device_id db row
      → is_some row.rotated_at ≡ true
      → rotate hash no_faults now token old_token device_id db
        ≡ (revoked_db now row.family_id db, refused replayed)
  unfolding rotate
  rotate_used now token old_token device_id db row v a used =
      let device =
        find_device-find_hash (hash old_token) db.next_id db.rows {r = row} v.below a.found in
      ground (
        arith,
        a.found,
        a.unrevoked,
        a.unexpired,
        a.fits,
        device,
        string_eq.test_iff device_id "",
        string_eq.test_iff row.device_id device_id,
      )
