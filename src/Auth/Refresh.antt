-- ===== src/Auth/Refresh.antt =====
-- internal/domain/auth/refresh.go: opaque refresh tokens in the table `refresh_tokens`, each SQL
-- statement as a function on its rows. The clock (one instant for a call, nanoseconds), the random
-- strings of `newOpaque`, and which statements the database fails are arguments; `hash`, the hex
-- SHA-256 of a token, is a parameter. A row that is inserted stands in front of the others.
pub mod Table
pub mod Rotation
pub mod Replay
pub mod Chain
pub mod Invariant
pub mod Reach
pub mod Afterwards
pub mod Revocation
mod Examples
use easyserver.Base.{
  map, ℕ, suc, ◌+◌, ◌*◌, String, Bool, true, false, not, ◌&&◌, ◌||◌, Option, none, some, List, [],
  ◌∷◌, ltb, if◌then◌else◌, ◌==◌, nat_eq, string_eq, keep, ◌-◌, length,
}

pub record Row : Type 0 where
  pub id : ℕ
  pub token_hash : String
  pub family_id : String
  pub user_id : ℕ
  pub device_id : String
  pub expires_at : ℕ
  pub rotated_from : Option String
  pub rotated_at : Option ℕ
  pub revoked_at : Option ℕ

-- `refresh_tokens`, whose ids come from AUTOINCREMENT.
pub record Db : Type 0 where
  pub rows : List Row
  pub next_id : ℕ

pub record RefreshPair : Type 0 where
  pub token : String
  pub expires_at : ℕ

-- The statements that can fail. `queries` is the read of the token's row, `reads_device` that of
-- its device, `revokes` and `marks` the two updates, `inserts` the new row, `draws` a call of
-- `newOpaque`.
pub data Statement : Type 0 where
  begins queries reads_device revokes marks draws inserts commits : Statement

abbrev pub Faults : Type 0
Faults = Statement → Bool

-- The four refusals of `Rotate` in the order of the code, and an error of the database.
pub data Refusal : Type 0 where
  unknown inactive device_mismatch replayed database : Refusal

pub data Outcome : Type 0 where
  issued : RefreshPair → Outcome
  refused : Refusal → Outcome

-- 90 days in nanoseconds.
abbrev pub refresh_ttl : ℕ
refresh_ttl = 90 * 24 * 3600 * 1_000_000_000

-- `SELECT ... WHERE token_hash = ?`.
unfoldable pub find_hash : String → List Row → Option Row
find_hash h [] = none
find_hash h (r ∷ rs) = if r.token_hash == h then some r else find_hash h rs

-- `SELECT device_id ... WHERE id = ?`.
unfoldable pub find_device : ℕ → List Row → Option String
find_device i [] = none
find_device i (r ∷ rs) = if r.id == i then some r.device_id else find_device i rs

-- `UPDATE ... SET revoked_at = CURRENT_TIMESTAMP WHERE family_id = ?`.
abbrev pub revoke_if : ℕ → String → Row → Row
revoke_if now family r = if r.family_id == family then record r { revoked_at = some now } else r

unfoldable pub revoke_chain : ℕ → String → List Row → List Row
revoke_chain now family rs = map (revoke_if now family) rs

-- `UPDATE ... SET rotated_at = ? WHERE id = ?`.
abbrev pub mark_if : ℕ → ℕ → Row → Row
mark_if now i r = if r.id == i then record r { rotated_at = some now } else r

unfoldable pub mark_rotated : ℕ → ℕ → List Row → List Row
mark_rotated now i rs = map (mark_if now i) rs

abbrev pub is_some {ℓ} : {A : Type ℓ} → Option A → Bool
is_some none = false
is_some (some _) = true

-- `NULLIF(?, '')`.
abbrev pub null_if_empty : String → Option String
null_if_empty s = if s == "" then none else some s

-- `INSERT`: the hash is UNIQUE, so a row with it makes the statement fail.
unfoldable pub insert_row : String → String → ℕ → String → ℕ → Option String → Db → Option Db
insert_row h family user_id device_id exp from db =
    if is_some (find_hash h db.rows)
    then none
    else some (record {
      rows =
          record {
            id = db.next_id;
            token_hash = h;
            family_id = family;
            user_id = user_id;
            device_id = device_id;
            expires_at = exp;
            rotated_from = from;
            rotated_at = none;
            revoked_at = none;
          }
          ∷ db.rows;
      next_id = suc db.next_id;
    })

abbrev pub is_active : Row → Bool
is_active r = not (is_some r.rotated_at) && not (is_some r.revoked_at)

module _ (hash : String → String) (fails : Faults) where
  -- `Issue`: a new chain. `token` and `family` are the two strings drawn.
  unfoldable pub issue : ℕ → String → String → ℕ → String → Db → Db × Outcome
  issue now token family user_id device_id db =
      if fails draws || fails inserts
      then (db, refused database)
      else elim (insert_row (hash token) family user_id device_id (now + refresh_ttl) none db) [
        | none ↦ (db, refused database)
        | some db' ↦ (db', issued (record { token = token; expires_at = now + refresh_ttl }))
      ]

  -- `issueInTx` inside the transaction, and its commit: on an error the deferred rollback leaves
  -- the table as it was before, `db`; `marked` is the table inside the transaction.
  unfoldable pub issue_in_tx : ℕ → String → Row → String → String → Db → Db → Db × Outcome
  issue_in_tx now token row bound_device old_hash db marked =
      if fails draws || fails inserts
      then (db, refused database)
      else elim (insert_row (hash token) row.family_id row.user_id bound_device (now + refresh_ttl)
          (null_if_empty old_hash) marked) [
            | none ↦ (db, refused database)
            | some db' ↦
                if fails commits
                then (db, refused database)
                else (db', issued (record { token = token; expires_at = now + refresh_ttl }))
          ]

  -- `Rotate` once the row and its device are read. In the replay branch the error of the commit is
  -- dropped: where it fails nothing was revoked, and the answer is the same.
  unfoldable pub rotate_row : ℕ → String → String → String → Row → String → Db → Db × Outcome
  unfolding issue_in_tx
  rotate_row now token old_hash device_id row bound_device db =
      if not (device_id == "") && not (bound_device == device_id)
      then (db, refused device_mismatch)
      else if is_some row.rotated_at
      then (if fails revokes
          then (db, refused database)
          else if fails commits
          then (db, refused replayed)
          else (record db { rows = revoke_chain now row.family_id db.rows }, refused replayed))
      else if fails marks
      then (db, refused database)
      else issue_in_tx now token row bound_device old_hash db
          (record db { rows = mark_rotated now row.id db.rows })

  -- `Rotate`. `token` is the string drawn for the new refresh token.
  unfoldable pub rotate : ℕ → String → String → String → Db → Db × Outcome
  unfolding rotate_row
  rotate now token old_token device_id db =
      if fails begins || fails queries
      then (db, refused database)
      else elim (find_hash (hash old_token) db.rows) [
        | none ↦ (db, refused unknown)
        | some row ↦
            if is_some row.revoked_at || ltb row.expires_at now
            then (db, refused inactive)
            else if fails reads_device
            then (db, refused database)
            else elim (find_device row.id db.rows) [
              | none ↦ (db, refused database)
              | some bound_device ↦
                  rotate_row now token (hash old_token) device_id row bound_device db
            ]
      ]

-- The rows that `RevokeFamily` updates: of the user, and of the device if one is given.
abbrev pub is_revocable : ℕ → String → Row → Bool
is_revocable user_id device_id r =
    if not (device_id == "")
    then r.user_id == user_id && r.device_id == device_id && not (is_some r.revoked_at)
    else r.user_id == user_id && not (is_some r.revoked_at)

abbrev pub revoke_row : ℕ → ℕ → String → Row → Row
revoke_row now user_id device_id r =
    if is_revocable user_id device_id r then record r { revoked_at = some now } else r

unfoldable pub revoke_family : ℕ → ℕ → String → Db → Db
revoke_family now user_id device_id db = record db {
  rows = map (revoke_row now user_id device_id) db.rows;
}

abbrev pub seven_days : ℕ
seven_days = 7 * 24 * 3600 * 1_000_000_000

-- `t < datetime('now', '-7 days')`, false of NULL.
abbrev pub is_stale : ℕ → Option ℕ → Bool
is_stale now none = false
is_stale now (some t) = ltb (t + seven_days) now

abbrev pub is_kept : ℕ → Row → Bool
is_kept now r = not (is_stale now (some r.expires_at) || is_stale now r.revoked_at)

-- `CleanupExpired`, with the number of rows deleted.
unfoldable pub cleanup_expired : ℕ → Db → Db × ℕ
cleanup_expired now db =
    let left = keep (is_kept now) db.rows in
    (record db { rows = left }, length db.rows - length left)

-- `Identity`: the row's user joined with the table of users, given as a function.
unfoldable pub identity :
    (String → String) → (ℕ → Option String) → String → Db → Option (ℕ × String)
identity hash username token db = elim (find_hash (hash token) db.rows) [
  | none ↦ none
  | some row ↦ elim (username row.user_id) [ none ↦ none | some name ↦ some (row.user_id, name) ]
]
