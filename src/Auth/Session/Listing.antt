-- ===== src/Auth/Session/Listing.antt =====
-- The lists of sessions shown to users.
use mathlib.Core.List.{Mem, Perm, not-mem-nil, eq-or-mem_of_mem-cons}
use mathlib.Core.Logic.Or
use mathlib.Core.List.Perm
use easyserver.Base.{
  ℕ, ◌+◌, ◌≤◌, ◌<◌, String, ◌≡◌, ◌≢◌, ◌↔◌, inl, inr, some, arith, string_eq, nat_eq, true,
  Bool-cases, List, [], ◌∷◌, ltb,
}
use easyserver.Base.Map.{lookup, values, Unique}
use easyserver.Base.Entries.{Entries}
use easyserver.Base.Members.{mem-keep, String-set}
use easyserver.Auth.Session.{
  Sessions, Session, place, sort_newest, is_listed, get_user_sessions, is_active,
  get_active_sessions, is_session_valid, client_type_mobile_direct,
}
use easyserver.Auth.Session.Invariant.{IsValid, Keyed}

place-perm : (x : Session) (ys : List Session) → Perm (place x ys) (x ∷ ys)
unfolding place
place-perm x [] = Perm.refl (x ∷ [])
place-perm x (y ∷ ys) = elim (Bool-cases (ltb x.login_at y.login_at)) [
  | inl later ↦ rw later (Perm.trans (Perm.cons y (place-perm x ys)) (Perm.swap x y ys))
  | inr sooner ↦ rw sooner (Perm.refl (x ∷ y ∷ ys))
]

pub sort_newest-perm : (xs : List Session) → Perm (sort_newest xs) xs
unfolding sort_newest
sort_newest-perm [] = Perm.nil
sort_newest-perm (x ∷ xs) =
    Perm.trans (place-perm x (sort_newest xs)) (Perm.cons x (sort_newest-perm xs))

-- No session stands before one with later activity.
abbrev pub IsNewestFirst : List Session → Type 0
IsNewestFirst [] = Unit {0}
IsNewestFirst (x ∷ []) = Unit {0}
IsNewestFirst (x ∷ y ∷ ys) = (y.login_at ≤ x.login_at) × IsNewestFirst (y ∷ ys)

place-IsNewestFirst :
    (x : Session) (ys : List Session) → IsNewestFirst ys → IsNewestFirst (place x ys)
unfolding place
place-IsNewestFirst x [] h = tt
place-IsNewestFirst x (y ∷ []) h = ground arith
place-IsNewestFirst x (y ∷ z ∷ zs) h = ground (arith, place-IsNewestFirst x (z ∷ zs) h.1)

pub sort_newest-IsNewestFirst : (xs : List Session) → IsNewestFirst (sort_newest xs)
unfolding sort_newest
sort_newest-IsNewestFirst [] = tt
sort_newest-IsNewestFirst (x ∷ xs) =
    place-IsNewestFirst x (sort_newest xs) (sort_newest-IsNewestFirst xs)

mem-sort_newest : (x : Session) (xs : List Session) → Mem x (sort_newest xs) ↔ Mem x xs
mem-sort_newest x xs = Perm.mem_iff (sort_newest-perm xs)

found_prop : (x : Session) (token : String) (s : Sessions) → IsProp (lookup token s ≡ some x)
found_prop x token s = hlevel String-set

-- A stored session is found under its own token.
pub lookup_of_mem :
    (x : Session) (s : Sessions)
    → Unique s
    → Entries Keyed s
    → Mem x (values s)
    → lookup x.token s ≡ some x
unfolding lookup
lookup_of_mem x [] u k m = absurd (not-mem-nil m)
lookup_of_mem x ((token, sess) ∷ s) u k m =
    Or.elim (found_prop x x.token ((token, sess) ∷ s)) (eq-or-mem_of_mem-cons m)
      (λ e. ground (arith, e, k.0, string_eq.test_iff token x.token))
      (λ r. ground (arith, u.0, lookup_of_mem x s u.1 k.1 r, string_eq.test_iff token x.token))

listed_iff :
    (now user_id : ℕ) (sess : Session)
    → (is_listed now user_id sess ≡ true) ↔ (
        (sess.user_id ≡ user_id)
        × (now < sess.expires_at)
        × (sess.client_type ≢ client_type_mobile_direct))
listed_iff now user_id sess = (
  (λ h. ground (arith, string_eq.test_iff sess.client_type client_type_mobile_direct)),
  (λ h. ground (arith, string_eq.test_iff sess.client_type client_type_mobile_direct)),
)

-- The list of a user's sessions holds a session exactly when it is stored, belongs to the user, has
-- not expired and is no credential of the direct channel; and it is ordered by latest activity.
pub get_user_sessions_lem :
    (now user_id : ℕ) (s : Sessions)
    → IsNewestFirst (get_user_sessions now user_id s)
      × ((x : Session)
          → Mem x (get_user_sessions now user_id s) ↔ (
              Mem x (values s)
              × (x.user_id ≡ user_id)
              × (now < x.expires_at)
              × (x.client_type ≢ client_type_mobile_direct)))
unfolding get_user_sessions
get_user_sessions_lem now user_id s = (
  sort_newest-IsNewestFirst _,
  λ x. (
    (λ m.
        let h = (mem-keep (is_listed now user_id) x (values s)).0 ((mem-sort_newest x _).0 m) in
        let l = (listed_iff now user_id x).0 h.1 in (h.0, l.0, l.1, l.2)),
    (λ h. (mem-sort_newest x _).1 (
        (mem-keep (is_listed now user_id) x (values s)).1
          (h.0, (listed_iff now user_id x).1 (h.1, h.2, h.3)))),
  ),
)

-- In a well formed table every session of the active list is one whose token is accepted.
pub get_active_sessions_valid :
    (now idle : ℕ) (x : Session) (s : Sessions)
    → IsValid s
    → Mem x (get_active_sessions now idle s)
    → is_session_valid now idle x.token s ≡ true
unfolding get_active_sessions is_session_valid
get_active_sessions_valid now idle x s v m =
    let h = (mem-keep (is_active now idle) x (values s)).0 ((mem-sort_newest x _).0 m) in
    ground (arith, lookup_of_mem x s v.unique v.keyed h.0)

-- The other inclusion fails: the active list drops every mobile session that has been quiet for
-- longer than the idle timeout, while its token is still accepted.
pub get_active_sessions_omits_mobile :
    (now idle : ℕ) (x : Session) (s : Sessions)
    → IsValid s
    → Mem x (values s)
    → x.client_type ≡ "mobile"
    → now < x.expires_at
    → 0 < idle
    → x.login_at + idle < now
    → (is_session_valid now idle x.token s ≡ true) × (¬ Mem x (get_active_sessions now idle s))
unfolding get_active_sessions is_session_valid
get_active_sessions_omits_mobile now idle x s v m mobile unexpired on quiet = (
  ground (arith, lookup_of_mem x s v.unique v.keyed m, string_eq.test_iff x.client_type "mobile"),
  λ listed.
      let h = (mem-keep (is_active now idle) x (values s)).0 ((mem-sort_newest x _).0 listed) in
      ground arith,
)
