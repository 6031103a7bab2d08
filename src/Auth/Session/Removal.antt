-- ===== src/Auth/Session/Removal.antt =====
-- What each way of logging out removes, and what it leaves.
use mathlib.Core.List.{Perm, perm_middle}
use mathlib.Core.List.Perm
use easyserver.Base.{
  ◌&&◌, ℕ, String, ◌≡◌, ◌≢◌, inl, inr, none, some, List, [], ◌∷◌, ◌++◌, arith, string_eq, nat_eq,
  not, Bool-cases, Option-cases, All, if◌then◌else◌, ◌==◌, ◌⊎◌,
}
use easyserver.Base.Map.{lookup, Unique, lookup-retain, lookup-erase, retain, values}
use easyserver.Auth.Session.{
  Sessions, Session, remove_user_sessions, is_session_valid, spared, find_id, remove_session_by_id,
  deleted, remove_other_sessions_filter, remove_other_sessions,
}

-- After `RemoveUserSessions` a token is accepted exactly when it was before and its session is not
-- the user's, whatever the clock and the idle timeout say.
pub is_session_valid-remove_user_sessions :
    (user_id now idle : ℕ) (token : String) (sess : Session) (s : Sessions)
    → Unique s
    → lookup token s ≡ some sess
    → is_session_valid now idle token (remove_user_sessions user_id s)
      ≡ (is_session_valid now idle token s && not (sess.user_id == user_id))
unfolding is_session_valid remove_user_sessions
is_session_valid-remove_user_sessions user_id now idle token sess s u found =
    ground (arith, lookup-retain (λ _ x. not (x.user_id == user_id)) token s u, found)

-- `RemoveOtherSessionsFilter` leaves a token exactly when it belongs to another user or is in the
-- set of tokens to keep.
pub lookup-remove_other_sessions_filter :
    (user_id : ℕ) (keep_tokens : List String) (token : String) (sess : Session) (s : Sessions)
    → Unique s
    → lookup token s ≡ some sess
    → lookup token (remove_other_sessions_filter user_id keep_tokens s).0
      ≡ (if spared user_id keep_tokens token sess then some sess else none)
unfolding remove_other_sessions_filter
lookup-remove_other_sessions_filter user_id keep_tokens token sess s u found =
    rw (lookup-retain (spared user_id keep_tokens) token s u, found)

retain-deleted-perm :
    (user_id : ℕ) (keep_tokens : List String) (s : Sessions)
    → Perm
        (values s)
        (deleted user_id keep_tokens s ++ values (retain (spared user_id keep_tokens) s))
unfolding deleted retain
retain-deleted-perm user_id keep_tokens [] = Perm.nil
retain-deleted-perm user_id keep_tokens ((token, sess) ∷ s) =
    let rest = Perm.cons sess (retain-deleted-perm user_id keep_tokens s) in
    elim (Bool-cases (spared user_id keep_tokens token sess)) [
      | inl stays ↦
          rw stays (Perm.trans rest (Perm.symm (perm_middle (deleted user_id keep_tokens s) _)))
      | inr goes ↦ rw goes rest
    ]

deleted-All :
    (user_id : ℕ) (keep_tokens : List String) (s : Sessions)
    → All (λ sess. sess.user_id ≡ user_id) (deleted user_id keep_tokens s)
unfolding deleted
deleted-All user_id keep_tokens [] = tt
deleted-All user_id keep_tokens ((token, sess) ∷ s) =
    ground (arith, deleted-All user_id keep_tokens s)

-- The sessions reported to `onDeleted` and those that stay are together the sessions before the
-- call, each as often, and every reported session belongs to the user: no refresh chain is left
-- unrevoked for a session that is gone, and none is revoked for a session that stays.
pub remove_other_sessions_filter-perm :
    (user_id : ℕ) (keep_tokens : List String) (s : Sessions)
    → let (left, reported) = remove_other_sessions_filter user_id keep_tokens s in
      Perm (values s) (reported ++ values left) × All (λ sess. sess.user_id ≡ user_id) reported
unfolding remove_other_sessions_filter
remove_other_sessions_filter-perm user_id keep_tokens s =
    (retain-deleted-perm user_id keep_tokens s, deleted-All user_id keep_tokens s)

-- `RemoveOtherSessions` keeps the caller's own session.
pub lookup-remove_other_sessions :
    (user_id : ℕ) (token : String) (s : Sessions)
    → Unique s
    → lookup token (remove_other_sessions user_id token s) ≡ lookup token s
unfolding remove_other_sessions
lookup-remove_other_sessions user_id token s u = elim (Option-cases (lookup token s)) [
  | inl e ↦ rw (lookup-retain (spared user_id (token ∷ [])) token s u, e)
  | inr (sess, e) ↦
      rw (lookup-retain (spared user_id (token ∷ [])) token s u, e)
        (ground (arith, string_eq.test_iff token token))
]

-- What a kick by id finds.
find_id_cases :
    (user_id : ℕ) (id : String) (s : Sessions) (token : String)
    → Unique s
    → find_id user_id id s ≡ some token
    → (sess : Session) × (lookup token s ≡ some sess) × (sess.id ≡ id) × (sess.user_id ≡ user_id)
unfolding find_id lookup
find_id_cases user_id id [] token u e = absurd (cc)
find_id_cases user_id id ((t, x) ∷ s) token u e =
    elim (Bool-cases (x.id == id && x.user_id == user_id)) [
      | inl hit ↦ (
        x,
        ground (arith, hit, string_eq.test_iff t token),
        ground (arith, hit, string_eq.test_iff x.id id),
        ground (arith, hit),
      )
      | inr miss ↦
          let (sess, found, a, b) = find_id_cases user_id id s token u.1 (rw miss at e) in
          (sess, ground (arith, found, u.0, string_eq.test_iff t token), a, b)
    ]

find_id-none :
    (user_id : ℕ) (id : String) (s : Sessions) (token : String) (sess : Session)
    → find_id user_id id s ≡ none
    → lookup token s ≡ some sess
    → sess.id ≡ id
    → sess.user_id ≢ user_id
unfolding find_id lookup
find_id-none user_id id [] token sess e found a = absurd (cc)
find_id-none user_id id ((t, x) ∷ s) token sess e found a =
    ground (arith, string_eq.test_iff x.id id, find_id-none user_id id s token sess)

-- A stored session of the user with the id.
abbrev pub HasId : ℕ → String → Sessions → Type 0
HasId user_id id s =
    (token : String) × (sess : Session) × (lookup token s ≡ some sess)
    × (sess.id ≡ id)
    × (sess.user_id ≡ user_id)

-- Kicking by id either finds no session of the user with that id and changes nothing, or it takes
-- out the token of one such session and leaves every other token as it was.
pub remove_session_by_id_cases :
    (user_id : ℕ) (id : String) (s : Sessions)
    → Unique s
    → ((¬ HasId user_id id s) × (remove_session_by_id user_id id s ≡ s))
      ⊎ ((h : HasId user_id id s) × ((token : String)
            → lookup token (remove_session_by_id user_id id s)
              ≡ (if h.0 == token then none else lookup token s)))
unfolding remove_session_by_id
remove_session_by_id_cases user_id id s u = elim (Option-cases (find_id user_id id s)) [
  | inl e ↦
      inl ((λ h. find_id-none user_id id s h.0 h.1 e h.2 h.3 h.4), rw (e, remove_session_by_id))
  | inr (gone, e) ↦
      let (sess, found, a, b) = find_id_cases user_id id s gone u e in
      inr ((gone, sess, found, a, b), λ t. rw (e, remove_session_by_id) (lookup-erase gone t s))
]
