-- ===== src/Auth/Session/Validity.antt =====
-- When a token is accepted, and the cleanup that agrees with it.
use easyserver.Base.{
  ℕ, String, ◌≡◌, inl, inr, none, arith, if◌then◌else◌, Option-cases, string_eq, nat_eq,
}
use easyserver.Base.Map.{lookup, lookup-retain, Unique}
use easyserver.Auth.Session.{
  Sessions, Session, is_live, survives_cleanup, is_session_valid, cleanup_expired_sessions,
}

survives_cleanup_live :
    (now idle : ℕ) (sess : Session) → survives_cleanup now idle sess ≡ is_live now idle sess
survives_cleanup_live now idle sess = ground arith

-- After a cleanup a token finds exactly the session that it was accepted with at that moment: what
-- the cleanup deletes is what `IsSessionValid` refuses, no more and no less.
pub lookup-cleanup_expired_sessions :
    (now idle : ℕ) (token : String) (s : Sessions)
    → Unique s
    → lookup token (cleanup_expired_sessions now idle s)
      ≡ (if is_session_valid now idle token s then lookup token s else none)
unfolding cleanup_expired_sessions is_session_valid
lookup-cleanup_expired_sessions now idle token s u = elim (Option-cases (lookup token s)) [
  | inl e ↦ ground (arith, e, lookup-retain (λ _ x. survives_cleanup now idle x) token s u)
  | inr (sess, e) ↦ ground (
    arith,
    e,
    survives_cleanup_live now idle sess,
    lookup-retain (λ _ x. survives_cleanup now idle x) token s u,
  )
]
