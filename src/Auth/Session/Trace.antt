-- ===== src/Auth/Session/Trace.antt =====
-- The calls of the session service as one step function, and runs of it.
use easyserver.Base.{ℕ, String, List, [], ◌∷◌, Result, ok, err}
use easyserver.Auth.Session.{
  Sessions, Login, create_session, update_activity, remove_session, remove_user_sessions,
  replace_session, touch_mobile_sessions, remove_session_by_id, remove_mobile_sessions,
  cleanup_expired_sessions, remove_other_sessions_filter,
}

-- Each call that writes, with the clock and the random id that it reads.
pub data Call : Type 0 where
  creates : Result String → ℕ → String → Login → Call
  replaces : Result String → ℕ → String → String → Login → Call
  updates : ℕ → String → Call
  removes : String → Call
  removes_user : ℕ → Call
  removes_id : ℕ → String → Call
  removes_mobile : ℕ → Call
  removes_others : ℕ → List String → Call
  touches : ℕ → ℕ → ℕ → Call
  cleans : ℕ → ℕ → Call

-- A call that fails leaves the sessions as they were.
abbrev pub after : Sessions → Result Sessions → Sessions
after s (ok t) = t
after s (err e) = s

unfoldable pub step : Sessions → Call → Sessions
step s (creates sid now token l) = after s (create_session sid now token l s)
step s (replaces sid now old new l) = after s (replace_session sid now old new l s)
step s (updates now token) = after s (update_activity now token s)
step s (removes token) = remove_session token s
step s (removes_user user_id) = remove_user_sessions user_id s
step s (removes_id user_id id) = remove_session_by_id user_id id s
step s (removes_mobile user_id) = remove_mobile_sessions user_id s
step s (removes_others user_id keep) = (remove_other_sessions_filter user_id keep s).0
step s (touches now user_id ttl) = touch_mobile_sessions now user_id ttl s
step s (cleans now idle) = cleanup_expired_sessions now idle s

unfoldable pub run : Sessions → List Call → Sessions
unfolding step
run s [] = s
run s (c ∷ cs) = run (step s c) cs
