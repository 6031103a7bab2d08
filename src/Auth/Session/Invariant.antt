-- ===== src/Auth/Session/Invariant.antt =====
-- The table of sessions stays well formed under every call.
use easyserver.Base.{
  ℕ, String, ◌≡◌, refl, inl, inr, List, [], ◌∷◌, ok, err, arith, string_eq, nat_eq, Option-cases,
  Result,
}
use easyserver.Base.Map.{
  lookup, Unique, insert-Unique, erase-Unique, retain-Unique, map_values-Unique,
}
use easyserver.Base.Entries.{
  Entries, insert-Entries, erase-Entries, retain-Entries, map_values-Entries, lookup-Entries,
}
use easyserver.Auth.Session.{
  Sessions, Session, Login, create_session, update_activity, remove_session, remove_user_sessions,
  replace_session, touch, touch_mobile_sessions, find_id, remove_session_by_id,
  remove_mobile_sessions, cleanup_expired_sessions, remove_other_sessions_filter, owned_by,
}
use easyserver.Auth.Session.Trace.{
  Call, creates, replaces, updates, removes, removes_user, removes_id, removes_mobile,
  removes_others, touches, cleans, step, run, after,
}

abbrev pub Keyed : String → Session → Type 0
Keyed token sess = sess.token ≡ token

-- No token stands twice, and each session knows the token that it is filed under.
pub record IsValid (s : Sessions) : Type 0 where
  pub unique : Unique s
  pub keyed : Entries Keyed s

create_session-IsValid :
    (sid : Result String) (now : ℕ) (token : String) (l : Login) (s : Sessions)
    → IsValid s
    → IsValid (after s (create_session sid now token l s))
unfolding create_session
create_session-IsValid (err x) now token l s v = v
create_session-IsValid (ok id) now token l s v = record {
  unique = insert-Unique token _ s v.unique;
  keyed = insert-Entries Keyed token _ s refl v.keyed;
}

update_activity-IsValid :
    (now : ℕ) (token : String) (s : Sessions)
    → IsValid s
    → IsValid (after s (update_activity now token s))
unfolding update_activity
update_activity-IsValid now token s v = elim (Option-cases (lookup token s)) [
  | inl e ↦ rw (e, update_activity) v
  | inr (sess, e) ↦
      rw (e, update_activity)
        (record {
          unique = insert-Unique token _ s v.unique;
          keyed = insert-Entries Keyed token _ s (lookup-Entries Keyed token s v.keyed e) v.keyed;
        })
]

replace_session-IsValid :
    (sid : Result String) (now : ℕ) (old_token new_token : String) (l : Login) (s : Sessions)
    → IsValid s
    → IsValid (after s (replace_session sid now old_token new_token l s))
unfolding replace_session
replace_session-IsValid (err x) now old_token new_token l s v = v
replace_session-IsValid (ok id) now old_token new_token l s v =
    elim (Option-cases (owned_by l.user_id (lookup old_token s))) [
      | inl e ↦
          rw (e, replace_session)
            (record {
              unique = insert-Unique new_token _ s v.unique;
              keyed = insert-Entries Keyed new_token _ s refl v.keyed;
            })
      | inr (old, e) ↦
          rw (e, replace_session)
            (record {
              unique = insert-Unique new_token _ _ (erase-Unique old_token s v.unique);
              keyed =
                  insert-Entries Keyed new_token _ _ refl (erase-Entries Keyed old_token s v.keyed);
            })
    ]

remove_session_by_id-IsValid :
    (user_id : ℕ) (id : String) (s : Sessions)
    → IsValid s
    → IsValid (remove_session_by_id user_id id s)
unfolding remove_session_by_id
remove_session_by_id-IsValid user_id id s v = elim (Option-cases (find_id user_id id s)) [
  | inl e ↦ rw (e, remove_session_by_id) v
  | inr (token, e) ↦
      rw (e, remove_session_by_id)
        (record {
          unique = erase-Unique token s v.unique;
          keyed = erase-Entries Keyed token s v.keyed;
        })
]

touch-Keyed :
    (now user_id ttl : ℕ) (token : String) (sess : Session)
    → Keyed token sess
    → Keyed token (touch now user_id ttl sess)
unfolding touch
touch-Keyed now user_id ttl token sess h = ground arith

touch_mobile_sessions-IsValid :
    (now user_id ttl : ℕ) (s : Sessions)
    → IsValid s
    → IsValid (touch_mobile_sessions now user_id ttl s)
unfolding touch_mobile_sessions
touch_mobile_sessions-IsValid now user_id ttl s v = record {
  unique = map_values-Unique _ s v.unique;
  keyed = map_values-Entries Keyed _ s (touch-Keyed now user_id ttl) v.keyed;
}

-- Every call of the service keeps the table well formed.
pub step-IsValid : (s : Sessions) (c : Call) → IsValid s → IsValid (step s c)
unfolding step remove_session remove_user_sessions remove_mobile_sessions cleanup_expired_sessions
    remove_other_sessions_filter
step-IsValid s (creates sid now token l) v = create_session-IsValid sid now token l s v
step-IsValid s (replaces sid now old new l) v = replace_session-IsValid sid now old new l s v
step-IsValid s (updates now token) v = update_activity-IsValid now token s v
step-IsValid s (removes token) v = record {
  unique = erase-Unique token s v.unique;
  keyed = erase-Entries Keyed token s v.keyed;
}
step-IsValid s (removes_user user_id) v = record {
  unique = retain-Unique _ s v.unique;
  keyed = retain-Entries Keyed _ s v.keyed;
}
step-IsValid s (removes_id user_id id) v = remove_session_by_id-IsValid user_id id s v
step-IsValid s (removes_mobile user_id) v = record {
  unique = retain-Unique _ s v.unique;
  keyed = retain-Entries Keyed _ s v.keyed;
}
step-IsValid s (removes_others user_id keep) v = record {
  unique = retain-Unique _ s v.unique;
  keyed = retain-Entries Keyed _ s v.keyed;
}
step-IsValid s (touches now user_id ttl) v = touch_mobile_sessions-IsValid now user_id ttl s v
step-IsValid s (cleans now idle) v = record {
  unique = retain-Unique _ s v.unique;
  keyed = retain-Entries Keyed _ s v.keyed;
}

-- After any sequence of calls, failed ones among them, the table is well formed: no token stands
-- twice, and each session carries the token that it is filed under.
pub run-IsValid : (s : Sessions) (cs : List Call) → IsValid s → IsValid (run s cs)
unfolding run
run-IsValid s [] v = v
run-IsValid s (c ∷ cs) v = run-IsValid (step s c) cs (step-IsValid s c v)
