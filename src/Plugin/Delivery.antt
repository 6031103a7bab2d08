-- ===== src/Plugin/Delivery.antt =====
-- `safeDeliver` and `deliverWithRetry` of internal/plugin/events.go: the delivery of one event to
-- one subscriber. `h n` is the handler's answer to attempt n, `c n` whether the subscription is
-- closed in the wait after it; the waits are in seconds.
pub mod Retries
mod Examples
use easyserver.Base.{
  ℕ, zero, suc, ◌+◌, ◌-◌, ◌*◌, ◌/◌, ◌%◌, ◌≤◌, ◌<◌, min, String, ◌≡◌, refl, sym, ap, ◌∙◌, subst, ◌≢◌,
  ◌↔◌, ◌⊎◌, inl, inr, Bool, true, false, not, ◌&&◌, ◌||◌, Option, none, some, List, [], ◌∷◌, ◌++◌,
  map, arith, ltb, leb, leb→le, if◌then◌else◌, Bool-cases, Option-cases, Eq, ◌==◌, nat_eq,
  string_eq, nat_test, nat_test_iff, ℤ, pos, negsuc, length, take, drop, keep, All, length-append,
  length-drop, Result, ok, err, ◌>>=◌, Kind, AppError, new_sentinel, plain_error, bad_request,
  unauthorized, forbidden, not_found, conflict, rate_limit, internal,
}
use easyserver.Plugin.EventBus.{event_max_attempts}

pub data Answer : Type 0 where
  accepts fails panics : Answer

-- How a delivery ends, with the last attempt: accepted; given up; stopped by the closing of the
-- subscription; ended by a panic, which is recovered outside the loop.
pub data Verdict : Type 0 where
  delivered gave_up stopped crashed : ℕ → Verdict

-- The loop from an attempt on, with the rounds it has left and the next delay.
unfoldable pub deliver_from : (ℕ → Answer) → (ℕ → Bool) → ℕ → ℕ → ℕ → Verdict × List ℕ
deliver_from h c zero n delay = (gave_up n, [])
deliver_from h c (suc left) n delay = elim (h n) [
  | accepts ↦ (delivered n, [])
  | panics ↦ (crashed n, [])
  | fails ↦
      let rest = deliver_from h c left (n + 1) (delay * 4) in
      if nat_test n event_max_attempts
      then (gave_up n, [])
      else if c n
      then (stopped n, [])
      else (rest.0, delay ∷ rest.1)
]

unfoldable pub safe_deliver : (ℕ → Answer) → (ℕ → Bool) → Verdict × List ℕ
unfolding deliver_from
safe_deliver h c = deliver_from h c event_max_attempts 1 1
