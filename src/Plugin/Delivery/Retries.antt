-- ===== src/Plugin/Delivery/Retries.antt =====
-- Which attempt decides a delivery, and how long it waits before.
use easyserver.Base.{
  ℕ, zero, suc, ◌<◌, ◌≡◌, ◌≢◌, Bool, false, List, [], ◌∷◌, arith, nat_eq, string_eq, take,
}
use easyserver.Plugin.EventBus.{event_max_attempts}
use easyserver.Plugin.Delivery.{
  Answer, accepts, fails, panics, Verdict, delivered, gave_up, crashed, deliver_from, safe_deliver,
}

-- The first attempts fail, and the subscription stays open in the wait after each.
abbrev pub FailsUntil : (ℕ → Answer) → (ℕ → Bool) → ℕ → Type 0
FailsUntil h c zero = Unit
FailsUntil h c (suc n) = (h (suc n) ≡ fails) × (c (suc n) ≡ false) × FailsUntil h c n

abbrev pub ending : Answer → ℕ → Verdict
ending accepts n = delivered n
ending panics n = crashed n
ending fails n = gave_up n

abbrev pub all_waits : List ℕ
all_waits = 1 ∷ 4 ∷ 16 ∷ 64 ∷ []

-- The first attempt that does not fail decides, if it is among the first five: an acceptance
-- delivers the event, a panic ends its delivery, with no further attempt. The waits before are 1,
-- 4, 16 and 64 seconds.
pub safe_deliver_decided :
    (h : ℕ → Answer) (c : ℕ → Bool) (n : ℕ)
    → n < event_max_attempts
    → FailsUntil h c n
    → h (suc n) ≢ fails
    → safe_deliver h c ≡ (ending (h (suc n)) (suc n), take n all_waits)
unfolding safe_deliver deliver_from
safe_deliver_decided h c zero lt f d = ground (arith, f, d)
safe_deliver_decided h c (suc zero) lt f d = ground (arith, f, d)
safe_deliver_decided h c (suc (suc zero)) lt f d = ground (arith, f, d)
safe_deliver_decided h c (suc (suc (suc zero))) lt f d = ground (arith, f, d)
safe_deliver_decided h c (suc (suc (suc (suc zero)))) lt f d = ground (arith, f, d)
safe_deliver_decided h c (suc (suc (suc (suc (suc n))))) lt f d = absurd (omega (arith, lt))

-- Five attempts that fail give the event up, after 85 seconds of waiting; nothing is tried again.
pub safe_deliver_gave_up :
    (h : ℕ → Answer) (c : ℕ → Bool)
    → FailsUntil h c 4
    → h 5 ≡ fails
    → safe_deliver h c ≡ (gave_up 5, all_waits)
unfolding safe_deliver deliver_from
safe_deliver_gave_up h c f d = ground (arith, f, d)
