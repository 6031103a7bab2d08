-- ===== src/Middleware/RateLimit/Bound.antt =====
-- How many requests of one address a limiter lets through, over any trace of requests and sweeps.
use easyserver.Base.Map.{lookup, Unique, lookup-retain, retain-Unique, guarded}
use easyserver.Base.{
  ℕ, suc, ◌+◌, ◌-◌, ◌*◌, ◌≤◌, ◌<◌, String, ◌≡◌, sym, ◌&&◌, none, List, [], ◌∷◌, arith,
  if◌then◌else◌, ◌==◌, nat_eq, string_eq,
}
use native.Mathlib.Nat.{suc-mul, add-mul}
use easyserver.Middleware.RateLimit.{IsScale, RateLimiter, is_allowed, is_recent, cleanup}
use easyserver.Middleware.RateLimit.Credit.{
  credit, SeenBy, request_credit, request_seen, request_config, request-Unique, later_credit,
  later_seen, sweep_credit, sweep_seen,
}

-- A request of an address, or a sweep that drops the visitors not seen for some time.
pub data Event : Type 0 where
  request : ℕ → String → Event
  sweep : ℕ → ℕ → Event

-- The times do not go back from `now`, end by `end`, and no sweep drops a visitor that the interval
-- would not have refilled.
abbrev pub IsTrace : ℕ → ℕ → ℕ → List Event → Type 0
IsTrace interval now end [] = now ≤ end
IsTrace interval now end (request t ip ∷ es) = (now ≤ t) × IsTrace interval t end es
IsTrace interval now end (sweep t max_age ∷ es) =
    (now ≤ t) × (interval ≤ max_age) × IsTrace interval t end es

-- The requests of the address that a trace lets through, and the limiter after the trace.
unfoldable pub passed : (ℕ → ℕ → ℕ → ℕ) → String → List Event → RateLimiter → ℕ × RateLimiter
passed scale ip [] rl = (0, rl)
passed scale ip (request now from ∷ es) rl =
    let (rl', answer) = is_allowed scale now from rl in
    let (n, last) = passed scale ip es rl' in ((if (from == ip) && answer then suc n else n), last)
passed scale ip (sweep now max_age ∷ es) rl = passed scale ip es (cleanup now max_age rl)

trace_le : (interval now end : ℕ) (es : List Event) → IsTrace interval now end es → now ≤ end
trace_le interval now end [] t = t
trace_le interval now end (request later ip ∷ es) t =
    omega (arith, t.0, trace_le interval later end es t.1)
trace_le interval now end (sweep later max_age ∷ es) t =
    omega (arith, t.0, trace_le interval later end es t.2)

add_spans : (a b c rate : ℕ) → a ≤ b → b ≤ c → (b - a) * rate + (c - b) * rate ≡ (c - a) * rate
add_spans a b c rate h k =
    let whole : c - a ≡ (b - a) + (c - b) = omega (arith, h, k) in
    rw whole (sym (add-mul (b - a) (c - b) rate))

module _ (scale : ℕ → ℕ → ℕ → ℕ) (ip : String) where
  passed_le :
      (start end : ℕ) (es : List Event) (rl : RateLimiter)
      → IsScale scale rl.interval rl.rate
      → 0 < rl.rate
      → Unique rl.visitors
      → SeenBy start (lookup ip rl.visitors)
      → IsTrace rl.interval start end es
      → (passed scale ip es rl).0 * rl.interval
        ≤ credit rl.rate rl.interval start (lookup ip rl.visitors) + (end - start) * rl.rate
  unfolding passed cleanup
  passed_le start end [] rl good r u s t = omega arith
  passed_le start end (request now from ∷ es) rl good r u s t =
      let o = lookup ip rl.visitors in
      let rl' = (is_allowed scale now from rl).0 in
      let config = request_config scale ip from now rl in
      let s' = later_seen start now o t.0 s in
      let rest =
        passed_le now end es rl' (rw (config.0, config.1) good) (rw config.0 r)
          (request-Unique scale ip from now rl u) (request_seen scale ip from now rl s')
          (rw config.1 t.1) in
      let step = request_credit scale ip from now rl good r in
      let wait = later_credit rl.rate rl.interval start now o t.0 s in
      let span =
        add_spans start now end rl.rate t.0 (trace_le rl'.interval now end es (rw config.1 t.1)) in
      let once = suc-mul (passed scale ip es rl').0 rl.interval in
      let rest' = rw (config.0, config.1) at rest in ground (arith, step, wait, span, once, rest')
  passed_le start end (sweep now max_age ∷ es) rl good r u s t =
      let o = lookup ip rl.visitors in
      let o' = lookup-retain (λ _ v. is_recent now max_age v) ip rl.visitors u in
      let s' = later_seen start now o t.0 s in
      let rest =
        passed_le now end es (cleanup now max_age rl) good r
          (retain-Unique (λ _ v. is_recent now max_age v) rl.visitors u)
          (rw o' (sweep_seen now max_age o s')) t.2 in
      let step = sweep_credit rl.rate rl.interval now max_age o t.1 in
      let wait = later_credit rl.rate rl.interval start now o t.0 s in
      let span = add_spans start now end rl.rate t.0 (trace_le rl.interval now end es t.2) in
      let rest' : (passed scale ip es (cleanup now max_age rl)).0 * rl.interval
          ≤ credit rl.rate rl.interval now (guarded (is_recent now max_age) o)
            + (end - now) * rl.rate =
        rw (← o') rest in
      omega (arith, rest', step, wait, span)

  -- Of an address that the limiter does not know at `start`, the requests let through by `end` are
  -- at most the rate for each interval that has passed, and the rate once more: whatever other
  -- addresses send, if the rate is at least 1, its share of tokens is never rounded up, the clock
  -- does not go back, and a sweep spares the visitors seen within the interval.
  pub passed_bounded :
      (start end : ℕ) (es : List Event) (rl : RateLimiter)
      → IsScale scale rl.interval rl.rate
      → 0 < rl.rate
      → Unique rl.visitors
      → lookup ip rl.visitors ≡ none
      → IsTrace rl.interval start end es
      → (passed scale ip es rl).0 * rl.interval ≤ rl.rate * rl.interval + (end - start) * rl.rate
  passed_bounded start end es rl good r u new t =
      let h = passed_le start end es rl good r u (rw new tt) t in ground (arith, h, new)
