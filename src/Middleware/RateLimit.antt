-- ===== src/Middleware/RateLimit.antt =====
-- internal/httpx/middleware/ratelimit.go: the token bucket kept for each address. The clock is an
-- argument, in nanoseconds. `scale e i r` stands for the floating-point expression
-- `int(float64(e) / float64(i) * float64(r))`, of which the code relies on what `IsScale` says.
pub mod Bound
mod Examples
pub mod Credit
use easyserver.Base.Map.{Map, lookup, insert, erase, retain}
use easyserver.Base.{
  ℕ, ◌+◌, ◌-◌, ◌*◌, ◌≤◌, min, String, Bool, true, false, not, none, some, [], ltb, leb,
  if◌then◌else◌, nat_eq, string_eq,
}

-- The share of `r` tokens that falls due in a part of an interval `i` is not rounded up. Floats keep
-- this while `i * r` stays below 2^51.
abbrev pub IsScale : (ℕ → ℕ → ℕ → ℕ) → ℕ → ℕ → Type 0
IsScale scale i r = (e : ℕ) → scale e i r * i ≤ e * r

pub record Visitor : Type 0 where
  pub last_seen : ℕ
  pub tokens : ℕ

pub record RateLimiter : Type 0 where
  pub visitors : Map String Visitor
  pub rate : ℕ
  pub interval : ℕ

unfoldable pub new_rate_limiter : ℕ → ℕ → RateLimiter
new_rate_limiter rate interval = record { visitors = []; rate = rate; interval = interval }

-- `if v.tokens > 0 { v.tokens--; return true }`, `return false`.
abbrev pub spend : Visitor → Visitor × Bool
spend v = if ltb 0 v.tokens then (record v { tokens = v.tokens - 1 }, true) else (v, false)

-- Tokens that fell due, up to the rate; `last_seen` moves only when there are some.
abbrev pub refill : ℕ → ℕ → ℕ → Visitor → Visitor
refill now added rate v =
    if ltb 0 added then record { last_seen = now; tokens = min (v.tokens + added) rate } else v

module _ (scale : ℕ → ℕ → ℕ → ℕ) where
  -- A request of an address that is known. A clock that has gone back gives a negative elapsed
  -- time, which refills nothing, as 0 does.
  unfoldable pub visit : ℕ → ℕ → ℕ → Visitor → Visitor × Bool
  visit now rate interval v =
      let elapsed = now - v.last_seen in
      if leb interval elapsed
      then (record { last_seen = now; tokens = rate - 1 }, true)
      else spend (refill now (scale elapsed interval rate) rate v)

  unfoldable pub is_allowed : ℕ → String → RateLimiter → RateLimiter × Bool
  unfolding visit
  is_allowed now ip rl = elim (lookup ip rl.visitors) [
    | none ↦ (
      record rl {
        visitors = insert ip (record { last_seen = now; tokens = rl.rate - 1 }) rl.visitors;
      },
      true,
    )
    | some v ↦
        let (v', answer) = visit now rl.rate rl.interval v in
        (record rl { visitors = insert ip v' rl.visitors }, answer)
  ]

unfoldable pub reset : String → RateLimiter → RateLimiter
reset ip rl = record rl { visitors = erase ip rl.visitors }

unfoldable pub reset_all : RateLimiter → RateLimiter
reset_all rl = record rl { visitors = [] }

unfoldable pub update_rate : ℕ → ℕ → RateLimiter → RateLimiter
update_rate rate interval rl = record rl { rate = rate; interval = interval }

abbrev pub is_recent : ℕ → ℕ → Visitor → Bool
is_recent now max_age v = not (ltb max_age (now - v.last_seen))

unfoldable pub cleanup : ℕ → ℕ → RateLimiter → RateLimiter
cleanup now max_age rl = record rl {
  visitors = retain (λ _ v. is_recent now max_age v) rl.visitors;
}
