-- ===== src/Middleware/RateLimit/Credit.antt =====
-- The tokens of one address as a credit that grows with time, and what each call does to it.
use easyserver.Base.Map.{lookup, Unique, lookup-insert, insert-Unique, guarded}
use easyserver.Base.{
  ℕ, zero, suc, ◌+◌, ◌-◌, ◌*◌, ◌≤◌, ◌<◌, String, ◌≡◌, refl, ap, subst, inl, inr, Bool, ◌&&◌, Option,
  none, some, arith, leb, leb→le, if◌then◌else◌, Bool-cases, Option-cases, ◌==◌, nat_eq, string_eq,
}
use native.Mathlib.Nat.{mul-le-mul_right, mul_comm, suc-mul, add-mul, min-le_left}
use easyserver.Middleware.RateLimit.{
  IsScale, Visitor, RateLimiter, visit, is_allowed, is_recent, spend, refill,
}

-- What an address may still spend at a time, in units of 1/interval of a token.
abbrev pub credit : ℕ → ℕ → ℕ → Option Visitor → ℕ
credit rate interval now none = rate * interval
credit rate interval now (some v) = v.tokens * interval + (now - v.last_seen) * rate

abbrev pub SeenBy : ℕ → Option Visitor → Type 0
SeenBy now none = Unit
SeenBy now (some v) = v.last_seen ≤ now

abbrev pub one_if : Bool → ℕ
one_if b = if b then 1 else 0

pred_suc : (n : ℕ) → suc n - 1 ≡ n
pred_suc n = omega arith

pred_mul : (n k : ℕ) → 0 < n → k + (n - 1) * k ≡ n * k
pred_mul zero k p = absurd (omega arith)
pred_mul (suc n) k p = omega (arith, suc-mul n k, ap (λ m. m * k) (pred_suc n))

spend-credit :
    (rate interval now : ℕ) (v : Visitor)
    → one_if (spend v).1 * interval + credit rate interval now (some (spend v).0)
      ≤ credit rate interval now (some v)
spend-credit rate interval now v = grind (arith, pred_mul v.tokens interval)

credit-refill :
    (rate interval now added : ℕ) (v : Visitor)
    → added * interval ≤ (now - v.last_seen) * rate
    → credit rate interval now (some (refill now added rate v)) ≤ credit rate interval now (some v)
credit-refill rate interval now added v h =
    let less = mul-le-mul_right interval (min-le_left (v.tokens + added) rate) in
    ground (arith, less, h, add-mul v.tokens added interval)

visit-credit :
    (scale : ℕ → ℕ → ℕ → ℕ) (rate interval now : ℕ) (v : Visitor)
    → IsScale scale interval rate
    → 0 < rate
    → let (v', answer) = visit scale now rate interval v in
      one_if answer * interval + credit rate interval now (some v')
      ≤ credit rate interval now (some v)
unfolding visit
visit-credit scale rate interval now v s r =
    let elapsed = now - v.last_seen in
    elim (Bool-cases (leb interval elapsed)) [
      | inl due ↦
          let enough = mul-le-mul_right rate (leb→le interval elapsed due) in
          ground (arith, due, enough, pred_mul rate interval, mul_comm interval rate)
      | inr early ↦
          let v' = refill now (scale elapsed interval rate) rate v in
          rw early (
            omega (
              arith,
              spend-credit rate interval now v',
              credit-refill rate interval now (scale elapsed interval rate) v (s elapsed),
            ))
    ]

visit_seen :
    (scale : ℕ → ℕ → ℕ → ℕ) (rate interval now : ℕ) (v : Visitor)
    → v.last_seen ≤ now
    → (visit scale now rate interval v).0.last_seen ≤ now
unfolding visit
visit_seen scale rate interval now v h = ground arith

module _ (scale : ℕ → ℕ → ℕ → ℕ) (ip : String) where
  pub request_credit :
      (from : String) (now : ℕ) (rl : RateLimiter)
      → IsScale scale rl.interval rl.rate
      → 0 < rl.rate
      → let (rl', answer) = is_allowed scale now from rl in
        one_if ((from == ip) && answer) * rl.interval
          + credit rl.rate rl.interval now (lookup ip rl'.visitors)
        ≤ credit rl.rate rl.interval now (lookup ip rl.visitors)
  unfolding is_allowed
  request_credit from now rl s r = elim (Option-cases (lookup from rl.visitors)) [
    | inl e ↦
        let new : Visitor = record { last_seen = now; tokens = rl.rate - 1 } in
        let put = lookup-insert from ip new rl.visitors in
        elim (Bool-cases (from == ip)) [
          | inl same ↦
              let e' : lookup ip rl.visitors ≡ none =
                rw (← ((string_eq.test_iff from ip).0 same)) e in
              ground (arith, e, e', same, put, pred_mul rl.rate rl.interval r)
          | inr other ↦ ground (arith, e, other, put)
        ]
    | inr (v, e) ↦
        let next = visit-credit scale rl.rate rl.interval now v s r in
        let put = lookup-insert from ip (visit scale now rl.rate rl.interval v).0 rl.visitors in
        elim (Bool-cases (from == ip)) [
          | inl same ↦
              let e' : lookup ip rl.visitors ≡ some v =
                rw (← ((string_eq.test_iff from ip).0 same)) e in
              ground (arith, e, e', same, put, next)
          | inr other ↦ ground (arith, e, other, put)
        ]
  ]

  pub request_seen :
      (from : String) (now : ℕ) (rl : RateLimiter)
      → SeenBy now (lookup ip rl.visitors)
      → SeenBy now (lookup ip (is_allowed scale now from rl).0.visitors)
  unfolding is_allowed
  request_seen from now rl h = elim (Option-cases (lookup from rl.visitors)) [
    | inl e ↦
        let new : Visitor = record { last_seen = now; tokens = rl.rate - 1 } in
        let put = lookup-insert from ip new rl.visitors in
        elim (Bool-cases (from == ip)) [
          | inl same ↦ ground (arith, e, same, put)
          | inr other ↦ rw (e, is_allowed, put, other) h
        ]
    | inr (v, e) ↦
        let put = lookup-insert from ip (visit scale now rl.rate rl.interval v).0 rl.visitors in
        elim (Bool-cases (from == ip)) [
          | inl same ↦
              let e' : lookup ip rl.visitors ≡ some v =
                rw (← ((string_eq.test_iff from ip).0 same)) e in
              rw (e, is_allowed, put, same)
                (visit_seen scale rl.rate rl.interval now v (subst (SeenBy now) e' h))
          | inr other ↦ rw (e, is_allowed, put, other) h
        ]
  ]

  pub request-Unique :
      (from : String) (now : ℕ) (rl : RateLimiter)
      → Unique rl.visitors
      → Unique (is_allowed scale now from rl).0.visitors
  unfolding is_allowed
  request-Unique from now rl u = elim (Option-cases (lookup from rl.visitors)) [
    | inl e ↦ rw (e, is_allowed) (insert-Unique from _ rl.visitors u)
    | inr (v, e) ↦ rw (e, is_allowed) (insert-Unique from _ rl.visitors u)
  ]

  pub request_config :
      (from : String) (now : ℕ) (rl : RateLimiter)
      → ((is_allowed scale now from rl).0.rate ≡ rl.rate)
        × ((is_allowed scale now from rl).0.interval ≡ rl.interval)
  unfolding is_allowed
  request_config from now rl = elim (Option-cases (lookup from rl.visitors)) [
    | inl e ↦ rw (e, is_allowed) (refl, refl)
    | inr (v, e) ↦ rw (e, is_allowed) (refl, refl)
  ]

pub later_credit :
    (rate interval now later : ℕ) (o : Option Visitor)
    → now ≤ later
    → SeenBy now o
    → credit rate interval later o ≤ credit rate interval now o + (later - now) * rate
later_credit rate interval now later none h s = omega arith
later_credit rate interval now later (some v) h s =
    let split : later - v.last_seen ≡ (later - now) + (now - v.last_seen) = omega (arith, h, s) in
    rw split (omega (arith, add-mul (later - now) (now - v.last_seen) rate))

pub sweep_credit :
    (rate interval now max_age : ℕ) (o : Option Visitor)
    → interval ≤ max_age
    → credit rate interval now (guarded (is_recent now max_age) o) ≤ credit rate interval now o
sweep_credit rate interval now max_age none h = omega arith
sweep_credit rate interval now max_age (some v) h = elim (Bool-cases (is_recent now max_age v)) [
  | inl stays ↦ ground (arith, stays)
  | inr goes ↦
      let old : interval ≤ now - v.last_seen = ground (arith, goes, h) in
      ground (arith, goes, mul-le-mul_right rate old, mul_comm interval rate)
]

pub sweep_seen :
    (now max_age : ℕ) (o : Option Visitor)
    → SeenBy now o
    → SeenBy now (guarded (is_recent now max_age) o)
sweep_seen now max_age none h = tt
sweep_seen now max_age (some v) h = elim (Bool-cases (is_recent now max_age v)) [
  | inl stays ↦ rw stays h
  | inr goes ↦ rw goes tt
]

pub later_seen : (now later : ℕ) (o : Option Visitor) → now ≤ later → SeenBy now o → SeenBy later o
later_seen now later none h s = tt
later_seen now later (some v) h s = omega (arith, h, s)
