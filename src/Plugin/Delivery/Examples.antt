-- ===== src/Plugin/Delivery/Examples.antt =====
-- Tests of a delivery.
use easyserver.Base.{ℕ, ◌≡◌, refl, Bool, false, nat_eq, string_eq}
use easyserver.Plugin.Delivery.{panics, crashed, deliver_from, safe_deliver}

abbrev stays_open : ℕ → Bool
stays_open n = false

panic_is_final : (safe_deliver (λ n. panics) stays_open).0 ≡ crashed 1
unfolding safe_deliver deliver_from
panic_is_final = refl
