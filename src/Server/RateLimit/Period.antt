-- ===== src/Server/RateLimit/Period.antt =====
-- crates/eiger-server/src/main.rs: `rate_limit_period`.
use eiger.Common.{◌≡◌, ℕ, zero, suc, ◌*◌, ◌+◌, ◌/◌, ◌%◌, ◌≤◌, ◌<◌, ltb, arith, refl, false}
use eiger.Server.RateLimit.{rate_limit_period}

quotient_positive :
    (q r rate : ℕ) → rate * q + r ≡ 1_000_000_000 → r < rate → rate ≤ 1_000_000_000 → 0 < q
quotient_positive zero r rate e h small = omega arith
quotient_positive (suc q) r rate e h small = omega arith

rate_limit_period_lem :
    (rate : ℕ) → 0 < rate → rate ≤ 1_000_000_000 → rate_limit_period rate ≡ 1_000_000_000 / rate
unfolding rate_limit_period
rate_limit_period_lem rate positive small =
    let q = 1_000_000_000 / rate in
    let r = 1_000_000_000 % rate in
    let whole : rate * q + r ≡ 1_000_000_000 = omega arith in
    let below : r < rate = omega arith in
    let there : 0 < q = quotient_positive q r rate whole below small in
    let big : ltb q 1 ≡ false = ground arith in rw big refl

-- For a rate of at least 1 and at most one per nanosecond, the period is not 0, and as many periods as
-- the rate fill a second but for less than a nanosecond each.
pub rate_limit_period-fills :
    (rate : ℕ)
    → 0 < rate
    → rate ≤ 1_000_000_000
    → (0 < rate_limit_period rate)
      × (rate_limit_period rate * rate ≤ 1_000_000_000)
      × (1_000_000_000 < rate_limit_period rate * rate + rate)
rate_limit_period-fills rate positive small =
    let q = 1_000_000_000 / rate in
    let r = 1_000_000_000 % rate in
    let whole : rate * q + r ≡ 1_000_000_000 = omega arith in
    let below : r < rate = omega arith in
    let there : 0 < q = quotient_positive q r rate whole below small in
    rw (rate_limit_period_lem rate positive small)
      (there, omega (arith, whole), omega (arith, whole, below))
