-- ===== src/ResumeCloud/RateLimit/Refill.antt =====
-- When a bucket without a whole token has one again.
use native.Mathlib.Nat.{div-lt_iff_lt-mul, le-div_iff_mul-le}
use soloscale_ai_os.Prelude.{ℕ, ◌+◌, ◌-◌, ◌*◌, ◌/◌, ◌≤◌, ◌<◌, ◌≡◌, ap, ◌∙◌, arith}
use soloscale_ai_os.ResumeCloud.Models.{RateLimit}
use soloscale_ai_os.ResumeCloud.RateLimit.{token, RatePolicy, available}

split_time : (u n l r : ℕ) → u ≤ n → n ≤ l → (l - u) * r ≡ (n - u) * r + (l - n) * r
split_time u n l r p q =
    let whole : l - u ≡ (n - u) + (l - n) = omega arith in ap (λ (t : ℕ). t * r) whole ∙ omega arith

-- A bucket that has no whole token at `now` has one when the missing part has been refilled.
pub waited :
    (policy : RatePolicy) (now later : ℕ) (row : RateLimit)
    → row.updated_at ≤ now
    → 1 ≤ policy.capacity
    → 0 < policy.refill_per_second
    → available policy now row < token
    → now + (token - available policy now row) / policy.refill_per_second < later
    → token ≤ available policy later row
unfolding available
waited policy now later row past some_capacity refills short long =
    let missing = token - available policy now row in
    let refilled : missing < (later - now) * policy.refill_per_second =
      (div-lt_iff_lt-mul refills).0 (omega arith) in
    let whole = split_time row.updated_at now later policy.refill_per_second past (omega arith) in
    ground (arith, refilled, whole)

-- It has none as long as a microsecond's refill is missing.
pub early :
    (policy : RatePolicy) (now later : ℕ) (row : RateLimit)
    → row.updated_at ≤ now
    → 1 ≤ policy.capacity
    → 0 < policy.refill_per_second
    → available policy now row < token
    → now ≤ later
    → later < now + (token - available policy now row) / policy.refill_per_second
    → available policy later row < token
unfolding available
early policy now later row past some_capacity refills short on soon =
    let missing = token - available policy now row in
    let unfilled : (later - now + 1) * policy.refill_per_second ≤ missing =
      (le-div_iff_mul-le refills).0 (omega arith) in
    let whole = split_time row.updated_at now later policy.refill_per_second past on in
    let spread : (later - now + 1) * policy.refill_per_second
        ≡ (later - now) * policy.refill_per_second + policy.refill_per_second =
      omega arith in
    ground (arith, unfilled, whole, spread)
