-- ===== src/ResumeCloud/RateLimit/Bound.antt =====
-- How many calls a client may have allowed in a stretch of time.
use soloscale_ai_os.Prelude.{
  ℕ, ◌+◌, ◌-◌, ◌*◌, ◌≤◌, ◌≡◌, ap, max, List, [], ◌∷◌, arith, if◌then◌else◌,
}
use soloscale_ai_os.ResumeCloud.Models.{RateLimit}
use soloscale_ai_os.ResumeCloud.RateLimit.{token, RatePolicy, available, spend}

-- the row after calls at the given instants, and how many of them were allowed
unfoldable pub spend_all : RatePolicy → RateLimit → List ℕ → RateLimit × ℕ
spend_all policy row [] = (row, 0)
spend_all policy row (now ∷ later) =
    let next = spend policy now row in
    let (last, count) = spend_all policy next later in
    (last, (if next.last_allowed then 1 else 0) + count)

elapsed : (a b r : ℕ) → (b - a) * r + a * r ≡ max a b * r
elapsed a b r =
    let whole : b - a + a ≡ max a b = omega arith in omega (arith, ap (λ (t : ℕ). t * r) whole)

-- A call adds at most the refill of the time that has passed, and takes a token if it is allowed.
spend-balance :
    (policy : RatePolicy) (now : ℕ) (row : RateLimit)
    → let next = spend policy now row in
      next.tokens
        + (if next.last_allowed then 1 else 0) * token
        + row.updated_at * policy.refill_per_second
      ≤ row.tokens + next.updated_at * policy.refill_per_second
unfolding spend available
spend-balance policy now row = ground (arith, elapsed row.updated_at now policy.refill_per_second)

spend_all-balance :
    (policy : RatePolicy) (row : RateLimit) (times : List ℕ)
    → let (last, count) = spend_all policy row times in
      last.tokens + count * token + row.updated_at * policy.refill_per_second
      ≤ row.tokens + last.updated_at * policy.refill_per_second
unfolding spend_all
spend_all-balance policy row [] = omega arith
spend_all-balance policy row (now ∷ later) =
    omega
      (arith, spend-balance policy now row, spend_all-balance policy (spend policy now row) later)

-- From a bucket that holds at most its capacity, whatever the instants of the calls, also where a
-- clock runs backwards: the calls that are allowed are at most the capacity and the refill of the
-- time between the first and the last instant that the row has recorded.
pub allowed-spend_all :
    (policy : RatePolicy) (row : RateLimit) (times : List ℕ)
    → row.tokens ≤ policy.capacity * token
    → let (last, count) = spend_all policy row times in
      count * token + row.updated_at * policy.refill_per_second
      ≤ policy.capacity * token + last.updated_at * policy.refill_per_second
allowed-spend_all policy row times full = omega (arith, spend_all-balance policy row times)
