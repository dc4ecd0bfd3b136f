-- ===== src/ResumeCloud/RateLimit.antt =====
-- `_consume_rate_limit` of resume_cloud_repository.py: one token bucket per client. The source counts
-- tokens in double precision; here they are exact, in units of 10⁻¹² token, with the refill in
-- 10⁻⁶ token a second, so that a refill of r over n microseconds is r * n units.
pub mod Bound
pub mod Refill
pub mod Found
pub mod Refusal
pub mod Retry
use soloscale_ai_os.Prelude.{
  ℕ, ◌+◌, ◌-◌, ◌*◌, ◌/◌, ◌^◌, min, max, Bool, true, false, not, Option, none, some, List, [], ◌∷◌,
  ◌++◌, any, leb, String, str_eq, if◌then◌else◌,
}
use soloscale_ai_os.ResumeCloud.Models.{RateLimit}
use soloscale_ai_os.ResumeCloud.Table.{update_where}

-- one token
abbrev pub token : ℕ
token = 10 ^ 12

pub record RatePolicy : Type 0 where
  pub capacity : ℕ
  pub refill_per_second : ℕ

-- `available.tokens`: what the bucket holds at `now`
unfoldable pub available : RatePolicy → ℕ → RateLimit → ℕ
available policy now row =
    min (policy.capacity * token) (row.tokens + (now - row.updated_at) * policy.refill_per_second)

-- the SET list of the UPDATE
unfoldable pub spend : RatePolicy → ℕ → RateLimit → RateLimit
spend policy now row =
    let tokens = available policy now row in
    let allowed = leb token tokens in
    record row {
      tokens = tokens - (if allowed then token else 0);
      updated_at = max row.updated_at now;
      last_allowed = allowed;
    }

-- the INSERT … ON CONFLICT DO NOTHING
abbrev pub ensure : RatePolicy → ℕ → String → List RateLimit → List RateLimit
ensure policy now client_id rows =
    if any (λ row. str_eq row.client_id client_id) rows
    then rows
    else rows
      ++ record {
        client_id = client_id;
        tokens = policy.capacity * token;
        updated_at = now;
        last_allowed = false;
      }
        ∷ []

-- `max(0, (1 - tokens) / refill)`, in microseconds
abbrev pub retry_after : RatePolicy → RateLimit → ℕ
retry_after policy row = (token - row.tokens) / policy.refill_per_second

abbrev pub verdict : RatePolicy → Option RateLimit → Bool × ℕ
verdict policy none = (false, 0)
verdict policy (some row) = (row.last_allowed, retry_after policy row)

abbrev pub row_of : String → List RateLimit → Option RateLimit
row_of client_id [] = none
row_of client_id (row ∷ rows) =
    if str_eq row.client_id client_id then some row else row_of client_id rows

-- Whether the call is allowed, after how long to try again, and the table.
unfoldable pub consume_rate_limit :
    RatePolicy → ℕ → String → List RateLimit → (Bool × ℕ) × List RateLimit
unfolding spend available
consume_rate_limit policy now client_id rows =
    let after =
      update_where (λ row. str_eq row.client_id client_id) (spend policy now)
        (ensure policy now client_id rows) in
    (verdict policy (row_of client_id after), after)
