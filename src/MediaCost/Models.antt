-- ===== src/MediaCost/Models.antt =====
-- The enums and models of media_cost.py, with their validators.
use soloscale_ai_os.Prelude.{
  ℕ, ◌^◌, Bool, true, false, ◌&&◌, ◌||◌, Option, none, some, List, [], ◌∷◌, ◌==◌, leb, ltb, length,
  all, is_none, is_some, String, Result, ok, err, if◌then◌else◌,
}
use soloscale_ai_os.Prelude.Text.{Text, codes, between}

pub data PricingStatus : Type 0 where
  known estimated unknown not_billable : PricingStatus

pub data BillingUnit : Type 0 where
  input_token output_token token request second minute credit unit : BillingUnit

pub data CostReceiptStatus : Type 0 where
  estimated succeeded failed cancelled : CostReceiptStatus

pub data BudgetGuardDecision : Type 0 where
  allow warn block unknown_cost : BudgetGuardDecision

pub data MediaCostError : Type 0 where
  validation_error other_operation other_request : MediaCostError
  budget_blocked : BudgetGuardDecision → MediaCostError

abbrev pub unit_place : BillingUnit → ℕ
unit_place BillingUnit.input_token = 0
unit_place BillingUnit.output_token = 1
unit_place BillingUnit.token = 2
unit_place BillingUnit.request = 3
unit_place BillingUnit.second = 4
unit_place BillingUnit.minute = 5
unit_place BillingUnit.credit = 6
unit_place BillingUnit.unit = 7

abbrev pub unit_eq : BillingUnit → BillingUnit → Bool
unit_eq a b = unit_place a == unit_place b

-- one whole unit of a quantity
abbrev pub one : ℕ
one = 10 ^ 9

-- min_length and max_length of a field
abbrev pub fits : ℕ → ℕ → Text → Bool
fits least most s = leb least (length s) && leb (length s) most

abbrev pub name_fits : ℕ → String → Bool
name_fits most s = fits 1 most (codes s)

abbrev pub option_fits : ℕ → Option String → Bool
option_fits most none = true
option_fits most (some s) = name_fits most s

abbrev is_alphanumeric : ℕ → Bool
is_alphanumeric c = between 48 57 c || between 65 90 c || between 97 122 c

-- [A-Za-z0-9._:/-]
abbrev is_id_char : ℕ → Bool
is_id_char c = is_alphanumeric c || between 45 47 c || c == 58 || c == 95

-- `_SAFE_ID.fullmatch(value) is not None`
unfoldable pub is_safe_id : Text → Bool
is_safe_id [] = false
is_safe_id (c ∷ s) = is_alphanumeric c && all is_id_char s && leb (length s) 239

pub record PricingRate : Type 0 where
  pub provider : String
  pub service : String
  pub model : Option String
  pub billing_unit : BillingUnit
  pub usd_per_unit : ℕ
  pub pricing_status : PricingStatus
  pub effective_date : ℕ
  pub source : Text

-- the lengths of the fields, the statuses that a rate may have, and `validate_rate`
unfoldable pub validate_rate : PricingRate → Bool
validate_rate rate =
    name_fits 120 rate.provider
    && name_fits 120 rate.service
    && option_fits 240 rate.model
    && fits 1 500 rate.source
    && elim rate.pricing_status [
      | PricingStatus.unknown ↦ false
      | PricingStatus.not_billable ↦ rate.usd_per_unit == 0
      | _ ↦ true
    ]
    && is_safe_id (codes rate.provider)
    && is_safe_id (codes rate.service)

pub record CostEstimate : Type 0 where
  pub feature : String
  pub operation : String
  pub provider : String
  pub service : String
  pub model : Option String
  pub billing_unit : BillingUnit
  pub billable_quantity : ℕ
  pub input_tokens : Option ℕ
  pub output_tokens : Option ℕ
  pub audio_seconds : Option ℕ
  pub video_seconds : Option ℕ
  pub provider_credits : Option ℕ
  pub request_count : ℕ
  pub pricing_status : PricingStatus
  pub price_source : Text
  pub estimated_cost_usd : Option ℕ

abbrev names_safe : CostEstimate → Bool
names_safe e =
    is_safe_id (codes e.feature)
    && is_safe_id (codes e.operation)
    && is_safe_id (codes e.provider)
    && is_safe_id (codes e.service)

-- what each status says of the cost
unfoldable pub price_agrees : PricingStatus → Option ℕ → Bool
price_agrees PricingStatus.unknown cost = is_none cost
price_agrees PricingStatus.not_billable none = false
price_agrees PricingStatus.not_billable (some cost) = cost == 0
price_agrees _ cost = is_some cost

-- the lengths of the fields, and `validate_pricing_semantics`
unfoldable pub validate_pricing_semantics : CostEstimate → Bool
validate_pricing_semantics e =
    name_fits 120 e.feature
    && name_fits 160 e.operation
    && name_fits 120 e.provider
    && name_fits 120 e.service
    && option_fits 240 e.model
    && fits 1 1000 e.price_source
    && names_safe e
    && price_agrees e.pricing_status e.estimated_cost_usd

-- `CostEstimate(...)`
abbrev pub make_estimate : CostEstimate → Result MediaCostError CostEstimate
make_estimate e = if validate_pricing_semantics e then ok e else err validation_error

-- A receipt; `estimate` holds the fields that it has in common with an estimate.
pub record CostReceipt : Type 0 where
  pub receipt_id : String
  pub run_id : String
  pub story_id : Option String
  pub video_run_id : Option String
  pub estimate : CostEstimate
  pub actual_cost_usd : Option ℕ
  pub started_at : ℕ
  pub finished_at : Option ℕ
  pub duration_ms : Option ℕ
  pub status : CostReceiptStatus
  pub provider_request_id : Option String

abbrev pub is_estimate_only : CostReceiptStatus → Bool
is_estimate_only CostReceiptStatus.estimated = true
is_estimate_only _ = false

-- the lengths of the fields, and `validate_receipt`
unfoldable pub validate_receipt : CostReceipt → Bool
validate_receipt r =
    name_fits 160 r.run_id
    && option_fits 160 r.story_id
    && option_fits 160 r.video_run_id
    && option_fits 240 r.provider_request_id
    && validate_pricing_semantics r.estimate
    && elim r.finished_at [ none ↦ is_estimate_only r.status | some t ↦ leb r.started_at t ]

pub record BudgetPolicy : Type 0 where
  pub per_paid_operation_usd : Option ℕ
  pub per_story_usd : Option ℕ
  pub per_video_usd : Option ℕ
  pub daily_usd : Option ℕ
  pub monthly_usd : Option ℕ
  pub warning_ratio : ℕ

-- 0 < warning_ratio ≤ 1
unfoldable pub validate_policy : BudgetPolicy → Bool
validate_policy p = ltb 0 p.warning_ratio && leb p.warning_ratio one

pub record SpendSnapshot : Type 0 where
  pub story_usd : ℕ
  pub video_usd : ℕ
  pub daily_usd : ℕ
  pub monthly_usd : ℕ

pub record BudgetEvaluation : Type 0 where
  pub decision : BudgetGuardDecision
  pub estimated_cost_usd : Option ℕ
  pub limiting_scope : Option String
  pub budget_usd : Option ℕ
  pub current_spend_usd : Option ℕ
  pub projected_spend_usd : Option ℕ
  pub exceeded_by_usd : Option ℕ

pub record PaidOperationAuthorization : Type 0 where
  pub operation : String
  pub subject_sha256 : String
  pub estimate_sha256 : String
  pub decision : BudgetGuardDecision
  pub override_once : Bool
  pub granted_at : ℕ

pub record CostSummary : Type 0 where
  pub estimated_spend_usd : ℕ
  pub actual_spend_usd : ℕ
  pub unknown_cost_receipts : ℕ
  pub receipt_count : ℕ
  pub by_service_estimated_usd : List (String × ℕ)
