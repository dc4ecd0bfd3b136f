-- ===== src/MediaCost/Tests.antt =====
-- Runs of the cost guard at concrete inputs, and the theorems applied there.
use soloscale_ai_os.Prelude.{
  ℕ, ◌*◌, ◌≡◌, ◌≢◌, ◌⊎◌, refl, true, false, ◌&&◌, Option, none, some, List, [], ◌∷◌, length,
  filter_by, String, str_eq, ok, is_ok,
}
use soloscale_ai_os.Prelude.Text.{codes}
use soloscale_ai_os.MediaCost.Models.{
  PricingStatus, BillingUnit, BudgetGuardDecision, CostReceiptStatus, PricingRate, CostEstimate,
  CostReceipt, BudgetPolicy, SpendSnapshot, PaidOperationAuthorization, validate_pricing_semantics,
  price_agrees, is_safe_id, one,
}
use soloscale_ai_os.MediaCost.Pricing.{RateQuery, rate_for, default_pricing_catalog}
use soloscale_ai_os.MediaCost.Budget.{checks, run_checks, amount_of, evaluate_budget}
use soloscale_ai_os.MediaCost.Budget.Limits.{
  IsWithinLimits, may_proceed, evaluate_budget_lem, proceeds-IsWithin,
}
use soloscale_ai_os.MediaCost.Budget.Loop.{decide}
use soloscale_ai_os.MediaCost.Authorization.{
  decide_once, authorize_paid_operation, validate_paid_authorization, authorized-IsWithin,
  validate-authorize,
}
use soloscale_ai_os.MediaCost.Estimates.{
  ModelProviderId, ModelCallProfile, model_price, usage_price, token_price, estimate_model_call,
  model_estimate,
}
use soloscale_ai_os.MediaCost.Estimates.Prices.{IsPriced, estimate_model_call_lem}
use soloscale_ai_os.MediaCost.Estimates.Returns.{
  estimate_model_call-returns, default_catalog-unknown,
}
use soloscale_ai_os.MediaCost.Receipts.{get, estimated_value, aggregate_costs}
use soloscale_ai_os.MediaCost.Receipts.Sums.{
  or_nothing, says_unknown, sum_of, total, of_service, aggregate_costs_lem, get-aggregate_costs,
}

abbrev rate : BillingUnit → Option String → PricingRate
rate billing_unit model = record {
  provider = "deepseek";
  service = "llm";
  model = model;
  billing_unit = billing_unit;
  usd_per_unit = 2;
  pricing_status = PricingStatus.known;
  effective_date = 0;
  source = codes "list";
}

abbrev catalog : List PricingRate
catalog =
    rate BillingUnit.input_token none
    ∷ rate BillingUnit.input_token (some "chat")
    ∷ rate BillingUnit.output_token none
    ∷ []

abbrev input_query : RateQuery
input_query = record {
  provider = "deepseek";
  service = "llm";
  model = some "chat";
  billing_unit = BillingUnit.input_token;
}

found_exact : rate_for catalog input_query ≡ some (rate BillingUnit.input_token (some "chat"))
unfolding rate_for
found_exact = refl

abbrev call : ModelProviderId → ModelCallProfile
call provider = record {
  provider = provider;
  model = "chat";
  prompt_eval_tokens = some 10;
  output_tokens = some 5;
}

abbrev priced : CostEstimate
priced = model_estimate (call ModelProviderId.deepseek) "resume" "resume.rewrite" (record {
  pricing_status = PricingStatus.known;
  price_source = codes "list;list";
  estimated_cost_usd = some (30 * one);
})

estimated :
    estimate_model_call (call ModelProviderId.deepseek) catalog "resume" "resume.rewrite"
    ≡ ok priced
unfolding estimate_model_call validate_pricing_semantics model_price usage_price token_price
    rate_for is_safe_id price_agrees
estimated = refl

estimate_model_call_lem_example :
    (validate_pricing_semantics priced ≡ true)
    × (((ModelProviderId.deepseek ≡ ModelProviderId.ollama) × (30 * one ≡ 0))
        ⊎ IsPriced catalog (call ModelProviderId.deepseek) (30 * one))
estimate_model_call_lem_example =
    estimate_model_call_lem (call ModelProviderId.deepseek) catalog "resume" "resume.rewrite" priced
      (30 * one) estimated refl

resume_safe : is_safe_id (codes "resume") ≡ true
unfolding is_safe_id
resume_safe = refl

estimate_model_call-returns_example :
    (e : CostEstimate) × (estimate_model_call
        (call ModelProviderId.deepseek)
        catalog
        "resume"
        "resume"
      ≡ ok e)
estimate_model_call-returns_example =
    estimate_model_call-returns (call ModelProviderId.deepseek) catalog "resume" "resume" refl refl
      resume_safe resume_safe

abbrev unpriced : CostEstimate
unpriced = model_estimate (call ModelProviderId.deepseek) "resume" "resume.rewrite" (record {
  pricing_status = PricingStatus.unknown;
  price_source = codes "pricing-catalog-miss";
  estimated_cost_usd = none;
})

default_estimated :
    estimate_model_call
      (call ModelProviderId.deepseek)
      (default_pricing_catalog 0)
      "resume"
      "resume.rewrite"
    ≡ ok unpriced
unfolding estimate_model_call validate_pricing_semantics model_price usage_price token_price
    rate_for is_safe_id price_agrees default_pricing_catalog
default_estimated = refl

not_ollama : ModelProviderId.deepseek ≢ ModelProviderId.ollama
not_ollama e = cc e

default_catalog-unknown_example :
    (unpriced.pricing_status ≡ PricingStatus.unknown) × (unpriced.estimated_cost_usd ≡ none)
default_catalog-unknown_example =
    default_catalog-unknown 0 (call ModelProviderId.deepseek) "resume" "resume.rewrite" unpriced
      not_ollama default_estimated

abbrev policy : BudgetPolicy
policy = record {
  per_paid_operation_usd = some (100 * one);
  per_story_usd = none;
  per_video_usd = none;
  daily_usd = some (50 * one);
  monthly_usd = none;
  warning_ratio = 800000000;
}

abbrev spent : ℕ → Option SpendSnapshot
spent daily = some (record { story_usd = 0; video_usd = 0; daily_usd = daily; monthly_usd = 0 })

-- 10 of 50 spent: the call comes to 40, the warning range; 30 spent: it goes over the daily limit.
warned_at : (evaluate_budget priced policy (spent (10 * one))).decision ≡ BudgetGuardDecision.warn
unfolding evaluate_budget checks run_checks
warned_at = refl

blocked_at : (evaluate_budget priced policy (spent (30 * one))).limiting_scope ≡ some "daily"
unfolding evaluate_budget checks run_checks
blocked_at = refl

evaluate_budget_lem_example :
    evaluate_budget priced policy (spent (30 * one))
    ≡ decide policy.warning_ratio (amount_of priced) (checks policy (spent (30 * one)))
evaluate_budget_lem_example = evaluate_budget_lem priced policy (spent (30 * one)) refl

priced_valid : validate_pricing_semantics priced ≡ true
unfolding validate_pricing_semantics is_safe_id price_agrees
priced_valid = refl

may : may_proceed (evaluate_budget priced policy (spent (10 * one))).decision ≡ true
unfolding evaluate_budget checks run_checks
may = refl

proceeds-IsWithin_example :
    (priced.estimated_cost_usd ≡ some 0)
    ⊎ IsWithinLimits (amount_of priced) policy (spent (10 * one))
proceeds-IsWithin_example = proceeds-IsWithin priced policy (spent (10 * one)) priced_valid may

abbrev subject_digest : String → String → String
subject_digest operation subject = subject

abbrev estimate_digest : CostEstimate → String
estimate_digest e = "estimate"

abbrev authorization : PaidOperationAuthorization
authorization = record {
  operation = "resume.rewrite";
  subject_sha256 = "subject";
  estimate_sha256 = "estimate";
  decision = BudgetGuardDecision.warn;
  override_once = false;
  granted_at = 7;
}

authorized :
    authorize_paid_operation subject_digest estimate_digest 7 priced
      (evaluate_budget priced policy (spent (10 * one)))
      "subject"
      false
    ≡ ok authorization
unfolding authorize_paid_operation decide_once evaluate_budget checks run_checks
authorized = refl

authorized-IsWithin_example :
    (authorization.override_once ≡ false)
    × ((priced.estimated_cost_usd ≡ some 0)
        ⊎ IsWithinLimits (amount_of priced) policy (spent (10 * one)))
authorized-IsWithin_example =
    authorized-IsWithin subject_digest estimate_digest 7 priced policy (spent (10 * one)) "subject"
      authorization priced_valid authorized

validate-authorize_example :
    (validate_paid_authorization subject_digest estimate_digest authorization priced.operation
        "subject"
      ≡ ok tt)
    × (is_ok (
          validate_paid_authorization subject_digest estimate_digest authorization "avatar" "other")
        ≡ str_eq priced.operation "avatar"
          && str_eq (subject_digest priced.operation "subject") (subject_digest "avatar" "other"))
validate-authorize_example =
    validate-authorize subject_digest estimate_digest 7 priced
      (evaluate_budget priced policy (spent (10 * one))) "subject" "other" false "avatar"
      authorization authorized

abbrev receipt : CostEstimate → CostReceipt
receipt estimate = record {
  receipt_id = "COST-0000000000000001";
  run_id = "run";
  story_id = none;
  video_run_id = none;
  estimate = estimate;
  actual_cost_usd = none;
  started_at = 1;
  finished_at = some 2;
  duration_ms = none;
  status = CostReceiptStatus.succeeded;
  provider_request_id = none;
}

abbrev receipts : List CostReceipt
receipts = receipt priced ∷ receipt unpriced ∷ receipt priced ∷ []

aggregate_costs_lem_example :
    let summary = aggregate_costs receipts in
    (summary.estimated_spend_usd ≡ sum_of (λ r. or_nothing r.estimate.estimated_cost_usd) receipts)
    × (summary.actual_spend_usd ≡ sum_of (λ r. or_nothing r.actual_cost_usd) receipts)
    × (summary.unknown_cost_receipts
        ≡ length (filter_by (λ r. says_unknown r.estimate.pricing_status) receipts))
    × (summary.receipt_count ≡ length receipts)
    × (total summary.by_service_estimated_usd ≡ summary.estimated_spend_usd)
aggregate_costs_lem_example = aggregate_costs_lem receipts

get-aggregate_costs_example :
    get "llm" (aggregate_costs receipts).by_service_estimated_usd
    ≡ sum_of estimated_value (filter_by (of_service "llm") receipts)
get-aggregate_costs_example = get-aggregate_costs "llm" receipts
