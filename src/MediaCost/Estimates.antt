-- ===== src/MediaCost/Estimates.antt =====
-- The estimates of media_cost.py: model calls, avatar seconds and local operations.
pub mod Prices
pub mod Returns
use soloscale_ai_os.Prelude.{
  ℕ, ◌+◌, ◌*◌, Bool, true, false, ◌||◌, Option, none, some, List, [], ◌∷◌, ◌++◌, String, or_else,
  Result, ok, err, if◌then◌else◌,
}
use soloscale_ai_os.Prelude.Text.{Text, codes}
use soloscale_ai_os.MediaCost.Models.{
  PricingStatus, BillingUnit, MediaCostError, PricingRate, CostEstimate, make_estimate, one,
}
use soloscale_ai_os.MediaCost.Pricing.{RateQuery, rate_for}

pub data ModelProviderId : Type 0 where
  soloscale_hosted ollama openai_compatible deepseek : ModelProviderId

abbrev pub provider_value : ModelProviderId → String
provider_value ModelProviderId.soloscale_hosted = "soloscale_hosted"
provider_value ModelProviderId.ollama = "ollama"
provider_value ModelProviderId.openai_compatible = "openai_compatible"
provider_value ModelProviderId.deepseek = "deepseek"

-- what the estimates read of a profile
pub record ModelCallProfile : Type 0 where
  pub provider : ModelProviderId
  pub model : String
  pub prompt_eval_tokens : Option ℕ
  pub output_tokens : Option ℕ

-- The status, the source and the cost that an estimate carries.
pub record Price : Type 0 where
  pub pricing_status : PricingStatus
  pub price_source : Text
  pub estimated_cost_usd : Option ℕ

abbrev pub local_price : Price
local_price = record {
  pricing_status = PricingStatus.not_billable;
  price_source = codes "local-runtime";
  estimated_cost_usd = some 0;
}

abbrev pub unknown_price : String → Price
unknown_price source = record {
  pricing_status = PricingStatus.unknown;
  price_source = codes source;
  estimated_cost_usd = none;
}

abbrev is_estimated : PricingStatus → Bool
is_estimated PricingStatus.estimated = true
is_estimated _ = false

-- `f"{input_rate.source};{output_rate.source}"`
abbrev pub joined : PricingRate → PricingRate → Text
joined input output = input.source ++ (codes ";" ++ output.source)

abbrev pub token_cost : ℕ → ℕ → PricingRate → PricingRate → ℕ
token_cost input_tokens output_tokens input output =
    input_tokens * one * input.usd_per_unit + output_tokens * one * output.usd_per_unit

unfoldable pub token_price : ℕ → ℕ → Option PricingRate → Option PricingRate → Price
token_price input_tokens output_tokens (some input) (some output) = record {
  pricing_status =
      if is_estimated input.pricing_status || is_estimated output.pricing_status
      then PricingStatus.estimated
      else PricingStatus.known;
  price_source = joined input output;
  estimated_cost_usd = some (token_cost input_tokens output_tokens input output);
}
token_price input_tokens output_tokens input output = unknown_price "pricing-catalog-miss"

abbrev pub llm_query : ModelCallProfile → BillingUnit → RateQuery
llm_query profile billing_unit = record {
  provider = provider_value profile.provider;
  service = "llm";
  model = some profile.model;
  billing_unit = billing_unit;
}

unfoldable pub usage_price : List PricingRate → ModelCallProfile → Option ℕ → Option ℕ → Price
usage_price catalog profile (some input_tokens) (some output_tokens) =
    token_price input_tokens output_tokens
      (rate_for catalog (llm_query profile BillingUnit.input_token))
      (rate_for catalog (llm_query profile BillingUnit.output_token))
usage_price catalog profile input_tokens output_tokens = unknown_price "usage-or-price-unavailable"

unfoldable pub model_price : List PricingRate → ModelCallProfile → Price
model_price catalog profile = elim profile.provider [
  | ModelProviderId.ollama ↦ local_price
  | _ ↦ usage_price catalog profile profile.prompt_eval_tokens profile.output_tokens
]

-- the fields of every estimate of a model call
abbrev pub model_estimate : ModelCallProfile → String → String → Price → CostEstimate
model_estimate profile feature operation price = record {
  feature = feature;
  operation = operation;
  provider = provider_value profile.provider;
  service = "llm";
  model = some profile.model;
  billing_unit = BillingUnit.token;
  billable_quantity =
      (or_else profile.prompt_eval_tokens 0 + or_else profile.output_tokens 0) * one;
  input_tokens = profile.prompt_eval_tokens;
  output_tokens = profile.output_tokens;
  audio_seconds = none;
  video_seconds = none;
  provider_credits = none;
  request_count = 1;
  pricing_status = price.pricing_status;
  price_source = price.price_source;
  estimated_cost_usd = price.estimated_cost_usd;
}

unfoldable pub estimate_model_call :
    ModelCallProfile → List PricingRate → String → String → Result MediaCostError CostEstimate
estimate_model_call profile catalog feature operation =
    make_estimate (model_estimate profile feature operation (model_price catalog profile))

abbrev avatar_price : ℕ → Option PricingRate → Price
avatar_price seconds none = unknown_price "pricing-catalog-miss"
avatar_price seconds (some rate) = record {
  pricing_status = rate.pricing_status;
  price_source = rate.source;
  estimated_cost_usd = some (seconds * rate.usd_per_unit);
}

abbrev pub avatar_query : Option String → RateQuery
avatar_query model = record {
  provider = "heygen";
  service = "avatar";
  model = model;
  billing_unit = BillingUnit.second;
}

abbrev avatar_estimate : ℕ → Option String → String → String → Price → CostEstimate
avatar_estimate seconds model feature operation price = record {
  feature = feature;
  operation = operation;
  provider = "heygen";
  service = "avatar";
  model = model;
  billing_unit = BillingUnit.second;
  billable_quantity = seconds;
  input_tokens = none;
  output_tokens = none;
  audio_seconds = none;
  video_seconds = some seconds;
  provider_credits = none;
  request_count = 1;
  pricing_status = price.pricing_status;
  price_source = price.price_source;
  estimated_cost_usd = price.estimated_cost_usd;
}

unfoldable pub estimate_avatar_seconds :
    ℕ → List PricingRate → Option String → String → String → Result MediaCostError CostEstimate
estimate_avatar_seconds seconds catalog model feature operation = make_estimate (
    avatar_estimate seconds model feature operation
      (avatar_price seconds (rate_for catalog (avatar_query model))))

unfoldable pub estimate_local_operation :
    String → String → String → ℕ → BillingUnit → Result MediaCostError CostEstimate
estimate_local_operation service feature operation quantity billing_unit = make_estimate (record {
  feature = feature;
  operation = operation;
  provider = "local";
  service = service;
  model = none;
  billing_unit = billing_unit;
  billable_quantity = quantity;
  input_tokens = none;
  output_tokens = none;
  audio_seconds = none;
  video_seconds = none;
  provider_credits = none;
  request_count = 1;
  pricing_status = local_price.pricing_status;
  price_source = local_price.price_source;
  estimated_cost_usd = local_price.estimated_cost_usd;
})
