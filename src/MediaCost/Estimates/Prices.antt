-- ===== src/MediaCost/Estimates/Prices.antt =====
-- Where the prices of model calls come from.
use soloscale_ai_os.Prelude.{
  ℕ, ◌+◌, ◌*◌, ◌≡◌, ◌⊎◌, inl, inr, refl, sym, ap, ◌∙◌, subst, true, Option, none, some, List,
  String, ok, Bool-cases, arith,
}
use soloscale_ai_os.MediaCost.Models.{
  BillingUnit, PricingRate, one, CostEstimate, validate_pricing_semantics, make_estimate,
}
use soloscale_ai_os.MediaCost.Pricing.{rate_for}
use soloscale_ai_os.MediaCost.Estimates.{
  ModelProviderId, ModelCallProfile, Price, local_price, token_price, llm_query, usage_price,
  model_price, estimate_model_call,
}

pub made :
    (e x : CostEstimate) → make_estimate e ≡ ok x → (e ≡ x) × (validate_pricing_semantics x ≡ true)
made e x h = elim (Bool-cases (validate_pricing_semantics e)) [
  | inl valid ↦
      let same : e ≡ x = ground arith in
      (same, subst (λ y. validate_pricing_semantics y ≡ true) same valid)
  | inr bad ↦ absurd (ground arith)
]

-- What stands behind a price above zero.
pub record IsPriced (catalog : List PricingRate) (profile : ModelCallProfile) (cost : ℕ)
    : Type 0 where
  pub input_tokens : ℕ
  pub output_tokens : ℕ
  pub input_rate : PricingRate
  pub output_rate : PricingRate
  pub input_known : profile.prompt_eval_tokens ≡ some input_tokens
  pub output_known : profile.output_tokens ≡ some output_tokens
  pub input_found : rate_for catalog (llm_query profile BillingUnit.input_token) ≡ some input_rate
  pub output_found :
      rate_for catalog (llm_query profile BillingUnit.output_token) ≡ some output_rate
  pub cost_is :
      cost
      ≡ input_tokens * one * input_rate.usd_per_unit
        + output_tokens * one * output_rate.usd_per_unit

token_price-IsPriced :
    (catalog : List PricingRate) (profile : ModelCallProfile) (cost i o : ℕ)
    (ri ro : Option PricingRate)
    → profile.prompt_eval_tokens ≡ some i
    → profile.output_tokens ≡ some o
    → rate_for catalog (llm_query profile BillingUnit.input_token) ≡ ri
    → rate_for catalog (llm_query profile BillingUnit.output_token) ≡ ro
    → (token_price i o ri ro).estimated_cost_usd ≡ some cost
    → IsPriced catalog profile cost
unfolding token_price
token_price-IsPriced catalog profile cost i o none ro pi po p q h = cc
token_price-IsPriced catalog profile cost i o (some ri) none pi po p q h = cc
token_price-IsPriced catalog profile cost i o (some ri) (some ro) pi po p q h = record {
  input_tokens = i;
  output_tokens = o;
  input_rate = ri;
  output_rate = ro;
  input_known = pi;
  output_known = po;
  input_found = p;
  output_found = q;
  cost_is = cc;
}

usage_price-IsPriced :
    (catalog : List PricingRate) (profile : ModelCallProfile) (cost : ℕ) (i o : Option ℕ)
    → profile.prompt_eval_tokens ≡ i
    → profile.output_tokens ≡ o
    → (usage_price catalog profile i o).estimated_cost_usd ≡ some cost
    → IsPriced catalog profile cost
unfolding usage_price
usage_price-IsPriced catalog profile cost none o p q h = cc
usage_price-IsPriced catalog profile cost (some i) none p q h = cc
usage_price-IsPriced catalog profile cost (some i) (some o) p q h =
    token_price-IsPriced catalog profile cost i o _ _ p q refl refl h

abbrev pub price_of : ModelProviderId → Price → Price
price_of ModelProviderId.ollama price = local_price
price_of _ price = price

pub model_price_lem :
    (catalog : List PricingRate) (profile : ModelCallProfile)
    → model_price catalog profile
      ≡ price_of profile.provider
          (usage_price catalog profile profile.prompt_eval_tokens profile.output_tokens)
unfolding model_price
model_price_lem catalog profile = ground arith

-- An estimate of a model call passes the validators, and never invents a price: a cost that it states
-- is zero for a local Ollama call, and else the tokens that the provider has reported, at the rates
-- that the catalog has for input and for output tokens of that provider and model, each number of
-- tokens at its own rate.
pub estimate_model_call_lem :
    (profile : ModelCallProfile) (catalog : List PricingRate) (feature operation : String)
    (e : CostEstimate) (cost : ℕ)
    → estimate_model_call profile catalog feature operation ≡ ok e
    → e.estimated_cost_usd ≡ some cost
    → (validate_pricing_semantics e ≡ true)
      × (((profile.provider ≡ ModelProviderId.ollama) × (cost ≡ 0)) ⊎ IsPriced catalog profile cost)
unfolding estimate_model_call
estimate_model_call_lem profile catalog feature operation e cost h k =
    let (same, valid) = made _ e h in
    (
      valid,
      at profile.provider refl (
          ap (λ (p : Price). p.estimated_cost_usd) (sym (model_price_lem catalog profile))
          ∙ ap (λ (x : CostEstimate). x.estimated_cost_usd) same
          ∙ k),
    )
  where
    at :
        (provider : ModelProviderId)
        → profile.provider ≡ provider
        → (price_of provider (
            usage_price catalog profile profile.prompt_eval_tokens
              profile.output_tokens)).estimated_cost_usd
          ≡ some cost
        → ((profile.provider ≡ ModelProviderId.ollama) × (cost ≡ 0)) ⊎ IsPriced catalog profile cost
    at ModelProviderId.ollama p c = inl (p, cc)
    at ModelProviderId.soloscale_hosted p c =
        inr (usage_price-IsPriced catalog profile cost _ _ refl refl c)
    at ModelProviderId.openai_compatible p c =
        inr (usage_price-IsPriced catalog profile cost _ _ refl refl c)
    at ModelProviderId.deepseek p c =
        inr (usage_price-IsPriced catalog profile cost _ _ refl refl c)
