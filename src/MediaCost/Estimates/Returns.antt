-- ===== src/MediaCost/Estimates/Returns.antt =====
-- Where an estimate of a model call is sure to come back, and what the default catalog knows.
use soloscale_ai_os.Prelude.{
  ℕ, ◌+◌, ◌≡◌, ◌≢◌, inl, inr, refl, sym, ap, ◌∙◌, subst, Bool, true, ◌&&◌, Option, none, some, List,
  [], ◌∷◌, ◌++◌, all, length, length-append, find_by, String, ok, Option-cases, Bool-cases, arith,
}
use soloscale_ai_os.Prelude.Text.{codes}
use soloscale_ai_os.MediaCost.Models.{
  PricingStatus, BillingUnit, PricingRate, CostEstimate, validate_pricing_semantics, price_agrees,
  is_safe_id, name_fits, fits,
}
use soloscale_ai_os.MediaCost.Pricing.{RateQuery, rate_for, exact, general, default_pricing_catalog}
use soloscale_ai_os.MediaCost.Estimates.{
  ModelProviderId, provider_value, ModelCallProfile, Price, joined, token_price, llm_query,
  usage_price, model_price, model_estimate, estimate_model_call,
}
use soloscale_ai_os.MediaCost.Estimates.Prices.{made, price_of, model_price_lem}

find_by-all :
    {A : Type 0} (p q : A → Bool) (xs : List A) (x : A)
    → all p xs ≡ true
    → find_by q xs ≡ some x
    → p x ≡ true
find_by-all p q [] x h k = cc
find_by-all p q (y ∷ ys) x h k = elim (Bool-cases (q y)) [
  | inl met ↦ let same : y ≡ x = ground arith in subst (λ z. p z ≡ true) same (ground arith)
  | inr other ↦ find_by-all p q ys x (ground arith) (ground arith)
]

rate_for-all :
    (p : PricingRate → Bool) (entries : List PricingRate) (query : RateQuery) (rate : PricingRate)
    → all p entries ≡ true
    → rate_for entries query ≡ some rate
    → p rate ≡ true
unfolding rate_for
rate_for-all p entries query rate h k = elim (Option-cases (find_by (exact query) entries)) [
  | inl nothing ↦ find_by-all p (general query) entries rate h (ground arith)
  | inr (entry, found) ↦
      let same : entry ≡ rate = ground arith in
      find_by-all p (exact query) entries rate h (found ∙ ap some same)
]

-- the source of a rate is short enough to be joined with another
abbrev pub is_short : PricingRate → Bool
is_short rate = fits 1 499 rate.source

abbrev IsSoundPrice : Price → Type 0
IsSoundPrice p =
    (fits 1 1000 p.price_source ≡ true)
    × (price_agrees p.pricing_status p.estimated_cost_usd ≡ true)

joined-fits :
    (a b : PricingRate) → is_short a ≡ true → is_short b ≡ true → fits 1 1000 (joined a b) ≡ true
joined-fits a b h k =
    let whole : length (joined a b) ≡ length a.source + length (codes ";" ++ b.source) =
      length-append a.source (codes ";" ++ b.source) in
    ground (arith, whole)

token_price_sound :
    (i o : ℕ) (ri ro : Option PricingRate)
    → ((r : PricingRate) → ri ≡ some r → is_short r ≡ true)
    → ((r : PricingRate) → ro ≡ some r → is_short r ≡ true)
    → IsSoundPrice (token_price i o ri ro)
unfolding token_price price_agrees
token_price_sound i o none ro h k = (refl, refl)
token_price_sound i o (some ri) none h k = (refl, refl)
token_price_sound i o (some ri) (some ro) h k =
    (joined-fits ri ro (h ri refl) (k ro refl), ground arith)

usage_price_sound :
    (catalog : List PricingRate) (profile : ModelCallProfile) (i o : Option ℕ)
    → all is_short catalog ≡ true
    → IsSoundPrice (usage_price catalog profile i o)
unfolding usage_price price_agrees
usage_price_sound catalog profile none o h = (refl, refl)
usage_price_sound catalog profile (some i) none h = (refl, refl)
usage_price_sound catalog profile (some i) (some o) h =
    token_price_sound i o (rate_for catalog (llm_query profile BillingUnit.input_token))
      (rate_for catalog (llm_query profile BillingUnit.output_token))
      (λ r. rate_for-all is_short catalog (llm_query profile BillingUnit.input_token) r h)
      (λ r. rate_for-all is_short catalog (llm_query profile BillingUnit.output_token) r h)

price_of_sound :
    (provider : ModelProviderId) (p : Price) → IsSoundPrice p → IsSoundPrice (price_of provider p)
unfolding price_agrees
price_of_sound ModelProviderId.ollama p h = (refl, refl)
price_of_sound ModelProviderId.soloscale_hosted p h = h
price_of_sound ModelProviderId.openai_compatible p h = h
price_of_sound ModelProviderId.deepseek p h = h

provider_safe :
    (provider : ModelProviderId)
    → (name_fits 120 (provider_value provider) ≡ true)
      × (is_safe_id (codes (provider_value provider)) ≡ true)
unfolding is_safe_id
provider_safe ModelProviderId.ollama = (refl, refl)
provider_safe ModelProviderId.soloscale_hosted = (refl, refl)
provider_safe ModelProviderId.openai_compatible = (refl, refl)
provider_safe ModelProviderId.deepseek = (refl, refl)

llm_safe : is_safe_id (codes "llm") ≡ true
unfolding is_safe_id
llm_safe = refl

-- With a catalog whose sources have at most 499 characters, a model name of at most 240, and safe names
-- for the feature and the operation, an estimate comes back, for every provider and usage.
pub estimate_model_call-returns :
    (profile : ModelCallProfile) (catalog : List PricingRate) (feature operation : String)
    → all is_short catalog ≡ true
    → name_fits 240 profile.model ≡ true
    → name_fits 120 feature && is_safe_id (codes feature) ≡ true
    → name_fits 160 operation && is_safe_id (codes operation) ≡ true
    → (e : CostEstimate) × (estimate_model_call profile catalog feature operation ≡ ok e)
unfolding estimate_model_call validate_pricing_semantics
estimate_model_call-returns profile catalog feature operation short model_ok feature_ok
      operation_ok =
    let (source, agrees) = subst IsSoundPrice (sym (model_price_lem catalog profile)) (
      price_of_sound profile.provider
        (usage_price catalog profile profile.prompt_eval_tokens profile.output_tokens)
        (usage_price_sound catalog profile profile.prompt_eval_tokens profile.output_tokens
          short)) in
    let (provider_fits, provider_ok) = provider_safe profile.provider in
    let e = model_estimate profile feature operation (model_price catalog profile) in
    let valid : validate_pricing_semantics e ≡ true =
      ground (arith, source, agrees, provider_fits, provider_ok, llm_safe) in
    (e, rw valid refl)

no_rate :
    (today : ℕ) (profile : ModelCallProfile) (provider : ModelProviderId)
    (billing_unit : BillingUnit)
    → profile.provider ≡ provider
    → provider ≢ ModelProviderId.ollama
    → rate_for (default_pricing_catalog today) (llm_query profile billing_unit) ≡ none
unfolding rate_for default_pricing_catalog
no_rate today profile ModelProviderId.ollama billing_unit p h = absurd (h refl)
no_rate today profile ModelProviderId.soloscale_hosted billing_unit p h = rw p refl
no_rate today profile ModelProviderId.openai_compatible billing_unit p h = rw p refl
no_rate today profile ModelProviderId.deepseek billing_unit p h = rw p refl

abbrev IsUnknown : Price → Type 0
IsUnknown p = (p.pricing_status ≡ PricingStatus.unknown) × (p.estimated_cost_usd ≡ none)

usage_price-IsUnknown :
    (catalog : List PricingRate) (profile : ModelCallProfile) (i o : Option ℕ)
    → rate_for catalog (llm_query profile BillingUnit.input_token) ≡ none
    → IsUnknown (usage_price catalog profile i o)
unfolding usage_price token_price
usage_price-IsUnknown catalog profile none o h = (refl, refl)
usage_price-IsUnknown catalog profile (some i) none h = (refl, refl)
usage_price-IsUnknown catalog profile (some i) (some o) h =
    subst
      (λ r.
        IsUnknown
          (token_price i o r (rate_for catalog (llm_query profile BillingUnit.output_token))))
      (sym h) (refl, refl)

price_of-IsUnknown :
    (provider : ModelProviderId) (p : Price)
    → provider ≢ ModelProviderId.ollama
    → IsUnknown p
    → IsUnknown (price_of provider p)
price_of-IsUnknown ModelProviderId.ollama p h k = absurd (h refl)
price_of-IsUnknown ModelProviderId.soloscale_hosted p h k = k
price_of-IsUnknown ModelProviderId.openai_compatible p h k = k
price_of-IsUnknown ModelProviderId.deepseek p h k = k

-- With the default catalog every estimate for a provider other than Ollama has an unknown price.
pub default_catalog-unknown :
    (today : ℕ) (profile : ModelCallProfile) (feature operation : String) (e : CostEstimate)
    → profile.provider ≢ ModelProviderId.ollama
    → estimate_model_call profile (default_pricing_catalog today) feature operation ≡ ok e
    → (e.pricing_status ≡ PricingStatus.unknown) × (e.estimated_cost_usd ≡ none)
unfolding estimate_model_call
default_catalog-unknown today profile feature operation e h k =
    let catalog = default_pricing_catalog today in
    let (status, cost) = subst IsUnknown (sym (model_price_lem catalog profile)) (
      price_of-IsUnknown profile.provider _ h (
        usage_price-IsUnknown catalog profile profile.prompt_eval_tokens profile.output_tokens
          (no_rate today profile profile.provider BillingUnit.input_token refl h))) in
    let (same, valid) = made _ e k in
    (
      ap (λ (x : CostEstimate). x.pricing_status) (sym same) ∙ status,
      ap (λ (x : CostEstimate). x.estimated_cost_usd) (sym same) ∙ cost,
    )
