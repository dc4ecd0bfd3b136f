-- ===== src/MediaCost/Pricing.antt =====
-- `PricingCatalog` and `default_pricing_catalog` of media_cost.py.
use soloscale_ai_os.Prelude.{
  ℕ, ◌≡◌, refl, Bool, true, false, not, ◌&&◌, ◌||◌, ◌⊎◌, inl, inr, Option, none, some, List, [],
  ◌∷◌, any, all, is_none, leb, length, String, str_eq, find_by, find_by_sound, Option-cases, arith,
}
use soloscale_ai_os.Prelude.Text.{codes}
use soloscale_ai_os.MediaCost.Models.{
  PricingStatus, BillingUnit, unit_eq, PricingRate, validate_rate, is_safe_id,
}

abbrev pub model_eq : Option String → Option String → Bool
model_eq none none = true
model_eq none (some b) = false
model_eq (some a) none = false
model_eq (some a) (some b) = str_eq a b

abbrev pub same_key : PricingRate → PricingRate → Bool
same_key a b =
    str_eq a.provider b.provider
    && str_eq a.service b.service
    && model_eq a.model b.model
    && unit_eq a.billing_unit b.billing_unit

-- `len(keys) != len(set(keys))`
abbrev pub has_duplicates : List PricingRate → Bool
has_duplicates [] = false
has_duplicates (e ∷ es) = any (same_key e) es || has_duplicates es

-- the validators of a catalog, those of its entries included
unfoldable pub validate_catalog : List PricingRate → Bool
validate_catalog entries =
    leb (length entries) 500 && all validate_rate entries && not (has_duplicates entries)

-- What `rate_for` is asked for.
pub record RateQuery : Type 0 where
  pub provider : String
  pub service : String
  pub model : Option String
  pub billing_unit : BillingUnit

abbrev pub answers : RateQuery → PricingRate → Bool
answers query entry =
    str_eq entry.provider query.provider
    && str_eq entry.service query.service
    && unit_eq entry.billing_unit query.billing_unit

abbrev pub exact : RateQuery → PricingRate → Bool
exact query entry =
    str_eq entry.provider query.provider
    && str_eq entry.service query.service
    && model_eq entry.model query.model
    && unit_eq entry.billing_unit query.billing_unit

abbrev pub general : RateQuery → PricingRate → Bool
general query entry =
    str_eq entry.provider query.provider
    && str_eq entry.service query.service
    && is_none entry.model
    && unit_eq entry.billing_unit query.billing_unit

unfoldable pub rate_for : List PricingRate → RateQuery → Option PricingRate
rate_for entries query = elim (find_by (exact query) entries) [
  | some entry ↦ some entry
  | none ↦ find_by (general query) entries
]

abbrev local_rate : String → String → BillingUnit → ℕ → PricingRate
local_rate provider service billing_unit today = record {
  provider = provider;
  service = service;
  model = none;
  billing_unit = billing_unit;
  usd_per_unit = 0;
  pricing_status = PricingStatus.not_billable;
  effective_date = today;
  source = codes "local-runtime";
}

unfoldable pub default_pricing_catalog : ℕ → List PricingRate
default_pricing_catalog today =
    local_rate "ollama" "llm" BillingUnit.token today
    ∷ local_rate "local" "qwen3_tts" BillingUnit.second today
    ∷ local_rate "local" "remotion" BillingUnit.request today
    ∷ local_rate "local" "reference_video_analysis" BillingUnit.request today
    ∷ []

pub default_catalog-validate : (today : ℕ) → validate_catalog (default_pricing_catalog today) ≡ true
unfolding validate_catalog default_pricing_catalog validate_rate is_safe_id
default_catalog-validate today = refl

none_found : {A : Type 0} (p : A → Bool) (xs : List A) → find_by p xs ≡ none → any p xs ≡ false
none_found p [] h = refl
none_found p (x ∷ xs) h = ground (arith, none_found p xs)

-- A rate that is found is for the provider, the service and the unit that were asked for. It is for
-- the model as well, or else it is a rate for every model, and the catalog has none for this one.
pub rate_for_lem :
    (entries : List PricingRate) (query : RateQuery) (rate : PricingRate)
    → rate_for entries query ≡ some rate
    → (answers query rate ≡ true)
      × ((model_eq rate.model query.model ≡ true)
          ⊎ ((rate.model ≡ none) × (any (exact query) entries ≡ false)))
unfolding rate_for
rate_for_lem entries query rate h = elim (Option-cases (find_by (exact query) entries)) [
  | inl nothing ↦
      let found : find_by (general query) entries ≡ some rate = ground arith in
      let met = find_by_sound (general query) entries rate found in
      (ground arith, inr (ground arith, none_found (exact query) entries nothing))
  | inr (entry, found) ↦
      let same : entry ≡ rate = ground arith in
      let met = find_by_sound (exact query) entries entry found in
      rw (← same) (ground arith, inl (ground arith))
]
