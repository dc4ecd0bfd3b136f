-- ===== src/MediaCost/Receipts/Sums.antt =====
-- What the totals of a summary add up to.
use soloscale_ai_os.Prelude.{
  ℕ, ◌+◌, ◌≡◌, refl, ◌∙◌, Bool, true, false, Option, none, some, List, [], ◌∷◌, length, filter_by,
  String, str_eq, str_eq_iff, Bool-cases, inl, inr, arith, if◌then◌else◌,
}
use soloscale_ai_os.MediaCost.Models.{PricingStatus, CostReceipt, CostSummary}
use soloscale_ai_os.MediaCost.Receipts.{
  get, add_to, estimated_value, actual_value, is_unknown, add_receipt, add_receipts, empty_summary,
  aggregate_costs,
}

abbrev pub sum_of : (CostReceipt → ℕ) → List CostReceipt → ℕ
sum_of f [] = 0
sum_of f (r ∷ rs) = f r + sum_of f rs

abbrev pub total : List (String × ℕ) → ℕ
total [] = 0
total ((name, amount) ∷ items) = amount + total items

abbrev pub of_service : String → CostReceipt → Bool
of_service service r = str_eq r.estimate.service service

total-add_to :
    (service : String) (amount : ℕ) (items : List (String × ℕ))
    → total (add_to service amount items) ≡ total items + amount
total-add_to service amount [] = omega arith
total-add_to service amount ((name, old) ∷ items) =
    ground (arith, total-add_to service amount items)

get-add_to :
    (service name : String) (amount : ℕ) (items : List (String × ℕ))
    → get service (add_to name amount items)
      ≡ get service items + (if str_eq name service then amount else 0)
get-add_to service name amount [] = ground arith
get-add_to service name amount ((other, old) ∷ items) = elim (Bool-cases (str_eq other name)) [
  | inl own ↦ let same = (str_eq_iff other name).0 own in ground (arith, own, same)
  | inr foreign ↦ ground (
    arith,
    get-add_to service name amount items,
    str_eq_iff other service,
    str_eq_iff name service,
  )
]

-- What a summary says: of the receipts that it has seen.
sums_lem :
    (rs : List CostReceipt) (sum : CostSummary)
    → let after = add_receipts rs sum in
      (after.estimated_spend_usd ≡ sum.estimated_spend_usd + sum_of estimated_value rs)
      × (after.actual_spend_usd ≡ sum.actual_spend_usd + sum_of actual_value rs)
      × (after.unknown_cost_receipts ≡ sum.unknown_cost_receipts + length (filter_by is_unknown rs))
      × (after.receipt_count ≡ sum.receipt_count)
      × (total after.by_service_estimated_usd
          ≡ total sum.by_service_estimated_usd + sum_of estimated_value rs)
unfolding add_receipts
sums_lem [] sum = (omega arith, omega arith, omega arith, refl, omega arith)
sums_lem (r ∷ rs) sum =
    let (a, b, c, d, e) = sums_lem rs (add_receipt r sum) in
    (
      omega (arith, a),
      omega (arith, b),
      ground (arith, c),
      d,
      omega (
        arith,
        e,
        total-add_to r.estimate.service (estimated_value r) sum.by_service_estimated_usd,
      ),
    )

abbrev pub or_nothing : Option ℕ → ℕ
or_nothing none = 0
or_nothing (some cost) = cost

abbrev pub says_unknown : PricingStatus → Bool
says_unknown PricingStatus.unknown = true
says_unknown _ = false

sum_of-ext :
    (f g : CostReceipt → ℕ) (same : (r : CostReceipt) → f r ≡ g r) (rs : List CostReceipt)
    → sum_of f rs ≡ sum_of g rs
sum_of-ext f g same [] = refl
sum_of-ext f g same (r ∷ rs) = omega (arith, same r, sum_of-ext f g same rs)

-- The summary's spends are the sums of the receipts' estimated and of their actual costs, a missing cost
-- as nothing; it counts the receipts and those of unknown price; and its services together come to
-- the estimated spend.
pub aggregate_costs_lem :
    (receipts : List CostReceipt)
    → let summary = aggregate_costs receipts in
      (summary.estimated_spend_usd
        ≡ sum_of (λ r. or_nothing r.estimate.estimated_cost_usd) receipts)
      × (summary.actual_spend_usd ≡ sum_of (λ r. or_nothing r.actual_cost_usd) receipts)
      × (summary.unknown_cost_receipts
          ≡ length (filter_by (λ r. says_unknown r.estimate.pricing_status) receipts))
      × (summary.receipt_count ≡ length receipts)
      × (total summary.by_service_estimated_usd ≡ summary.estimated_spend_usd)
unfolding aggregate_costs
aggregate_costs_lem receipts =
    let (a, b, c, d, e) = sums_lem receipts _ in
    (
      omega (arith, a) ∙ sum_of-ext estimated_value _ each_estimate receipts,
      omega (arith, b) ∙ sum_of-ext actual_value _ each_actual receipts,
      omega (arith, c),
      d,
      omega (arith, a, e),
    )
  where
    each_estimate : (r : CostReceipt) → estimated_value r ≡ or_nothing r.estimate.estimated_cost_usd
    each_estimate r = ground arith

    each_actual : (r : CostReceipt) → actual_value r ≡ or_nothing r.actual_cost_usd
    each_actual r = ground arith

service_lem :
    (service : String) (rs : List CostReceipt) (sum : CostSummary)
    → get service (add_receipts rs sum).by_service_estimated_usd
      ≡ get service sum.by_service_estimated_usd
        + sum_of estimated_value (filter_by (of_service service) rs)
unfolding add_receipts
service_lem service [] sum = omega arith
service_lem service (r ∷ rs) sum =
    let step = service_lem service rs (add_receipt r sum) in
    let here =
      get-add_to service r.estimate.service (estimated_value r) sum.by_service_estimated_usd in
    elim (Bool-cases (of_service service r)) [
      | inl own ↦ ground (arith, step, here)
      | inr foreign ↦ ground (arith, step, here)
    ]

-- The summary's amount for a service is the sum over the receipts of that service.
pub get-aggregate_costs :
    (service : String) (receipts : List CostReceipt)
    → get service (aggregate_costs receipts).by_service_estimated_usd
      ≡ sum_of estimated_value (filter_by (of_service service) receipts)
unfolding aggregate_costs
get-aggregate_costs service receipts =
    let sums = service_lem service receipts (empty_summary (length receipts)) in omega (arith, sums)
