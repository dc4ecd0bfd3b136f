-- ===== src/MediaCost/Receipts.antt =====
-- `make_cost_receipt` and `aggregate_costs` of media_cost.py. The random part of a receipt's id is an
-- argument, and a dict is the list of its items in the order of insertion.
pub mod Sums
use soloscale_ai_os.Prelude.{
  ℕ, ◌+◌, Bool, true, false, Option, none, some, List, [], ◌∷◌, length, or_else, String, str_eq,
  Result, ok, err, if◌then◌else◌,
}
use soloscale_ai_os.MediaCost.Models.{
  PricingStatus, CostReceiptStatus, MediaCostError, validation_error, CostEstimate, CostReceipt,
  validate_receipt, CostSummary,
}

-- the arguments of `make_cost_receipt` that it passes on, with the id that it draws
pub record ReceiptCall : Type 0 where
  pub receipt_id : String
  pub run_id : String
  pub status : CostReceiptStatus
  pub started_at : ℕ
  pub finished_at : Option ℕ
  pub duration_ms : Option ℕ
  pub story_id : Option String
  pub video_run_id : Option String
  pub actual_cost_usd : Option ℕ
  pub provider_request_id : Option String

abbrev pub receipt_of : ReceiptCall → CostEstimate → CostReceipt
receipt_of call estimate = record {
  receipt_id = call.receipt_id;
  run_id = call.run_id;
  story_id = call.story_id;
  video_run_id = call.video_run_id;
  estimate = estimate;
  actual_cost_usd = call.actual_cost_usd;
  started_at = call.started_at;
  finished_at = call.finished_at;
  duration_ms = call.duration_ms;
  status = call.status;
  provider_request_id = call.provider_request_id;
}

unfoldable pub make_cost_receipt : ReceiptCall → CostEstimate → Result MediaCostError CostReceipt
make_cost_receipt call estimate =
    let receipt = receipt_of call estimate in
    if validate_receipt receipt then ok receipt else err validation_error

-- `by_service.get(service, Decimal(0))`
abbrev pub get : String → List (String × ℕ) → ℕ
get service [] = 0
get service ((name, amount) ∷ items) = if str_eq name service then amount else get service items

-- `by_service[service] = by_service.get(service, Decimal(0)) + amount`
abbrev pub add_to : String → ℕ → List (String × ℕ) → List (String × ℕ)
add_to service amount [] = (service, amount) ∷ []
add_to service amount ((name, old) ∷ items) =
    if str_eq name service
    then (name, old + amount) ∷ items
    else (name, old) ∷ add_to service amount items

abbrev pub estimated_value : CostReceipt → ℕ
estimated_value r = or_else r.estimate.estimated_cost_usd 0

abbrev pub actual_value : CostReceipt → ℕ
actual_value r = or_else r.actual_cost_usd 0

abbrev pub is_unknown : CostReceipt → Bool
is_unknown r = elim r.estimate.pricing_status [ PricingStatus.unknown ↦ true | _ ↦ false ]

-- the body of the loop, on its four accumulators
abbrev pub add_receipt : CostReceipt → CostSummary → CostSummary
add_receipt r sum = record sum {
  estimated_spend_usd = sum.estimated_spend_usd + estimated_value r;
  actual_spend_usd = sum.actual_spend_usd + actual_value r;
  unknown_cost_receipts = sum.unknown_cost_receipts + (if is_unknown r then 1 else 0);
  by_service_estimated_usd =
      add_to r.estimate.service (estimated_value r) sum.by_service_estimated_usd;
}

unfoldable pub add_receipts : List CostReceipt → CostSummary → CostSummary
add_receipts [] sum = sum
add_receipts (r ∷ rs) sum = add_receipts rs (add_receipt r sum)

abbrev pub empty_summary : ℕ → CostSummary
empty_summary receipt_count = record {
  estimated_spend_usd = 0;
  actual_spend_usd = 0;
  unknown_cost_receipts = 0;
  receipt_count = receipt_count;
  by_service_estimated_usd = [];
}

unfoldable pub aggregate_costs : List CostReceipt → CostSummary
unfolding add_receipts
aggregate_costs receipts = add_receipts receipts (empty_summary (length receipts))
