-- ===== src/MediaCost/Budget.antt =====
-- `evaluate_budget` of media_cost.py: the guard in front of a paid operation.
pub mod Loop
pub mod Limits
use soloscale_ai_os.Prelude.{
  ℕ, ◌+◌, ◌-◌, ◌*◌, Bool, true, false, ◌&&◌, Option, none, some, List, [], ◌∷◌, is_none, leb, ltb,
  or_else, String, if◌then◌else◌,
}
use soloscale_ai_os.MediaCost.Models.{
  PricingStatus, BudgetGuardDecision, CostEstimate, BudgetPolicy, SpendSnapshot, BudgetEvaluation,
  one,
}

-- one of the five checks: its scope, its limit, and what has been spent in it
pub record Check : Type 0 where
  pub scope : String
  pub limit : Option ℕ
  pub already_spent : ℕ

abbrev pub no_spend : SpendSnapshot
no_spend = record { story_usd = 0; video_usd = 0; daily_usd = 0; monthly_usd = 0 }

abbrev check : String → Option ℕ → ℕ → Check
check scope limit already_spent = record {
  scope = scope;
  limit = limit;
  already_spent = already_spent;
}

unfoldable pub checks : BudgetPolicy → Option SpendSnapshot → List Check
checks policy spend =
    let current = or_else spend no_spend in
    check "per_paid_operation" policy.per_paid_operation_usd 0
    ∷ check "per_story" policy.per_story_usd current.story_usd
    ∷ check "per_video" policy.per_video_usd current.video_usd
    ∷ check "daily" policy.daily_usd current.daily_usd
    ∷ check "monthly" policy.monthly_usd current.monthly_usd
    ∷ []

-- scope, limit, already spent, projected
pub record Finding : Type 0 where
  pub scope : String
  pub limit : ℕ
  pub already_spent : ℕ
  pub projected : ℕ

-- The loop over the checks: `selected`, at which it breaks off, and the first `warning` before that.
unfoldable pub run_checks : ℕ → ℕ → List Check → Option Finding → Option Finding × Option Finding
run_checks ratio amount [] warning = (none, warning)
run_checks ratio amount (c ∷ cs) warning = elim c.limit [
  | none ↦ run_checks ratio amount cs warning
  | some limit ↦
      let projected = c.already_spent + amount in
      let here : Finding = record {
        scope = c.scope;
        limit = limit;
        already_spent = c.already_spent;
        projected = projected;
      } in
      let noted =
        if ltb 0 limit && leb (limit * ratio) (projected * one) && is_none warning
        then some here
        else warning in
      let rest = run_checks ratio amount cs noted in
      if ltb limit projected then (some here, warning) else rest
]

abbrev pub bare : BudgetGuardDecision → Option ℕ → BudgetEvaluation
bare decision cost = record {
  decision = decision;
  estimated_cost_usd = cost;
  limiting_scope = none;
  budget_usd = none;
  current_spend_usd = none;
  projected_spend_usd = none;
  exceeded_by_usd = none;
}

abbrev pub found : BudgetGuardDecision → ℕ → Finding → Option ℕ → BudgetEvaluation
found decision amount f exceeded = record {
  decision = decision;
  estimated_cost_usd = some amount;
  limiting_scope = some f.scope;
  budget_usd = some f.limit;
  current_spend_usd = some f.already_spent;
  projected_spend_usd = some f.projected;
  exceeded_by_usd = exceeded;
}

abbrev pub conclude : ℕ → Option Finding × Option Finding → BudgetEvaluation
conclude amount (some f, warning) =
    found BudgetGuardDecision.block amount f (some (f.projected - f.limit))
conclude amount (none, some f) = found BudgetGuardDecision.warn amount f none
conclude amount (none, none) = bare BudgetGuardDecision.allow (some amount)

-- `estimate.estimated_cost_usd or Decimal(0)`
abbrev pub amount_of : CostEstimate → ℕ
amount_of estimate = or_else estimate.estimated_cost_usd 0

-- the two early returns, and what the checks come to
abbrev pub by_status : PricingStatus → ℕ → BudgetEvaluation → BudgetEvaluation
by_status PricingStatus.unknown amount checked = bare BudgetGuardDecision.unknown_cost none
by_status PricingStatus.not_billable amount checked = bare BudgetGuardDecision.allow (some amount)
by_status _ amount checked = checked

unfoldable pub evaluate_budget :
    CostEstimate → BudgetPolicy → Option SpendSnapshot → BudgetEvaluation
unfolding checks
evaluate_budget estimate policy spend =
    let amount = amount_of estimate in
    by_status estimate.pricing_status amount
      (conclude amount (run_checks policy.warning_ratio amount (checks policy spend) none))
