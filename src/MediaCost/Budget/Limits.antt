-- ===== src/MediaCost/Budget/Limits.antt =====
-- What the decisions of the guard mean for the limits.
use soloscale_ai_os.Prelude.{
  ℕ, ◌+◌, ◌≡◌, ◌≤◌, ◌⊎◌, inl, inr, refl, sym, ap, subst, ◌∙◌, Bool, true, false, ◌&&◌, Option, none,
  some, List, [], ◌∷◌, All, find_by, String, arith,
}
use soloscale_ai_os.MediaCost.Models.{
  PricingStatus, BudgetGuardDecision, CostEstimate, price_agrees, BudgetPolicy, SpendSnapshot,
  BudgetEvaluation, validate_pricing_semantics,
}
use soloscale_ai_os.MediaCost.Budget.{
  Check, checks, run_checks, conclude, amount_of, by_status, evaluate_budget,
}
use soloscale_ai_os.MediaCost.Budget.Loop.{exceeds, stopped, decide, loop_lem}

abbrev is_priced : PricingStatus → Bool
is_priced PricingStatus.known = true
is_priced PricingStatus.estimated = true
is_priced _ = false

-- For a priced operation, the loop with its early exit and the warning that it carries comes to the
-- plain reading: BLOCK at the first limit that the amount goes over, with the excess, else WARN at
-- the first one that it comes near, else ALLOW.
pub evaluate_budget_lem :
    (estimate : CostEstimate) (policy : BudgetPolicy) (spend : Option SpendSnapshot)
    → is_priced estimate.pricing_status ≡ true
    → evaluate_budget estimate policy spend
      ≡ decide policy.warning_ratio (amount_of estimate) (checks policy spend)
unfolding evaluate_budget
evaluate_budget_lem estimate policy spend h =
    priced estimate.pricing_status h
    ∙ loop_lem policy.warning_ratio (amount_of estimate) (checks policy spend)
  where
    priced :
        (s : PricingStatus)
        → is_priced s ≡ true
        → let e =
            conclude
              (amount_of estimate)
              (run_checks policy.warning_ratio (amount_of estimate) (checks policy spend) none) in
          by_status s (amount_of estimate) e ≡ e
    priced PricingStatus.known k = refl
    priced PricingStatus.estimated k = refl
    priced PricingStatus.unknown k = cc
    priced PricingStatus.not_billable k = cc

-- the guard lets the operation go ahead
abbrev pub may_proceed : BudgetGuardDecision → Bool
may_proceed BudgetGuardDecision.allow = true
may_proceed BudgetGuardDecision.warn = true
may_proceed _ = false

abbrev pub IsInside : Option ℕ → ℕ → Type 0
IsInside none projected = Unit
IsInside (some limit) projected = projected ≤ limit

-- the amount stays inside the limit of a check, if it has one
abbrev pub IsWithin : ℕ → Check → Type 0
IsWithin amount c = IsInside c.limit (c.already_spent + amount)

none_exceeded :
    (amount : ℕ) (cs : List Check) → find_by (exceeds amount) cs ≡ none → All (IsWithin amount) cs
none_exceeded amount [] h = tt
none_exceeded amount (c ∷ cs) h =
    (at c.scope c.limit c.already_spent (ground arith), none_exceeded amount cs (ground arith))
  where
    at :
        (scope : String) (limit : Option ℕ) (spent : ℕ)
        → exceeds amount (record { scope = scope; limit = limit; already_spent = spent }) ≡ false
        → IsInside limit (spent + amount)
    at scope none spent k = tt
    at scope (some l) spent k = ground arith

stopped_lem :
    (amount : ℕ) (far near : Option Check)
    → may_proceed (stopped amount far near).decision ≡ true
    → far ≡ none
stopped_lem amount none near h = refl
stopped_lem amount (some c) near h = cc

-- what a snapshot says has been spent, and nothing where there is none
abbrev pub spent : (SpendSnapshot → ℕ) → Option SpendSnapshot → ℕ
spent f none = 0
spent f (some s) = f s

-- The five limits, each against the spend of its own scope.
pub record IsWithinLimits (amount : ℕ) (policy : BudgetPolicy) (spend : Option SpendSnapshot)
    : Type 0 where
  pub operation : IsInside policy.per_paid_operation_usd amount
  pub story : IsInside policy.per_story_usd (spent (λ s. s.story_usd) spend + amount)
  pub video : IsInside policy.per_video_usd (spent (λ s. s.video_usd) spend + amount)
  pub day : IsInside policy.daily_usd (spent (λ s. s.daily_usd) spend + amount)
  pub month : IsInside policy.monthly_usd (spent (λ s. s.monthly_usd) spend + amount)

from_zero : (amount : ℕ) → 0 + amount ≡ amount
from_zero amount = omega arith

checks-IsWithinLimits :
    (amount : ℕ) (policy : BudgetPolicy) (spend : Option SpendSnapshot)
    → All (IsWithin amount) (checks policy spend)
    → IsWithinLimits amount policy spend
unfolding checks
checks-IsWithinLimits amount policy none h = record {
  operation = subst (IsInside policy.per_paid_operation_usd) (from_zero amount) h.0;
  story = h.1.0;
  video = h.1.1.0;
  day = h.1.1.1.0;
  month = h.1.1.1.1.0;
}
checks-IsWithinLimits amount policy (some s) h = record {
  operation = subst (IsInside policy.per_paid_operation_usd) (from_zero amount) h.0;
  story = h.1.0;
  video = h.1.1.0;
  day = h.1.1.1.0;
  month = h.1.1.1.1.0;
}

no_cost : (cost : Option ℕ) → price_agrees PricingStatus.not_billable cost ≡ true → cost ≡ some 0
unfolding price_agrees
no_cost none k = cc
no_cost (some cost) k = ground arith

-- What the guard lets through costs nothing, or respects the limit of an operation, and leaves the
-- limits of the story, of the video, of the day and of the month respected, each with what has been
-- spent on that story, video, day or month; a limit that is not configured asks for nothing.
pub proceeds-IsWithin :
    (estimate : CostEstimate) (policy : BudgetPolicy) (spend : Option SpendSnapshot)
    → validate_pricing_semantics estimate ≡ true
    → may_proceed (evaluate_budget estimate policy spend).decision ≡ true
    → (estimate.estimated_cost_usd ≡ some 0) ⊎ IsWithinLimits (amount_of estimate) policy spend
unfolding evaluate_budget validate_pricing_semantics
proceeds-IsWithin estimate policy spend valid h =
    at estimate.pricing_status (agreed _ _ valid)
      (conclude (amount_of estimate)
        (run_checks policy.warning_ratio (amount_of estimate) (checks policy spend) none))
      (loop_lem policy.warning_ratio (amount_of estimate) (checks policy spend)) h
  where
    agreed : (a b : Bool) → a && b ≡ true → b ≡ true
    agreed a b k = ground arith

    within :
        (e : BudgetEvaluation)
        → e ≡ decide policy.warning_ratio (amount_of estimate) (checks policy spend)
        → may_proceed e.decision ≡ true
        → IsWithinLimits (amount_of estimate) policy spend
    within e k proceeds = checks-IsWithinLimits (amount_of estimate) policy spend (
        none_exceeded (amount_of estimate) (checks policy spend) (
          stopped_lem (amount_of estimate) _ _
            (ap (λ (x : BudgetEvaluation). may_proceed x.decision) (sym k) ∙ proceeds)))

    at :
        (s : PricingStatus)
        → price_agrees s estimate.estimated_cost_usd ≡ true
        → (e : BudgetEvaluation)
        → e ≡ decide policy.warning_ratio (amount_of estimate) (checks policy spend)
        → may_proceed (by_status s (amount_of estimate) e).decision ≡ true
        → (estimate.estimated_cost_usd ≡ some 0) ⊎ IsWithinLimits (amount_of estimate) policy spend
    at PricingStatus.known k e l p = inr (within e l p)
    at PricingStatus.estimated k e l p = inr (within e l p)
    at PricingStatus.unknown k e l p = cc
    at PricingStatus.not_billable k e l p = inl (no_cost _ k)
