-- ===== src/MediaCost/Authorization.antt =====
-- `authorize_paid_operation` and `validate_paid_authorization` of media_cost.py. A subject is a value of
-- any type; the digests of a subject with its operation, and of an estimate, are arguments.
use soloscale_ai_os.Prelude.{
  ℕ, ◌≡◌, refl, ap, ◌∙◌, ◌⊎◌, Bool, true, false, not, ◌&&◌, ◌||◌, Option, some, String, str_eq,
  str_eq_refl, Result, ok, err, ◌>>=◌, ◌>>◌, raise_if, is_ok, arith, if◌then◌else◌,
}
use soloscale_ai_os.MediaCost.Models.{
  BudgetGuardDecision, MediaCostError, budget_blocked, other_operation, other_request, CostEstimate,
  validate_pricing_semantics, BudgetPolicy, SpendSnapshot, BudgetEvaluation,
  PaidOperationAuthorization,
}
use soloscale_ai_os.MediaCost.Budget.{amount_of, evaluate_budget}
use soloscale_ai_os.MediaCost.Budget.Limits.{IsWithinLimits, may_proceed, proceeds-IsWithin}

-- The decision that is authorized, and whether by an override.
unfoldable pub decide_once :
    Bool → BudgetGuardDecision → Result MediaCostError (BudgetGuardDecision × Bool)
decide_once allow_once BudgetGuardDecision.allow = ok (BudgetGuardDecision.allow, false)
decide_once allow_once BudgetGuardDecision.warn = ok (BudgetGuardDecision.warn, false)
decide_once allow_once decision =
    if allow_once then ok (BudgetGuardDecision.allow, true) else err (budget_blocked decision)

module _ {Subject : Type 0} (operation_subject_sha256 : String → Subject → String)
    (estimate_sha256 : CostEstimate → String) where
  unfoldable pub authorize_paid_operation :
      ℕ
      → CostEstimate
      → BudgetEvaluation
      → Subject
      → Bool
      → Result MediaCostError PaidOperationAuthorization
  authorize_paid_operation now estimate evaluation subject allow_once = do
    decided ← decide_once allow_once evaluation.decision
    ok (record {
      operation = estimate.operation;
      subject_sha256 = operation_subject_sha256 estimate.operation subject;
      estimate_sha256 = estimate_sha256 estimate;
      decision = decided.0;
      override_once = decided.1;
      granted_at = now;
    })

  unfoldable pub validate_paid_authorization :
      PaidOperationAuthorization → String → Subject → Result MediaCostError (Unit {0})
  validate_paid_authorization authorization operation subject = do
    raise_if (not (str_eq authorization.operation operation)) other_operation
    raise_if
        (not (str_eq authorization.subject_sha256 (operation_subject_sha256 operation subject)))
        other_request

  authorized_fields :
      (now : ℕ) (estimate : CostEstimate) (evaluation : BudgetEvaluation) (subject : Subject)
      (allow_once : Bool) (a : PaidOperationAuthorization)
      → authorize_paid_operation now estimate evaluation subject allow_once ≡ ok a
      → (a.operation ≡ estimate.operation)
        × (a.subject_sha256 ≡ operation_subject_sha256 estimate.operation subject)
        × (a.override_once ≡ not (may_proceed evaluation.decision))
        × (may_proceed evaluation.decision || allow_once ≡ true)
  unfolding authorize_paid_operation decide_once
  authorized_fields now estimate evaluation subject allow_once a h = ground arith

  -- Without an override, an operation that the guard's verdict authorizes costs nothing, or respects
  -- the limits of the operation, the story, the video, the day and the month, as far as they are
  -- configured.
  pub authorized-IsWithin :
      (now : ℕ) (estimate : CostEstimate) (policy : BudgetPolicy) (spend : Option SpendSnapshot)
      (subject : Subject) (a : PaidOperationAuthorization)
      → validate_pricing_semantics estimate ≡ true
      → authorize_paid_operation now estimate (evaluate_budget estimate policy spend) subject false
        ≡ ok a
      → (a.override_once ≡ false)
        × ((estimate.estimated_cost_usd ≡ some 0)
            ⊎ IsWithinLimits (amount_of estimate) policy spend)
  authorized-IsWithin now estimate policy spend subject a valid h =
      let (op, sub, over, may) =
        authorized_fields now estimate (evaluate_budget estimate policy spend) subject false a h in
      let proceeds : may_proceed (evaluate_budget estimate policy spend).decision ≡ true =
        ground arith in
      (over ∙ ap not proceeds, proceeds-IsWithin estimate policy spend valid proceeds)

  -- An authorization is accepted for the operation and the subject that it was given for, and for no
  -- other operation, and for no subject with another digest, whether it was an override or not.
  pub validate-authorize :
      (now : ℕ) (estimate : CostEstimate) (evaluation : BudgetEvaluation) (subject other : Subject)
      (allow_once : Bool) (operation : String) (a : PaidOperationAuthorization)
      → authorize_paid_operation now estimate evaluation subject allow_once ≡ ok a
      → (validate_paid_authorization a estimate.operation subject ≡ ok tt)
        × (is_ok (validate_paid_authorization a operation other)
            ≡ str_eq estimate.operation operation
              && str_eq
                  (operation_subject_sha256 estimate.operation subject)
                  (operation_subject_sha256 operation other))
  unfolding validate_paid_authorization
  validate-authorize now estimate evaluation subject other allow_once operation a h =
      let (op, sub, over, may) = authorized_fields now estimate evaluation subject allow_once a h in
      rw
        (
          op,
          sub,
          str_eq_refl estimate.operation,
          str_eq_refl (operation_subject_sha256 estimate.operation subject),
        )
        (refl, ground arith)
