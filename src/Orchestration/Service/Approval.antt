-- ===== src/Orchestration/Service/Approval.antt =====
-- No task comes past EXECUTING without a recorded approval.
use soloscale_ai_os.Prelude.{
  ◌≡◌, refl, Bool, true, false, not, ◌&&◌, ◌||◌, List, [], ◌∷◌, String, filter_by, any, ok, arith,
  Bool-cases, inl, inr,
}
use soloscale_ai_os.Orchestration.Models.{TaskStatus, status_eq, status_eq_refl, RunEvent}
use soloscale_ai_os.Prelude.{none, some}
use soloscale_ai_os.Orchestration.StateMachine.Gates.{past_execution, enter_execution}
use soloscale_ai_os.Orchestration.Service.{EventLog, Call, is_prior, run_calls}
use soloscale_ai_os.Orchestration.Service.History.{run_calls-IsGoverned, IsGoverned-empty_log}
use soloscale_ai_os.Orchestration.Service.Chains.{has_text, IsStep, Chain}

-- an event into EXECUTING that carries an approval
abbrev pub approves : RunEvent → Bool
approves e =
    elim e.to_status [ none ↦ false | some s ↦ status_eq s TaskStatus.executing ]
    && has_text e.approval_receipt

enter-approves :
    (s t : TaskStatus) (e : RunEvent)
    → IsStep s e t
    → past_execution s ≡ false
    → past_execution t ≡ true
    → approves e ≡ true
enter-approves s t e step p q =
    let (from, to) = enter_execution s t step.permitted p q in
    let approval : not (has_text e.approval_receipt) ≡ false =
      rw (to, status_eq_refl) at step.approved in
    let stated : has_text e.approval_receipt ≡ true = ground arith in
    rw (step.entered, to, stated, status_eq_refl) refl

Chain-approves :
    (s t : TaskStatus) (es : List RunEvent)
    → Chain s es t
    → past_execution s ≡ false
    → past_execution t ≡ true
    → any approves es ≡ true
Chain-approves s t [] c p q = cc
Chain-approves s t (e ∷ es) (u, step, c) p q = elim (Bool-cases (past_execution u)) [
  | inl past ↦ rw (enter-approves s u e step p past)
  | inr before ↦ ground (arith, Chain-approves u t es c before q)
]

-- Whatever calls are made from an empty log, the replayed transitions of a task in a run form a path
-- of allowed transitions from NEW, and if it ends in EXECUTING or a status behind it, one of them
-- entered EXECUTING with an approval receipt that has more than spaces in it.
pub approved_before_execution :
    (store : EventLog) (calls : List Call) (run task : String)
    → (es : List RunEvent) × (store.replay (run_calls store store.empty_log calls) run ≡ ok es)
      × (t : TaskStatus) × Chain TaskStatus.new (filter_by (is_prior task) es) t
      × (not (past_execution t) || any approves (filter_by (is_prior task) es) ≡ true)
approved_before_execution store calls run task =
    let (es, p, t, chain) =
      run_calls-IsGoverned store store.empty_log calls (IsGoverned-empty_log store) run task in
    (es, p, t, chain, gated t (filter_by (is_prior task) es) chain)
  where
    gated :
        (t : TaskStatus) (es : List RunEvent)
        → Chain TaskStatus.new es t
        → not (past_execution t) || any approves es ≡ true
    gated t es chain = ground (arith, Chain-approves TaskStatus.new t es chain refl)
