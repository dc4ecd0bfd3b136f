-- ===== src/Orchestration/Service.antt =====
-- orchestration.py: `OrchestrationService.transition`, over any event log that keeps the laws below.
pub mod FileLog
pub mod Chains
pub mod History
pub mod Approval
use soloscale_ai_os.Prelude.{
  ℕ, ◌≡◌, Bool, true, false, not, ◌&&◌, Option, none, some, List, [], ◌∷◌, ◌++◌, String, str_eq,
  filter_by, last?, Result, ok, err, ◌>>=◌, ◌>>◌, raise_if, if◌then◌else◌,
}
use soloscale_ai_os.Prelude.Text.{Text, strip, is_empty, codes}
use soloscale_ai_os.Orchestration.Models.{
  TaskStatus, status_eq, status_value, TaskEnvelope, RunEvent, state_transition, is_missing,
  validate_transition_event,
}
use soloscale_ai_os.Orchestration.StateMachine.{InvalidTransition, Transition, validate_transition}
use soloscale_ai_os.Orchestration.EventStore.{ReadError}

-- What the service uses of its event store: replaying one run, and appending an event.
pub record EventLog : Type 1 where
  pub Log : Type 0
  pub empty_log : Log
  pub replay : Log → String → Result ReadError (List RunEvent)
  pub append : Log → RunEvent → Log
  pub replay-empty_log : (run : String) → replay empty_log run ≡ ok []
  pub replay-append :
      (log : Log) (e : RunEvent) (run : String) (es : List RunEvent)
      → validate_transition_event e ≡ true
      → replay log run ≡ ok es
      → replay (append log e) run ≡ ok (es ++ (if str_eq e.run_id run then e ∷ [] else []))

-- What `transition` may raise.
pub data ServiceError : Type 0 where
  state_continuity blank_evidence approval_required rejected_event : ServiceError
  not_allowed : InvalidTransition → ServiceError
  unreadable : ReadError → ServiceError

-- The arguments of a call of `transition`, and the time of the event.
pub record Call : Type 0 where
  pub task : TaskEnvelope
  pub target : TaskStatus
  pub run_id : String
  pub actor : String
  pub evidence_receipt : Text
  pub approval_receipt : Option Text
  pub now : ℕ

-- `approval_receipt.strip() if approval_receipt else None`
abbrev pub normalize : Option Text → Option Text
normalize none = none
normalize (some a) = if is_empty a then none else some (strip a)

abbrev approval_entry : Option Text → List (String × Text)
approval_entry none = []
approval_entry (some a) = ("approval_receipt", a) ∷ []

-- `RunEvent(...)` as the service builds it
unfoldable pub make_event : Call → RunEvent
make_event call =
    let evidence = strip call.evidence_receipt in
    let approval = normalize call.approval_receipt in
    record {
      run_id = call.run_id;
      task_id = call.task.id;
      event_type = state_transition;
      status = call.target;
      timestamp = call.now;
      actor = call.actor;
      from_status = some call.task.status;
      to_status = some call.target;
      evidence_receipt = some evidence;
      approval_receipt = approval;
      payload =
          ("from_status", codes (status_value call.task.status))
          ∷ ("to_status", codes (status_value call.target))
          ∷ ("evidence_receipt", evidence)
          ∷ approval_entry approval;
    }

-- the events that continue the task's history
abbrev pub is_prior : String → RunEvent → Bool
is_prior task_id e = str_eq e.task_id task_id && str_eq e.event_type state_transition

-- `prior_transitions[-1].to_status is current`, and NEW where there is no prior transition
abbrev pub continues : List RunEvent → TaskStatus → Bool
continues prior current = elim (last? prior) [
  | none ↦ status_eq current TaskStatus.new
  | some e ↦ elim e.to_status [ none ↦ false | some s ↦ status_eq s current ]
]

abbrev of_store {ℓ} : {A : Type ℓ} → Result ReadError A → Result ServiceError A
of_store (ok a) = ok a
of_store (err e) = err (unreadable e)

abbrev of_machine {ℓ} : {A : Type ℓ} → Result InvalidTransition A → Result ServiceError A
of_machine (ok a) = ok a
of_machine (err e) = err (not_allowed e)

-- The guards of `transition`, in their order, on the events of the run.
unfoldable pub admit : List RunEvent → Call → Result ServiceError (Unit {0})
admit events call = do
  raise_if (not (continues (filter_by (is_prior call.task.id) events) call.task.status))
      state_continuity
  checked ← of_machine (validate_transition call.task.status call.target)
  raise_if (is_empty (strip call.evidence_receipt)) blank_evidence
  raise_if
      (status_eq call.target TaskStatus.executing && is_missing (normalize call.approval_receipt))
      approval_required
  raise_if (not (validate_transition_event (make_event call))) rejected_event

module _ (store : EventLog) where
  open store use {Log, replay, append}

  -- The event, the task as the call leaves it, and the log.
  unfoldable pub transition : Log → Call → Result ServiceError (RunEvent × TaskEnvelope × Log)
  transition log call = do
    events ← of_store (replay log call.run_id)
    admit events call
    let event = make_event call
    ok (event, record call.task { status = call.target }, append log event)

  -- the log after a call; one that raises leaves it as it is
  unfoldable pub after_call : Log → Call → Log
  after_call log call = elim (transition log call) [ ok (e, task, after) ↦ after | err x ↦ log ]

  -- Calls one after another.
  unfoldable pub run_calls : Log → List Call → Log
  run_calls log [] = log
  run_calls log (call ∷ calls) = run_calls (after_call log call) calls
