-- ===== src/Orchestration/Tests.antt =====
-- Runs of the orchestration modules at concrete inputs, and the theorems applied there.
use soloscale_ai_os.Prelude.{
  ◌≡◌, refl, ap, ◌∙◌, true, false, not, ◌||◌, Option, none, some, List, [], ◌∷◌, ◌++◌, String,
  str_eq, filter_by, filter_by-append, any, Result, ok, err, arith, if◌then◌else◌,
}
use soloscale_ai_os.Prelude.Text.{Text, codes, strip}
use soloscale_ai_os.Orchestration.Models.{
  TaskStatus, RiskLevel, Surface, TaskEnvelope, RunEvent, validate_transition_event,
}
use soloscale_ai_os.Orchestration.StateMachine.{invalid_transition, is_allowed, validate_transition}
use soloscale_ai_os.Orchestration.StateMachine.Gates.{
  Reaches, here, next, past_execution, can_close,
}
use soloscale_ai_os.Orchestration.Router.{route_task, surface_eq}
use soloscale_ai_os.Orchestration.Router.Surfaces.{names, capable-route_task}
use soloscale_ai_os.Orchestration.EventStore.{ReadError, replay}
use soloscale_ai_os.Orchestration.EventStore.Replay.{IsWritable, append_all, replay-append_all}
use soloscale_ai_os.Orchestration.Service.{
  EventLog, Call, ServiceError, make_event, is_prior, admit, transition, run_calls,
}
use soloscale_ai_os.Orchestration.Service.History.{
  Extends, transition-Extends, IsGoverned-empty_log,
}
use soloscale_ai_os.Orchestration.Service.Chains.{Chain}
use soloscale_ai_os.Orchestration.Service.Approval.{approves, approved_before_execution}

abbrev task_at : TaskStatus → TaskEnvelope
task_at status = record {
  id = "task-1";
  title = "Add a retry budget";
  goal = "Bound the retries of the importer";
  repository = some "soloscale";
  requested_paths = [];
  risk = RiskLevel.high;
  requires_local_files = true;
  requires_terminal = false;
  requires_realtime = true;
  requires_scheduled_execution = false;
  plugin_can_complete = false;
  plugin_name = none;
  high_risk_action = false;
  irreversible_action = false;
  public_action = false;
  constraints = [];
  frozen_decisions = [];
  required_changes = [];
  acceptance_criteria = [];
  tests_to_run = [];
  non_goals = [];
  branch = none;
  status = status;
  created_at = 0;
}

-- The runtime is primary, Codex and a person are secondary.
routed : (route_task (task_at TaskStatus.new)).secondary ≡ Surface.codex ∷ Surface.human ∷ []
unfolding route_task
routed = refl

capable-route_task_example :
    let route = route_task (task_at TaskStatus.new) in
    (surface_eq route.primary Surface.runtime ≡ true)
    × (surface_eq route.primary Surface.codex ≡ false)
    × (surface_eq route.primary Surface.plugin ≡ false)
    × (names Surface.codex route.secondary ≡ true)
    × (names route.primary route.secondary ≡ false)
capable-route_task_example = capable-route_task (task_at TaskStatus.new)

abbrev to_approved : Reaches TaskStatus.new TaskStatus.approved
unfolding is_allowed
to_approved =
    next {t = TaskStatus.planned}
      (next {t = TaskStatus.triaged} (next {t = TaskStatus.new} here refl) refl) refl

abbrev to_fixing : Reaches TaskStatus.new TaskStatus.fixing
unfolding is_allowed
to_fixing =
    next {t = TaskStatus.verifying}
      (next {t = TaskStatus.executing} (next {t = TaskStatus.approved} to_approved refl) refl) refl

can_close_example : Reaches TaskStatus.blocked TaskStatus.closed
can_close_example = can_close TaskStatus.blocked (λ e. cc)

-- A log that is the list of its events.
list_replay-append :
    (log : List RunEvent) (e : RunEvent) (run : String) (es : List RunEvent)
    → validate_transition_event e ≡ true
    → ◌≡◌ {A = Result ReadError (List RunEvent)}
        (ok (filter_by (λ x. str_eq x.run_id run) log))
        (ok es)
    → ◌≡◌ {A = Result ReadError (List RunEvent)}
        (ok (filter_by (λ x. str_eq x.run_id run) (log ++ e ∷ [])))
        (ok (es ++ (if str_eq e.run_id run then e ∷ [] else [])))
list_replay-append log e run es v h =
    let same : filter_by (λ x. str_eq x.run_id run) log ≡ es = cc in
    ap ok (
      filter_by-append (λ x. str_eq x.run_id run) log (e ∷ [])
      ∙ ap (λ fs. fs ++ (if str_eq e.run_id run then e ∷ [] else [])) same)

abbrev list_log : EventLog
list_log = record {
  Log = List RunEvent;
  empty_log = [];
  replay = λ log run. ok (filter_by (λ x. str_eq x.run_id run) log);
  append = λ log e. log ++ e ∷ [];
  replay-empty_log = λ run. refl;
  replay-append = list_replay-append;
}

abbrev call_to : TaskStatus → TaskStatus → Option Text → Call
call_to status target approval = record {
  task = task_at status;
  target = target;
  run_id = "run-1";
  actor = "operator";
  evidence_receipt = codes " receipt ";
  approval_receipt = approval;
  now = 7;
}

-- The second call to EXECUTING brings an approval; the first does not, and is refused.
abbrev calls : List Call
calls =
    call_to TaskStatus.new TaskStatus.triaged none
    ∷ call_to TaskStatus.triaged TaskStatus.planned none
    ∷ call_to TaskStatus.planned TaskStatus.approved none
    ∷ call_to TaskStatus.approved TaskStatus.executing (some (codes "  "))
    ∷ call_to TaskStatus.approved TaskStatus.executing (some (codes "approved"))
    ∷ call_to TaskStatus.executing TaskStatus.verifying none
    ∷ []

refused_without_approval :
    admit [] (call_to TaskStatus.new TaskStatus.executing none)
    ≡ err (ServiceError.not_allowed (invalid_transition TaskStatus.new TaskStatus.executing))
unfolding admit validate_transition is_allowed
refused_without_approval = refl

approved_before_execution_example :
    (es : List RunEvent) × (list_log.replay (run_calls list_log [] calls) "run-1" ≡ ok es)
    × (t : TaskStatus) × Chain TaskStatus.new (filter_by (is_prior "task-1") es) t
    × (not (past_execution t) || any approves (filter_by (is_prior "task-1") es) ≡ true)
approved_before_execution_example = approved_before_execution list_log calls "run-1" "task-1"

first_transition :
    transition list_log [] (call_to TaskStatus.new TaskStatus.triaged none)
    ≡ ok (
      make_event (call_to TaskStatus.new TaskStatus.triaged none),
      task_at TaskStatus.triaged,
      make_event (call_to TaskStatus.new TaskStatus.triaged none) ∷ [],
    )
unfolding transition admit validate_transition is_allowed make_event validate_transition_event strip
first_transition = refl

transition-Extends_example :
    Extends list_log []
      (call_to TaskStatus.new TaskStatus.triaged none)
      (make_event (call_to TaskStatus.new TaskStatus.triaged none))
      (task_at TaskStatus.triaged)
      (make_event (call_to TaskStatus.new TaskStatus.triaged none) ∷ [])
transition-Extends_example =
    transition-Extends list_log [] (call_to TaskStatus.new TaskStatus.triaged none)
      (make_event (call_to TaskStatus.new TaskStatus.triaged none)) (task_at TaskStatus.triaged)
      (make_event (call_to TaskStatus.new TaskStatus.triaged none) ∷ [])
      (IsGoverned-empty_log list_log) first_transition

-- A codec for one event.
abbrev sample : RunEvent
sample = record {
  run_id = "run-1";
  task_id = "task-1";
  event_type = "note";
  status = TaskStatus.new;
  timestamp = 0;
  actor = "operator";
  from_status = none;
  to_status = none;
  evidence_receipt = none;
  approval_receipt = none;
  payload = [];
}

abbrev dump_sample : RunEvent → Text
dump_sample e = codes "{}"

abbrev parse_sample : Text → Option RunEvent
parse_sample s = some sample

sample-IsWritable : IsWritable dump_sample parse_sample sample
unfolding strip
sample-IsWritable = record {
  on_one_line = omega arith;
  trimmed = refl;
  visible = refl;
  parsed = refl;
}

replay-append_all_example :
    (replay parse_sample none (append_all dump_sample parse_sample none (sample ∷ sample ∷ []))
      ≡ ok (sample ∷ sample ∷ []))
    × (replay parse_sample
          (some "run-2")
          (append_all dump_sample parse_sample none (sample ∷ sample ∷ []))
        ≡ ok (filter_by (λ e. str_eq e.run_id "run-2") (sample ∷ sample ∷ [])))
replay-append_all_example =
    replay-append_all dump_sample parse_sample (sample ∷ sample ∷ []) "run-2"
      (sample-IsWritable, (sample-IsWritable, tt))
