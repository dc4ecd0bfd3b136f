-- ===== src/SkillOs/Receipt/Tests.antt =====
-- Receipts of the samples, and the theorems applied there.
use soloscale_ai_os.Prelude.{
  ◌≡◌, ◌||◌, refl, true, false, none, [], ◌∷◌, ◌++◌, ap, String, contains, subset, is_unique,
  without, dedupe, ok, ok_inj, sym,
}
use soloscale_ai_os.Prelude.Text.{
  codes, squeeze, occurs_in, first_word, text_eq, strip, starts_with,
}
use soloscale_ai_os.SkillOs.Models.{
  SkillRunStatus, run_status_is, SkillRegistryEntry, validate_selected_route, no_outcome,
  preserve_state_boundaries, validate_envelope, validate_phase_route,
}
use soloscale_ai_os.SkillOs.Registry.{get, get_dependencies}
use soloscale_ai_os.SkillOs.Order.{dependency_order}
use soloscale_ai_os.SkillOs.Request.{deployment_intent, application_intent, paid_intent}
use soloscale_ai_os.SkillOs.Request.Envelope.{
  normalize_request, requested_artifacts, workstream, available_inputs, completion,
}
use soloscale_ai_os.SkillOs.Route.{route_skill_request}
use soloscale_ai_os.SkillOs.Route.Intents.{reason_of, choose_skills}
use soloscale_ai_os.SkillOs.Route.ModelRoute.{choose_model_route}
use soloscale_ai_os.SkillOs.Receipt.{
  has_shape, is_receipt_id, validate_receipt_fields, validate_boundaries, PersistCall, SkillFiles,
  SkillRunReceipt, is_filled, is_digest, validate_receipt, persist_route_receipt,
}
use soloscale_ai_os.SkillOs.Receipt.Boundaries.{validate_receipt-external}
use soloscale_ai_os.SkillOs.Receipt.Accepted.{HasGates}
use soloscale_ai_os.SkillOs.Receipt.Written.{persist_route_receipt-written}
use soloscale_ai_os.SkillOs.Samples.{
  value, shipped, lower, zeros, tools, request, the_route, the_route_eq,
}

abbrev call : PersistCall
call = record {
  root_error = none;
  receipt_id = "skill-run-20260101T000000Z-00000000";
  now = 7;
  repositories = [];
  dump = codes "{}";
  run_fails = false;
  receipt_fails = false;
}

shipped_gates : HasGates shipped
unfolding get contains
shipped_gates = record {
  linkedin = λ e found. (
    publish,
    sym (ap (λ (e : SkillRegistryEntry). contains publish e.human_gates) (ok_inj found)),
  );
  x_thread = λ e found. (
    publish,
    sym (ap (λ (e : SkillRegistryEntry). contains publish e.human_gates) (ok_inj found)),
  );
  resume = λ e found.
      (review, sym (ap (λ (e : SkillRegistryEntry). contains review e.human_gates) (ok_inj found)));
  distillation = λ e found. (
    promote,
    sym (ap (λ (e : SkillRegistryEntry). contains promote e.human_gates) (ok_inj found)),
  );
}
  where
    publish : String
    publish = "Explicit PUBLISH confirmation immediately before platform calls"

    review : String
    review = "Application review before submission"

    promote : String
    promote = "Skill promotion or version-update approval"

zeros_digest : is_digest zeros ≡ true
unfolding is_digest
zeros_digest = refl

request_folds : lower (squeeze request) ≡ squeeze (lower request)
unfolding squeeze
request_folds = refl

receipt_id_shaped : is_receipt_id call.receipt_id ≡ true
unfolding is_receipt_id has_shape
receipt_id_shaped = refl

abbrev no_files : SkillFiles
no_files = record { runs = []; receipts = [] }

persist_route_receipt-written_example :
    (receipt : SkillRunReceipt) × (persist_route_receipt tools call the_route no_files ≡ (
      ok receipt,
      record {
        runs = no_files.runs ++ (call.receipt_id, the_route) ∷ [];
        receipts = no_files.receipts ++ receipt ∷ [];
      },
    ))
    × (validate_receipt receipt ≡ true)
    × (receipt.outcome_state ≡ no_outcome)
    × (run_status_is receipt.final_status SkillRunStatus.awaiting_human_gate ≡ (
        is_filled the_route.unmet_preconditions
        || the_route.task.publication_intent
        || the_route.task.paid_api_intent
        || the_route.task.deployment_intent
        || the_route.task.application_submission_intent))
persist_route_receipt-written_example =
    persist_route_receipt-written tools "skill-task-1" shipped request the_route call no_files
      zeros_digest request_folds shipped_gates the_route_eq receipt_id_shaped refl refl refl

-- The receipt of a run that has published with approval.
abbrev published : SkillRunReceipt
published = record {
  receipt_id = call.receipt_id;
  task_id = the_route.task.task_id;
  normalized_task_envelope = the_route.task;
  selected_skills = the_route.primary_skill ∷ the_route.supporting_skills;
  routing_reason = the_route.routing_reason;
  phase_routes = the_route.model_route;
  tools_and_commands = [];
  repositories = [];
  input_hashes = ("operator_request", zeros) ∷ [];
  output_artifacts = [];
  deterministic_checks = [];
  human_gates = [];
  approvals = "PUBLISH" ∷ [];
  final_status = SkillRunStatus.completed;
  started_at = 7;
  completed_at = 9;
  external_outcome_ids = "urn:li:share:1" ∷ [];
  outcome_state = record {
    workflow_completed = true;
    artifact_generated = true;
    human_approved = true;
    externally_published_or_submitted = true;
    external_outcome_observed = false;
  };
}

published_kept : preserve_state_boundaries published.outcome_state ≡ true
unfolding preserve_state_boundaries
published_kept = refl

published_valid : validate_receipt published ≡ true
unfolding validate_receipt validate_receipt_fields validate_boundaries is_receipt_id has_shape value
    route_skill_request squeeze choose_skills dependency_order get_dependencies get contains without
    normalize_request deployment_intent application_intent paid_intent requested_artifacts
    workstream available_inputs completion validate_envelope choose_model_route validate_phase_route
    starts_with validate_selected_route is_unique subset dedupe reason_of occurs_in first_word
    text_eq strip
published_valid = refl

validate_receipt-external_example :
    (published.outcome_state.artifact_generated ≡ true)
    × (published.outcome_state.human_approved ≡ true)
    × (is_filled published.approvals ≡ true)
    × (is_filled published.external_outcome_ids ≡ true)
    × (run_status_is published.final_status SkillRunStatus.routed ≡ false)
    × (run_status_is published.final_status SkillRunStatus.awaiting_human_gate ≡ false)
validate_receipt-external_example =
    validate_receipt-external published published_kept published_valid refl
