-- ===== src/SkillOs/Receipt.antt =====
-- `SkillRunReceipt` of skill_models.py with its validator, and `persist_route_receipt` of skill_os.py on
-- what the private directory holds.
pub mod Accepted
pub mod Fields
pub mod Written
pub mod Boundaries
mod Tests
use soloscale_ai_os.Prelude.{
  ℕ, Bool, true, false, not, ◌&&◌, ◌||◌, Option, none, some, List, [], ◌∷◌, ◌++◌, map, any, all,
  String, str_eq, find_by, ltb, leb, ◌==◌, length, Result, ok, err, ◌>>=◌, ◌>>◌, raise_if,
  if◌then◌else◌,
}
use soloscale_ai_os.Prelude.Text.{Text, codes, strip, is_empty, between}
use soloscale_ai_os.SkillOs.Models.{
  SkillRunStatus, run_status_is, SkillError, validation_error, not_persisted, SkillTaskEnvelope,
  SelectedSkill, PhaseModelRoute, SkillTaskRoute, RunOutcomeState, no_outcome, is_progress,
}
use soloscale_ai_os.SkillOs.Request.{TextTools}
use soloscale_ai_os.SkillOs.Route.{traverse, selected_named}

pub record RepositoryRunState : Type 0 where
  pub repository : String
  pub branch : String
  pub sha : String

pub record ArtifactHash : Type 0 where
  pub artifact_id : String
  pub sha256 : String

pub data CheckStatus : Type 0 where
  check_passed check_failed check_not_run : CheckStatus

pub record DeterministicCheck : Type 0 where
  pub name : String
  pub status : CheckStatus

-- a receipt, less the failures, the retries and the proposed update, which a route leaves as they are
pub record SkillRunReceipt : Type 0 where
  pub receipt_id : String
  pub task_id : String
  pub normalized_task_envelope : SkillTaskEnvelope
  pub selected_skills : List SelectedSkill
  pub routing_reason : List (String × String)
  pub phase_routes : List PhaseModelRoute
  pub tools_and_commands : List String
  pub repositories : List RepositoryRunState
  pub input_hashes : List (String × String)
  pub output_artifacts : List ArtifactHash
  pub deterministic_checks : List DeterministicCheck
  pub human_gates : List String
  pub approvals : List String
  pub final_status : SkillRunStatus
  pub started_at : ℕ
  pub completed_at : ℕ
  pub external_outcome_ids : List String
  pub outcome_state : RunOutcomeState

abbrev pub is_filled {ℓ} : {A : Type ℓ} → List A → Bool
is_filled [] = false
is_filled (x ∷ xs) = true

-- `re.fullmatch(r"[0-9a-f]{64}", digest)`
unfoldable pub is_digest : String → Bool
is_digest digest =
    length (codes digest) == 64 && all (λ c. between 48 57 c || between 97 102 c) (codes digest)

-- `input_hashes.get(key) == digest`
unfoldable pub has_hash : List (String × String) → String → String → Bool
has_hash hashes key digest = elim (find_by (λ (h : String × String). str_eq h.0 key) hashes) [
  | none ↦ false
  | some h ↦ str_eq h.1 digest
]

unfoldable pub validate_hashes : List (String × String) → Bool
unfolding is_digest
validate_hashes hashes =
    is_filled hashes
    && all (λ (h : String × String). not (is_empty (strip (codes h.0))) && is_digest h.1) hashes

-- a character of the shape: `0` stands for a digit, `h` for a lower-case hexadecimal digit
abbrev is_shaped : ℕ → ℕ → Bool
is_shaped s c =
    if s == 48
    then between 48 57 c
    else if s == 104
    then between 48 57 c || between 97 102 c
    else s == c

unfoldable pub has_shape : Text → Text → Bool
has_shape [] [] = true
has_shape (s ∷ shape) (c ∷ text) = is_shaped s c && has_shape shape text
has_shape _ _ = false

-- `^skill-run-[0-9]{8}T[0-9]{6}Z-[0-9a-f]{8}$`
unfoldable pub is_receipt_id : String → Bool
unfolding has_shape
is_receipt_id id = has_shape (codes "skill-run-00000000T000000Z-hhhhhhhh") (codes id)

-- the pattern and the lengths of the fields
unfoldable pub validate_receipt_fields : SkillRunReceipt → Bool
unfolding is_receipt_id
validate_receipt_fields receipt =
    is_receipt_id receipt.receipt_id
    && is_filled receipt.selected_skills
    && is_filled receipt.routing_reason
    && length receipt.phase_routes == 5

-- the validator `validate_receipt` of the model
unfoldable pub validate_boundaries : SkillRunReceipt → Bool
unfolding has_hash validate_hashes
validate_boundaries receipt =
    let state = receipt.outcome_state in
    let awaiting = run_status_is receipt.final_status SkillRunStatus.awaiting_human_gate in
    let completed = run_status_is receipt.final_status SkillRunStatus.completed in
    let routed = run_status_is receipt.final_status SkillRunStatus.routed in
    let failed = run_status_is receipt.final_status SkillRunStatus.failed in
    let external = state.externally_published_or_submitted || state.external_outcome_observed in
    str_eq receipt.task_id receipt.normalized_task_envelope.task_id
    && has_hash receipt.input_hashes "operator_request"
        receipt.normalized_task_envelope.request_sha256
    && not (awaiting && not (is_filled receipt.human_gates))
    && not (completed && not state.workflow_completed)
    && not (routed && is_progress state)
    && not (awaiting && state.workflow_completed)
    && not (awaiting && external)
    && not (failed && state.workflow_completed)
    && not (is_filled receipt.external_outcome_ids && not external)
    && not (state.human_approved && not (is_filled receipt.approvals))
    && not (state.externally_published_or_submitted && not (is_filled receipt.external_outcome_ids))
    && validate_hashes receipt.input_hashes
    && not (ltb receipt.completed_at receipt.started_at)

-- the fields, and the validator of the model
unfoldable pub validate_receipt : SkillRunReceipt → Bool
unfolding validate_receipt_fields validate_boundaries
validate_receipt receipt = validate_receipt_fields receipt && validate_boundaries receipt

-- `immediate_human_gate`
unfoldable pub immediate_human_gate : SkillTaskRoute → Bool
immediate_human_gate route =
    is_filled route.unmet_preconditions
    || route.task.publication_intent
    || route.task.paid_api_intent
    || route.task.deployment_intent
    || route.task.application_submission_intent

-- What a call of `persist_route_receipt` finds outside: whether the private root is refused, the id and
-- the time of the receipt, the state of the repository, and which writes fail. `dump` is the route as
-- JSON.
pub record PersistCall : Type 0 where
  pub root_error : Option SkillError
  pub receipt_id : String
  pub now : ℕ
  pub repositories : List RepositoryRunState
  pub dump : Text
  pub run_fails : Bool
  pub receipt_fails : Bool

abbrev pub passed_check : String → DeterministicCheck
passed_check name = record { name = name; status = CheckStatus.check_passed }

-- the receipt before its validator
unfoldable pub receipt_of :
    TextTools → PersistCall → SkillTaskRoute → List SelectedSkill → SkillRunReceipt
unfolding immediate_human_gate
receipt_of tools call route selected = record {
  receipt_id = call.receipt_id;
  task_id = route.task.task_id;
  normalized_task_envelope = route.task;
  selected_skills = selected;
  routing_reason = route.routing_reason;
  phase_routes = route.model_route;
  tools_and_commands =
      "soloscale skill-route"
      ∷ (if is_filled call.repositories
          then "git rev-parse --show-toplevel" ∷ "git branch --show-current" ∷ "git rev-parse HEAD"
            ∷ []
          else []);
  repositories = call.repositories;
  input_hashes = ("operator_request", route.task.request_sha256) ∷ [];
  output_artifacts = record { artifact_id = "skill-route"; sha256 = tools.sha256 call.dump } ∷ [];
  deterministic_checks =
      passed_check "Skill registry contract"
      ∷ passed_check "Task Envelope normalization"
      ∷ passed_check "Skill dependency route"
      ∷ [];
  human_gates = route.human_gates;
  approvals = [];
  final_status =
      if immediate_human_gate route
      then SkillRunStatus.awaiting_human_gate
      else SkillRunStatus.routed;
  started_at = call.now;
  completed_at = call.now;
  external_outcome_ids = [];
  outcome_state = no_outcome;
}

-- the files of the private directory: the route of each run, and the receipts
pub record SkillFiles : Type 0 where
  pub runs : List (String × SkillTaskRoute)
  pub receipts : List SkillRunReceipt

abbrev pub check_root : Option SkillError → Result SkillError (Unit {0})
check_root none = ok tt
check_root (some e) = err e

-- the receipt that is written
unfoldable pub make_receipt :
    TextTools → PersistCall → SkillTaskRoute → Result SkillError SkillRunReceipt
unfolding receipt_of validate_receipt
make_receipt tools call route = do
  check_root call.root_error
  selected ←
      traverse (selected_named (route.primary_skill ∷ route.supporting_skills))
        route.dependency_order
  let receipt = receipt_of tools call route selected
  raise_if (not (validate_receipt receipt)) validation_error
  ok receipt

-- A receipt is only written behind the route of its run; a write that fails leaves what was written.
unfoldable pub persist_route_receipt :
    TextTools
    → PersistCall
    → SkillTaskRoute
    → SkillFiles
    → Result SkillError SkillRunReceipt × SkillFiles
unfolding make_receipt
persist_route_receipt tools call route files = elim (make_receipt tools call route) [
  | err e ↦ (err e, files)
  | ok receipt ↦
      let with_run = record files { runs = files.runs ++ (call.receipt_id, route) ∷ [] } in
      if call.run_fails
      then (err not_persisted, files)
      else if call.receipt_fails
      then (err not_persisted, with_run)
      else (ok receipt, record with_run { receipts = with_run.receipts ++ receipt ∷ [] })
]
