-- ===== src/SkillOs/Models.antt =====
-- The contracts of skill_models.py with their validators. A name, a version, a gate and a digest are
-- strings; a text that the code splits, strips or measures is a `Text`.
use soloscale_ai_os.Prelude.{
  ℕ, Bool, true, false, not, ◌&&◌, ◌||◌, List, [], ◌∷◌, ◌==◌, map, any, String, str_eq, contains,
  subset, is_unique, leb, length,
}
use soloscale_ai_os.Prelude.Text.{Text, strip, is_empty}

pub data SkillStatus : Type 0 where
  draft candidate active deprecated blocked : SkillStatus

pub data SkillRiskClass : Type 0 where
  low medium high : SkillRiskClass

pub data SkillRunStatus : Type 0 where
  routed awaiting_human_gate completed failed : SkillRunStatus

abbrev pub run_status_place : SkillRunStatus → ℕ
run_status_place SkillRunStatus.routed = 0
run_status_place SkillRunStatus.awaiting_human_gate = 1
run_status_place SkillRunStatus.completed = 2
run_status_place SkillRunStatus.failed = 3

abbrev pub run_status_is : SkillRunStatus → SkillRunStatus → Bool
run_status_is a b = run_status_place a == run_status_place b

-- what the code may raise; a walk that runs out of fuel is an error of the model only
pub data SkillError : Type 0 where
  validation_error key_error cycle_error incompatible not_selectable : SkillError
  blank_request oversized_request ambiguous_channel unsafe_root not_persisted : SkillError
  invalid_registry invalid_artifacts out_of_fuel : SkillError

-- a `dict[str, str]` from phases to model routes
abbrev pub PhaseRoutes : Type 0
PhaseRoutes = List (String × Text)

abbrev pub phases : List String
phases = "discovery" ∷ "decision" ∷ "implementation" ∷ "verification" ∷ "review" ∷ []

-- `_SKILL_ORDER` of skill_os.py
abbrev pub skill_order : List String
skill_order =
    "task-intake-and-routing" ∷ "evidence-refresh-and-bundle" ∷ "editorial-package"
    ∷ "visual-storytelling" ∷ "linkedin-publishing" ∷ "x-thread-publishing" ∷ "resume-tailoring"
    ∷ "learning-gap-to-packet" ∷ "skill-distillation" ∷ []

-- an entry, less the descriptions, dates and counts that no operation reads
pub record SkillRegistryEntry : Type 0 where
  pub name : String
  pub current_version : String
  pub status : SkillStatus
  pub risk_class : SkillRiskClass
  pub human_gates : List String
  pub recommended_model_route : PhaseRoutes
  pub dependencies : List String
  pub incompatible_skills : List String

unfoldable pub validate_phase_routes : SkillRegistryEntry → Bool
validate_phase_routes entry =
    let routes = entry.recommended_model_route in
    let keys = map (λ (r : String × Text). r.0) routes in
    (subset keys phases && subset phases keys)
    && not (any (λ (r : String × Text). is_empty (strip r.1)) routes)
    && not (contains entry.name entry.dependencies || contains entry.name entry.incompatible_skills)

pub record SkillRegistry : Type 0 where
  pub skills : List SkillRegistryEntry

pub record SkillTaskEnvelope : Type 0 where
  pub task_id : String
  pub request_sha256 : String
  pub objective : Text
  pub desired_user_or_external_outcome : String
  pub requested_artifacts : List String
  pub project_or_workstream : String
  pub available_inputs : List String
  pub evidence_requirements : List String
  pub constraints : List String
  pub publication_intent : Bool
  pub deployment_intent : Bool
  pub application_submission_intent : Bool
  pub paid_api_intent : Bool
  pub cost_boundary : String
  pub privacy_boundary : List String
  pub completion_condition : Text
  pub known_non_goals : List String

-- the limits on the two fields that hold text of the request
unfoldable pub validate_envelope : SkillTaskEnvelope → Bool
validate_envelope task =
    (leb 1 (length task.objective) && leb (length task.objective) 4000)
    && leb 1 (length task.completion_condition)
    && leb (length task.completion_condition) 1200

pub record SelectedSkill : Type 0 where
  pub name : String
  pub version : String
  pub status : SkillStatus
  pub reason : String

-- the fields on what was used in the end are empty in a route
pub record PhaseModelRoute : Type 0 where
  pub phase : String
  pub recommended : Text

unfoldable pub validate_phase_route : PhaseModelRoute → Bool
validate_phase_route route = leb 1 (length route.recommended) && leb (length route.recommended) 120

pub record SkillTaskRoute : Type 0 where
  pub task : SkillTaskEnvelope
  pub primary_skill : SelectedSkill
  pub supporting_skills : List SelectedSkill
  pub dependency_order : List String
  pub model_route : List PhaseModelRoute
  pub human_gates : List String
  pub unmet_preconditions : List String
  pub expected_receipts : List String
  pub routing_reason : List (String × String)

abbrev pub selected_names : SkillTaskRoute → List String
selected_names route =
    route.primary_skill.name ∷ map (λ (s : SelectedSkill). s.name) route.supporting_skills

-- `list == list` of names
abbrev pub same_names : List String → List String → Bool
same_names [] [] = true
same_names (a ∷ as_) (b ∷ bs) = str_eq a b && same_names as_ bs
same_names _ _ = false

unfoldable pub validate_selected_route : SkillTaskRoute → Bool
validate_selected_route route =
    is_unique (selected_names route)
    && (subset (selected_names route) route.dependency_order
        && subset route.dependency_order (selected_names route))
    && is_unique route.dependency_order
    && same_names (map (λ (r : PhaseModelRoute). r.phase) route.model_route) phases

pub record RunOutcomeState : Type 0 where
  pub workflow_completed : Bool
  pub artifact_generated : Bool
  pub human_approved : Bool
  pub externally_published_or_submitted : Bool
  pub external_outcome_observed : Bool

-- `RunOutcomeState()`
abbrev pub no_outcome : RunOutcomeState
no_outcome = record {
  workflow_completed = false;
  artifact_generated = false;
  human_approved = false;
  externally_published_or_submitted = false;
  external_outcome_observed = false;
}

-- `state != RunOutcomeState()`
abbrev pub is_progress : RunOutcomeState → Bool
is_progress state =
    state.workflow_completed || state.artifact_generated || state.human_approved
    || state.externally_published_or_submitted || state.external_outcome_observed

unfoldable pub preserve_state_boundaries : RunOutcomeState → Bool
preserve_state_boundaries state =
    not (state.externally_published_or_submitted && not state.human_approved)
    && not (state.externally_published_or_submitted && not state.artifact_generated)
    && not (state.external_outcome_observed && not state.externally_published_or_submitted)
