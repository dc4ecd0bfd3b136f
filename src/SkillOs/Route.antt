-- ===== src/SkillOs/Route.antt =====
-- `route_skill_request` of skill_os.py with its helpers. The id of the task, a fresh UUID, is an argument.
pub mod Intents
pub mod ModelRoute
pub mod Chosen
pub mod Selected
pub mod Assembly
pub mod Capped
pub mod Gates
pub mod Sound
pub mod Recommends
pub mod Ready
pub mod Returns
use soloscale_ai_os.Prelude.{
  Bool, true, false, not, ◌&&◌, ◌||◌, Option, none, some, List, [], ◌∷◌, ◌++◌, map, filter_by,
  find_by, String, str_eq, contains, dedupe, Result, ok, err, ◌>>=◌, ◌>>◌, raise_if, or_raise,
  if◌then◌else◌,
}
use soloscale_ai_os.Prelude.Text.{Text, codes, squeeze}
use soloscale_ai_os.SkillOs.Models.{
  SkillStatus, SkillError, not_selectable, key_error, validation_error, SkillRegistryEntry,
  SkillRegistry, SkillTaskEnvelope, SelectedSkill, PhaseModelRoute, SkillTaskRoute,
  validate_selected_route,
}
use soloscale_ai_os.SkillOs.Registry.{get}
use soloscale_ai_os.SkillOs.Order.{dependency_order}
use soloscale_ai_os.SkillOs.Request.{
  TextTools, contains_any, Channels, publication_channels, is_requested, when,
}
use soloscale_ai_os.SkillOs.Request.Envelope.{approved_profile, normalize_request}
use soloscale_ai_os.SkillOs.Route.Intents.{Choice, explicit_names, reason_of, choose_skills}
use soloscale_ai_os.SkillOs.Route.ModelRoute.{choose_model_route}

abbrev pub is_selectable : SkillStatus → Bool
is_selectable SkillStatus.blocked = false
is_selectable SkillStatus.deprecated = false
is_selectable _ = true

-- `_selected_skill`
unfoldable pub selected_skill : SkillRegistryEntry → String → Result SkillError SelectedSkill
selected_skill entry reason =
    raise_if (not (is_selectable entry.status)) not_selectable
    >> ok (record {
      name = entry.name;
      version = entry.current_version;
      status = entry.status;
      reason = reason;
    })

-- a comprehension over a list whose body may raise
abbrev pub traverse {ℓ κ} :
    {A : Type ℓ} {B : Type κ} → (A → Result SkillError B) → List A → Result SkillError (List B)
traverse f [] = ok []
traverse f (x ∷ xs) = f x >>= λ y. traverse f xs >>= λ ys. ok (y ∷ ys)

-- `selected_by_name[name]`; the names of the order are all different
unfoldable pub selected_named : List SelectedSkill → String → Result SkillError SelectedSkill
selected_named selected name =
    or_raise (find_by (λ (s : SelectedSkill). str_eq s.name name) selected) key_error

abbrev pub all_gates : List SkillRegistryEntry → List String
all_gates [] = []
all_gates (e ∷ es) = e.human_gates ++ all_gates es

unfoldable pub human_gates : List SkillRegistryEntry → SkillTaskEnvelope → List String
human_gates entries task = dedupe (
    dedupe (all_gates entries)
    ++ when task.paid_api_intent ("Approve paid API usage and cost boundary" ∷ [])
    ++ when task.deployment_intent ("Approve production deployment" ∷ [])
    ++ when task.application_submission_intent ("Approve job application submission" ∷ []))

unfoldable pub unmet_preconditions : Text → Bool → List String → SkillTaskEnvelope → List String
unfolding contains_any
unmet_preconditions lowered publication selected task =
    when
      (contains "resume-tailoring" selected
        && not (contains approved_profile task.available_inputs))
      (approved_profile ∷ [])
    ++ when
        (publication
          && not (
              contains_any lowered (
                codes "approved"
                ∷ codes "human-reviewed"
                ∷ codes "final package"
                ∷ codes "已批准"
                ∷ codes "已审核"
                ∷ [])))
        ("Approved final platform artifact" ∷ [])
    ++ when
        (contains "skill-distillation" selected
          && not (
              contains_any lowered
                (codes "approved run" ∷ codes "human-approved run" ∷ codes "已批准 run" ∷ [])
              && contains_any lowered (codes "receipt" ∷ codes "回执" ∷ [])))
        ("Completed human-approved Run Receipt" ∷ [])

-- `receipt_by_skill`
unfoldable pub receipt_by_skill : String → Option String
receipt_by_skill name =
    if str_eq name "evidence-refresh-and-bundle"
    then some "EvidenceBundle receipt"
    else if str_eq name "editorial-package"
    then some "Writer, Reviewer, and Reviser provenance"
    else if str_eq name "visual-storytelling"
    then some "Visual receipt"
    else if str_eq name "linkedin-publishing"
    then some "LinkedIn Publication Receipt after PUBLISH"
    else if str_eq name "x-thread-publishing"
    then some "Per-post and final X Thread Receipts after PUBLISH"
    else if str_eq name "resume-tailoring"
    then some "Application package receipt"
    else if str_eq name "learning-gap-to-packet"
    then some "Learning receipts"
    else if str_eq name "skill-distillation"
    then some "Skill change proposal"
    else none

abbrev pub receipts_of : List String → List String
receipts_of [] = []
receipts_of (name ∷ names) = elim (receipt_by_skill name) [
  | none ↦ receipts_of names
  | some receipt ↦ receipt ∷ receipts_of names
]

-- the route before its validator
unfoldable pub assemble :
    TextTools
    → Text
    → Choice
    → List SkillRegistryEntry
    → List String
    → SkillTaskEnvelope
    → List SelectedSkill
    → SelectedSkill
    → List PhaseModelRoute
    → SkillTaskRoute
unfolding human_gates unmet_preconditions receipt_by_skill
assemble tools lowered choice entries names task selected primary models = record {
  task = task;
  primary_skill = primary;
  supporting_skills =
      filter_by (λ (s : SelectedSkill). not (str_eq s.name choice.primary_name)) selected;
  dependency_order = names;
  model_route = models;
  human_gates = human_gates entries task;
  unmet_preconditions =
      unmet_preconditions lowered (is_requested (publication_channels tools lowered)) names task;
  expected_receipts = "Private Skill Run Receipt" ∷ receipts_of names;
  routing_reason = map (λ name. (name, reason_of choice.reasons name)) names;
}

unfoldable pub route_skill_request :
    TextTools → String → SkillRegistry → Text → Result SkillError SkillTaskRoute
unfolding selected_skill selected_named assemble
route_skill_request tools task_id available request_text = do
  let lowered = squeeze (tools.casefold request_text)
  choice ← choose_skills tools lowered
  names ← dependency_order available (explicit_names choice)
  entries ← traverse (get available) names
  selected ←
      traverse
        (λ (entry : SkillRegistryEntry). selected_skill entry (reason_of choice.reasons entry.name))
        entries
  task ← normalize_request tools task_id request_text names
  primary ← selected_named selected choice.primary_name
  models ← choose_model_route entries
  let route = assemble tools lowered choice entries names task selected primary models
  raise_if (not (validate_selected_route route)) validation_error
  ok route
