-- ===== src/SkillOs/Route/Assembly.antt =====
-- What a route that is returned was put together from.
use soloscale_ai_os.Prelude.{◌≡◌, List, String, ok, bind_ok, ok_inj}
use soloscale_ai_os.Prelude.Text.{Text, squeeze}
use soloscale_ai_os.SkillOs.Models.{
  SkillRegistryEntry, SkillRegistry, SkillTaskEnvelope, SelectedSkill, PhaseModelRoute,
  SkillTaskRoute,
}
use soloscale_ai_os.SkillOs.Registry.{get}
use soloscale_ai_os.SkillOs.Order.{dependency_order}
use soloscale_ai_os.SkillOs.Request.{TextTools}
use soloscale_ai_os.SkillOs.Request.Envelope.{normalize_request}
use soloscale_ai_os.SkillOs.Route.{
  selected_skill, traverse, selected_named, assemble, route_skill_request,
}
use soloscale_ai_os.SkillOs.Route.Intents.{Choice, explicit_names, reason_of, choose_skills}
use soloscale_ai_os.SkillOs.Route.ModelRoute.{choose_model_route}

-- the results on the way to a route, in their order
pub record Parts (tools : TextTools) (task_id : String) (registry : SkillRegistry) (text : Text)
    : Type 0 where
  pub choice : Choice
  pub names : List String
  pub entries : List SkillRegistryEntry
  pub selected : List SelectedSkill
  pub task : SkillTaskEnvelope
  pub primary : SelectedSkill
  pub models : List PhaseModelRoute
  pub choice_eq : choose_skills tools (squeeze (tools.casefold text)) ≡ ok choice
  pub names_eq : dependency_order registry (explicit_names choice) ≡ ok names
  pub entries_eq : traverse (get registry) names ≡ ok entries
  pub selected_eq :
      traverse
        (λ (entry : SkillRegistryEntry). selected_skill entry (reason_of choice.reasons entry.name))
        entries
      ≡ ok selected
  pub task_eq : normalize_request tools task_id text names ≡ ok task
  pub primary_eq : selected_named selected choice.primary_name ≡ ok primary
  pub models_eq : choose_model_route entries ≡ ok models

module _ {tools : TextTools} {task_id : String} {registry : SkillRegistry} {text : Text} where
  abbrev pub route_from : Parts tools task_id registry text → SkillTaskRoute
  route_from parts =
      assemble tools (squeeze (tools.casefold text)) parts.choice parts.entries parts.names
        parts.task parts.selected parts.primary parts.models

  pub route-Parts :
      (route : SkillTaskRoute)
      → route_skill_request tools task_id registry text ≡ ok route
      → (parts : Parts tools task_id registry text) × (route_from parts ≡ route)
  unfolding route_skill_request
  route-Parts route h =
      let (choice, e1, h1) = bind_ok (choose_skills tools (squeeze (tools.casefold text))) _ h in
      let (names, e2, h2) = bind_ok (dependency_order registry (explicit_names choice)) _ h1 in
      let (entries, e3, h3) = bind_ok (traverse (get registry) names) _ h2 in
      let (selected, e4, h4) =
        bind_ok
          (traverse
            (λ (entry : SkillRegistryEntry).
              selected_skill entry (reason_of choice.reasons entry.name))
            entries)
          _ h3 in
      let (task, e5, h5) = bind_ok (normalize_request tools task_id text names) _ h4 in
      let (primary, e6, h6) = bind_ok (selected_named selected choice.primary_name) _ h5 in
      let (models, e7, h7) = bind_ok (choose_model_route entries) _ h6 in
      let (u, valid, h8) = bind_ok _ (λ _. ok _) h7 in
      (
        record {
          choice = choice;
          names = names;
          entries = entries;
          selected = selected;
          task = task;
          primary = primary;
          models = models;
          choice_eq = e1;
          names_eq = e2;
          entries_eq = e3;
          selected_eq = e4;
          task_eq = e5;
          primary_eq = e6;
          models_eq = e7;
        },
        ok_inj h8,
      )
