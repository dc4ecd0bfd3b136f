-- ===== src/SkillOs/Route/Returns.antt =====
-- Over a loaded registry a request within its limits is routed.
use soloscale_ai_os.Prelude.{
  ◌≡◌, refl, inl, inr, true, false, not, ◌&&◌, ◌||◌, Option, List, [], ◌∷◌, ap, sym, ◌∙◌, String,
  contains, subset, ok, guard_pass, All, All-imp, All-all, all-All, arith, Bool-cases, contains-nil,
  subset_of,
}
use soloscale_ai_os.Prelude.Text.{Text, squeeze}
use soloscale_ai_os.SkillOs.Models.{
  SkillRegistryEntry, SkillRegistry, SkillTaskRoute, validate_phase_routes, skill_order,
  SelectedSkill, PhaseModelRoute, ambiguous_channel,
}
use soloscale_ai_os.SkillOs.Registry.{skill_names, get}
use soloscale_ai_os.SkillOs.Registry.Load.{SkillArtifacts, load_skill_registry}
use soloscale_ai_os.SkillOs.Order.{dependency_order}
use soloscale_ai_os.SkillOs.Order.Lawful.{dependency_order-IsDependencyOrder}
use soloscale_ai_os.SkillOs.Order.Returns.{dependency_order-returns, needed-known}
use soloscale_ai_os.SkillOs.Request.{TextTools, publication_channels}
use soloscale_ai_os.SkillOs.Request.Envelope.{envelope_of}
use soloscale_ai_os.SkillOs.Route.{traverse, selected_skill, selected_named, route_skill_request}
use soloscale_ai_os.SkillOs.Route.Intents.{
  Intent, Choice, explicit_names, reason_of, is_publication, intent_of, choose_publication,
  choose_other, choose_for, choose_skills,
}
use soloscale_ai_os.SkillOs.Route.Chosen.{is_sound_choice, choose_for-is_sound_choice}
use soloscale_ai_os.SkillOs.Route.Selected.{
  traverse-get, traverse_selected, primary-listed, find_named,
}
use soloscale_ai_os.SkillOs.Route.Assembly.{Parts, route_from}
use soloscale_ai_os.SkillOs.Route.ModelRoute.{choose_model_route}
use soloscale_ai_os.SkillOs.Route.Recommends.{choose_model_route-returns}
use soloscale_ai_os.SkillOs.Route.Ready.{
  load_sound, IsReady, get-All, traverse-get-returns, selected-returns, IsBounded,
  normalize-returns, Parts-returns,
}

publication-returns :
    (i : Intent)
    → (i.ambiguous_publication && not (i.publish_linkedin || i.publish_x)) ≡ false
    → (c : Choice) × (choose_publication i ≡ ok c)
unfolding choose_publication
publication-returns i clear = (
  _,
  guard_pass (i.ambiguous_publication && not (i.publish_linkedin || i.publish_x)) ambiguous_channel
      (ok _) clear,
)

choose_for-returns :
    (i : Intent)
    → (i.ambiguous_publication && not (i.publish_linkedin || i.publish_x)) ≡ false
    → (c : Choice) × (choose_for i ≡ ok c)
unfolding choose_for
choose_for-returns i clear = elim (Bool-cases (is_publication i)) [
  | inl publication ↦ let (c, e) = publication-returns i clear in (c, rw (publication, e) refl)
  | inr other ↦ (choose_other i, rw other refl)
]

models-return :
    (entries : List SkillRegistryEntry) (x : String)
    → contains x (skill_names entries) ≡ true
    → All (λ e. IsReady e × (validate_phase_routes e ≡ true)) entries
    → (models : List PhaseModelRoute) × (choose_model_route entries ≡ ok models)
models-return [] x m h = contains-nil x m
models-return (e ∷ es) x m h =
    choose_model_route-returns e es
      (all-All validate_phase_routes (e ∷ es) (All-imp (λ e both. both.1) (e ∷ es) h))
      (All-imp (λ e both. both.0.short) (e ∷ es) h)

canonical : (c : Choice) → is_sound_choice c ≡ true → subset (explicit_names c) skill_order ≡ true
unfolding is_sound_choice
canonical c h = ground arith

module _ (parsed : Option SkillRegistry) (files : String → SkillArtifacts)
    (registry : SkillRegistry) (loaded : load_skill_registry parsed files ≡ ok registry)
    (ready : All IsReady registry.skills) where
  order-returns :
      (explicit : List String)
      → subset explicit skill_order ≡ true
      → (order : List String) × (dependency_order registry explicit ≡ ok order)
        × (subset order (skill_names registry.skills) ≡ true)
  order-returns explicit within =
      let (graph, phases_valid, names) = load_sound parsed files registry loaded in
      let known = ap (subset explicit) names ∙ within in
      elim (dependency_order-returns registry graph explicit known) [
        | inl (order, e) ↦
            let lawful = dependency_order-IsDependencyOrder registry explicit order e in
            (
              order,
              e,
              subset_of order _
                  (λ x m. needed-known registry graph explicit known ((lawful.exact x).0 m)),
            )
        | inr (failed, (x, y, e, px, py, found, clash)) ↦
            let one = get-All IsReady registry x e ready found in
            contains-nil y (sym (ap (contains y) one.compatible) ∙ clash)
      ]

  -- an entry that is ready, with a route for each phase
  abbrev IsUsable : SkillRegistryEntry → Type 0
  IsUsable e = IsReady e × (validate_phase_routes e ≡ true)

  entries-return :
      (names : List String)
      → subset names (skill_names registry.skills) ≡ true
      → (entries : List SkillRegistryEntry) × (traverse (get registry) names ≡ ok entries)
        × (skill_names entries ≡ names)
        × All (λ e. get registry e.name ≡ ok e) entries
  entries-return names within =
      let (entries, listed) = traverse-get-returns registry names within in
      let (same, found) = traverse-get registry names entries listed in
      (entries, listed, same, found)

  usable :
      (entries : List SkillRegistryEntry)
      → All (λ e. get registry e.name ≡ ok e) entries
      → All IsUsable entries
  usable entries found =
      let (graph, phases_valid, canonical) = load_sound parsed files registry loaded in
      All-imp
        (λ (e : SkillRegistryEntry) f. (
          get-All IsReady registry e.name e ready f,
          get-All (λ e. validate_phase_routes e ≡ true) registry e.name e
              (All-all validate_phase_routes registry.skills phases_valid) f,
        ))
        entries found

  selection-returns :
      (choice : Choice) (names : List String) (entries : List SkillRegistryEntry)
      → contains choice.primary_name names ≡ true
      → skill_names entries ≡ names
      → All (λ e. get registry e.name ≡ ok e) entries
      → All IsUsable entries
      → (selected : List SelectedSkill) × (primary : SelectedSkill) × (traverse
            (λ (e : SkillRegistryEntry). selected_skill e (reason_of choice.reasons e.name))
            entries
          ≡ ok selected)
        × (selected_named selected choice.primary_name ≡ ok primary)
  selection-returns choice names entries primary_in same found both =
      let (selected, picked) =
        selected-returns (reason_of choice.reasons) entries (All-imp (λ e b. b.0) entries both) in
      let (named, from) =
        traverse_selected registry (reason_of choice.reasons) entries selected picked found in
      let (primary, taken) =
        find_named selected choice.primary_name
          (ap (contains choice.primary_name) (named ∙ same) ∙ primary_in) in
      (selected, primary, picked, taken)

  module _ (tools : TextTools) (task_id : String) (text : Text)
      (bounds : IsBounded tools text) where
    abbrev lowered : Text
    lowered = squeeze (tools.casefold text)

    chosen-returns :
        (choice : Choice) (names : List String)
        → choose_skills tools lowered ≡ ok choice
        → dependency_order registry (explicit_names choice) ≡ ok names
        → subset names (skill_names registry.skills) ≡ true
        → (route : SkillTaskRoute) × (route_skill_request tools task_id registry text ≡ ok route)
    chosen-returns choice names chosen ordered within =
        let primary_in = primary-listed tools registry text choice names chosen ordered in
        let (entries, listed, same, found) = entries-return names within in
        let both = usable entries found in
        let (selected, primary, picked, taken) =
          selection-returns choice names entries primary_in same found both in
        let (models, recommended) =
          models-return entries choice.primary_name
            (ap (contains choice.primary_name) same ∙ primary_in) both in
        let parts : Parts tools task_id registry text = record {
          choice = choice;
          names = names;
          entries = entries;
          selected = selected;
          task = envelope_of tools task_id text (squeeze text) names;
          primary = primary;
          models = models;
          choice_eq = chosen;
          names_eq = ordered;
          entries_eq = listed;
          selected_eq = picked;
          task_eq = normalize-returns tools task_id text names bounds;
          primary_eq = taken;
          models_eq = recommended;
        } in
        (route_from parts, Parts-returns parts)

  -- When a registry has been loaded, whose Skills may all be selected, exclude no other and recommend
  -- models in at most 120 characters, then each request whose text is neither blank nor longer than 4000
  -- characters, whose stop clause fits into 1200, and that does not ask for a publication without a
  -- channel, is routed.
  pub route_skill_request-returns :
      (tools : TextTools) (task_id : String) (text : Text)
      → IsBounded tools text
      → ((publication_channels tools (squeeze (tools.casefold text))).ambiguous
          && not (
              (publication_channels tools (squeeze (tools.casefold text))).linkedin
              || (publication_channels tools (squeeze (tools.casefold text))).x_channel))
        ≡ false
      → (route : SkillTaskRoute) × (route_skill_request tools task_id registry text ≡ ok route)
  unfolding choose_skills intent_of
  route_skill_request-returns tools task_id text bounds clear =
      let lowered = squeeze (tools.casefold text) in
      let (choice, chosen) = choose_for-returns (intent_of tools lowered) clear in
      let sound = choose_for-is_sound_choice (intent_of tools lowered) choice chosen in
      let (names, ordered, within) =
        order-returns (explicit_names choice) (canonical choice sound) in
      chosen-returns tools task_id text bounds choice names chosen ordered within
