-- ===== src/SkillOs/Route/Sound.antt =====
-- The validator of a route accepts what is put together, and each selected Skill is one of the registry
-- that may be selected.
use soloscale_ai_os.Prelude.{
  ◌≡◌, refl, true, not, List, [], ◌∷◌, map, filter_by, ap, ap₂, sym, ◌∙◌, subst, String, str_eq,
  str_eq_iff, contains, subset, is_unique, without, contains-without, is_unique-without, subset_of,
  subset_mem, contains-cons, contains_there, contains_eq, ok, ok_inj, arith, Bool-cases, inl, inr,
  find_by, find_by_sound, Option-cases, All, find_by-All, filter_by-All, or_raise, some,
}
use soloscale_ai_os.Prelude.Text.{Text}
use soloscale_ai_os.SkillOs.Models.{
  key_error, SkillRegistry, SelectedSkill, SkillTaskRoute, validate_selected_route, selected_names,
  same_names, phases, PhaseModelRoute,
}
use soloscale_ai_os.SkillOs.Order.Lawful.{dependency_order-IsDependencyOrder}
use soloscale_ai_os.SkillOs.Request.{TextTools}
use soloscale_ai_os.SkillOs.Route.{selected_named, assemble, route_skill_request}
use soloscale_ai_os.SkillOs.Route.Intents.{explicit_names, reason_of}
use soloscale_ai_os.SkillOs.Route.Capped.{five_phases, choose_model_route-IsCapped}
use soloscale_ai_os.SkillOs.Route.Assembly.{Parts, route_from, route-Parts}
use soloscale_ai_os.SkillOs.Route.Selected.{
  names_of, IsFrom, traverse-get, traverse_selected, primary-listed,
}

names_of-filter_by :
    (p : String) (ss : List SelectedSkill)
    → names_of (filter_by (λ (s : SelectedSkill). not (str_eq s.name p)) ss)
      ≡ without p (names_of ss)
unfolding without
names_of-filter_by p [] = refl
names_of-filter_by p (s ∷ ss) = ground (arith, names_of-filter_by p ss)

-- The names of the selected Skills are the order, and each is as the registry has it.
Parts-names :
    {tools : TextTools} {task_id : String} {registry : SkillRegistry} {text : Text}
    (parts : Parts tools task_id registry text)
    → (names_of parts.selected ≡ parts.names) × All (IsFrom registry) parts.selected
Parts-names {registry} parts =
    let (same, found) = traverse-get registry parts.names parts.entries parts.entries_eq in
    let (names, from) =
      traverse_selected registry (reason_of parts.choice.reasons) parts.entries parts.selected
        parts.selected_eq found in
    (names ∙ same, from)

find_selected :
    (ss : List SelectedSkill) (name : String) (s : SelectedSkill)
    → selected_named ss name ≡ ok s
    → find_by (λ (s : SelectedSkill). str_eq s.name name) ss ≡ some s
unfolding selected_named
find_selected ss name s h =
    elim (Option-cases (find_by (λ (s : SelectedSkill). str_eq s.name name) ss)) [
      | inl absent ↦ absurd (ground arith)
      | inr (s', found) ↦ found ∙ ap some (ok_inj (sym (ap (λ o. or_raise o key_error) found) ∙ h))
    ]

-- Skills and names that match are accepted by the validator.
module _ (names : List String) (p : String) (once : is_unique names ≡ true)
    (listed : contains p names ≡ true) where
  split_unique : is_unique (p ∷ without p names) ≡ true
  unfolding is_unique
  split_unique =
      ground (arith, is_unique-without p names once, contains-without p p names, str_eq_iff p p)

  split_back : subset (p ∷ without p names) names ≡ true
  split_back = subset_of _ names λ x m. elim (contains-cons x p (without p names) m) [
    | inl e ↦ ap (λ z. contains z names) e ∙ listed
    | inr rest ↦ ground (arith, contains-without x p names, rest)
  ]

  split_all : subset names (p ∷ without p names) ≡ true
  split_all = subset_of names _ λ x m. elim (Bool-cases (str_eq x p)) [
    | inl e ↦ contains_eq x p _ ((str_eq_iff x p).0 e)
    | inr ne ↦ contains_there x p _ (ground (arith, contains-without x p names, m))
  ]

same_names_refl : (ns : List String) → same_names ns ns ≡ true
same_names_refl [] = refl
same_names_refl (n ∷ ns) = ground (arith, str_eq_iff n n, same_names_refl ns)

module _ {tools : TextTools} {task_id : String} {registry : SkillRegistry} {text : Text}
    (parts : Parts tools task_id registry text) where
  pub primary_listed : contains parts.choice.primary_name parts.names ≡ true
  primary_listed =
      primary-listed tools registry text parts.choice parts.names parts.choice_eq parts.names_eq

  selected_names_lem :
      selected_names (route_from parts)
      ≡ parts.choice.primary_name ∷ without parts.choice.primary_name parts.names
  unfolding assemble
  selected_names_lem =
      ap₂ (λ a l. a ∷ l)
        ((str_eq_iff parts.primary.name parts.choice.primary_name).0 (
          find_by_sound _ parts.selected parts.primary (
            find_selected parts.selected parts.choice.primary_name parts.primary parts.primary_eq)))
        (names_of-filter_by parts.choice.primary_name parts.selected
          ∙ ap (without parts.choice.primary_name) (Parts-names parts).0)

  pub parts-validate : validate_selected_route (route_from parts) ≡ true
  unfolding validate_selected_route assemble
  parts-validate =
      let once =
        (dependency_order-IsDependencyOrder registry (explicit_names parts.choice) parts.names
          parts.names_eq).once in
      let p = parts.choice.primary_name in
      let phases_eq = (choose_model_route-IsCapped parts.entries parts.models parts.models_eq).0 in
      ground (
        arith,
        ap is_unique selected_names_lem ∙ split_unique parts.names p once primary_listed,
        ap (λ l. subset l parts.names) selected_names_lem
            ∙ split_back parts.names p once primary_listed,
        ap (λ l. subset parts.names l) selected_names_lem
            ∙ split_all parts.names p once primary_listed,
        once,
        ap (λ l. same_names l phases) phases_eq ∙ same_names_refl phases,
      )

pub Parts-phases :
    {tools : TextTools} {task_id : String} {registry : SkillRegistry} {text : Text}
    (parts : Parts tools task_id registry text)
    → map (λ (r : PhaseModelRoute). r.phase) (route_from parts).model_route ≡ five_phases
unfolding assemble
Parts-phases parts = (choose_model_route-IsCapped parts.entries parts.models parts.models_eq).0

-- What a returned route is, over the registry.
pub record IsSound (registry : SkillRegistry) (route : SkillTaskRoute) : Type 0 where
  pub once : is_unique (selected_names route) ≡ true
  pub order_once : is_unique route.dependency_order ≡ true
  pub selected_ordered :
      (x : String)
      → contains x (selected_names route) ≡ true
      → contains x route.dependency_order ≡ true
  pub ordered_selected :
      (x : String)
      → contains x route.dependency_order ≡ true
      → contains x (selected_names route) ≡ true
  pub in_phases : map (λ (r : PhaseModelRoute). r.phase) route.model_route ≡ five_phases
  pub primary : IsFrom registry route.primary_skill
  pub supporting : All (IsFrom registry) route.supporting_skills

Parts-IsSound :
    {tools : TextTools} {task_id : String} {registry : SkillRegistry} {text : Text}
    (parts : Parts tools task_id registry text)
    → IsSound registry (route_from parts)
unfolding validate_selected_route assemble
Parts-IsSound {registry} parts =
    let (names, from) = Parts-names parts in
    let valid = parts-validate parts in
    let ordered : subset (selected_names (route_from parts)) parts.names ≡ true = ground arith in
    let selected : subset parts.names (selected_names (route_from parts)) ≡ true = ground arith in
    record {
      once = ground arith;
      order_once = ground arith;
      selected_ordered = λ x m. subset_mem _ _ x ordered m;
      ordered_selected = λ x m. subset_mem _ _ x selected m;
      in_phases = Parts-phases parts;
      primary =
          find_by-All (IsFrom registry) _ parts.selected parts.primary from
            (find_selected parts.selected parts.choice.primary_name parts.primary parts.primary_eq);
      supporting = filter_by-All (IsFrom registry) _ parts.selected from;
    }

-- A route that is returned selects no Skill twice; its order names no Skill twice, and names exactly the
-- selected ones; it has a model route for each of the five phases, in their order; and every selected
-- Skill stands in the registry with the version and status that the route shows, and is neither blocked
-- nor deprecated.
pub route_skill_request-IsSound :
    (tools : TextTools) (task_id : String) (registry : SkillRegistry) (text : Text)
    (route : SkillTaskRoute)
    → route_skill_request tools task_id registry text ≡ ok route
    → IsSound registry route
route_skill_request-IsSound tools task_id registry text route h =
    let (parts, e) = route-Parts route h in subst (IsSound registry) e (Parts-IsSound parts)
