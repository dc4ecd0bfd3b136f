-- ===== src/SkillOs/Route/Selected.antt =====
-- The Skills that are selected for the names of an order.
use soloscale_ai_os.Prelude.{
  ◌≡◌, ◌≢◌, refl, true, not, List, [], ◌∷◌, map, ap, ap₂, sym, ◌∙◌, subst, String, str_eq,
  str_eq_iff, contains, ok, bind_ok, raise_if_ok, ok_inj, arith, Bool-cases, inl, inr, Option-cases,
  All, not-false, raise_if,
}
use soloscale_ai_os.Prelude.Text.{Text, squeeze}
use soloscale_ai_os.SkillOs.Models.{
  SkillStatus, not_selectable, SkillRegistryEntry, SkillRegistry, SelectedSkill,
}
use soloscale_ai_os.SkillOs.Registry.{skill_names, find_skill, get}
use soloscale_ai_os.SkillOs.Registry.Lookup.{name-find_skill}
use soloscale_ai_os.SkillOs.Order.{dependency_order}
use soloscale_ai_os.SkillOs.Order.Lawful.{dependency_order-IsDependencyOrder}
use soloscale_ai_os.SkillOs.Request.{TextTools}
use soloscale_ai_os.SkillOs.Route.{selected_skill, traverse, selected_named, is_selectable}
use soloscale_ai_os.SkillOs.Route.Intents.{Choice, explicit_names, intent_of, choose_skills}
use soloscale_ai_os.SkillOs.Registry.Visits.{asked}
use soloscale_ai_os.SkillOs.Route.Chosen.{is_sound_choice, choose_for-is_sound_choice}

abbrev pub names_of : List SelectedSkill → List String
names_of = map (λ (s : SelectedSkill). s.name)

-- the Skill is selected as the registry has it, and is neither blocked nor deprecated
abbrev pub IsFrom : SkillRegistry → SelectedSkill → Type 0
IsFrom registry s =
    (e : SkillRegistryEntry) × (get registry s.name ≡ ok e)
    × (s.version ≡ e.current_version)
    × (s.status ≡ e.status)
    × (s.status ≢ SkillStatus.blocked)
    × (s.status ≢ SkillStatus.deprecated)

pub get_name :
    (registry : SkillRegistry) (x : String) (e : SkillRegistryEntry)
    → get registry x ≡ ok e
    → e.name ≡ x
unfolding get
get_name registry x e h = elim (Option-cases (find_skill registry.skills x)) [
  | inl absent ↦ absurd (ground arith)
  | inr (e', found) ↦ name-find_skill registry.skills x e (ground arith)
]

pub traverse-get :
    (registry : SkillRegistry) (names : List String) (entries : List SkillRegistryEntry)
    → traverse (get registry) names ≡ ok entries
    → (skill_names entries ≡ names) × All (λ e. get registry e.name ≡ ok e) entries
traverse-get registry [] entries h =
    subst (λ es. (skill_names es ≡ []) × All (λ e. get registry e.name ≡ ok e) es) (ok_inj h)
      (refl, tt)
traverse-get registry (x ∷ names) entries h =
    let (e, e1, h1) = bind_ok (get registry x) _ h in
    let (es, e2, h2) = bind_ok (traverse (get registry) names) _ h1 in
    let (same, found) = traverse-get registry names es e2 in
    let named = get_name registry x e e1 in
    subst (λ l. (skill_names l ≡ x ∷ names) × All (λ e. get registry e.name ≡ ok e) l) (ok_inj h2)
      (ap₂ (λ a l. a ∷ l) named same, (ap (get registry) named ∙ e1, found))

selectable_lem :
    (s : SkillStatus)
    → is_selectable s ≡ true
    → (s ≢ SkillStatus.blocked) × (s ≢ SkillStatus.deprecated)
selectable_lem s h = (λ e. ground arith, λ e. ground arith)

selected_skill_lem :
    (entry : SkillRegistryEntry) (reason : String) (s : SelectedSkill)
    → selected_skill entry reason ≡ ok s
    → (s.name ≡ entry.name)
      × (s.version ≡ entry.current_version)
      × (s.status ≡ entry.status)
      × (s.status ≢ SkillStatus.blocked)
      × (s.status ≢ SkillStatus.deprecated)
unfolding selected_skill
selected_skill_lem entry reason s h =
    let (u, free, h1) = bind_ok (raise_if (not (is_selectable entry.status)) not_selectable) _ h in
    let made = ok_inj h1 in
    let status = sym (ap (λ (s : SelectedSkill). s.status) made) in
    let (unblocked, current) = selectable_lem entry.status (not-false (raise_if_ok _ _ free)) in
    (
      sym (ap (λ (s : SelectedSkill). s.name) made),
      sym (ap (λ (s : SelectedSkill). s.version) made),
      status,
      λ blocked. unblocked (sym status ∙ blocked),
      λ deprecated. current (sym status ∙ deprecated),
    )

pub traverse_selected :
    (registry : SkillRegistry) (reason : String → String) (entries : List SkillRegistryEntry)
    (selected : List SelectedSkill)
    → traverse (λ (e : SkillRegistryEntry). selected_skill e (reason e.name)) entries ≡ ok selected
    → All (λ e. get registry e.name ≡ ok e) entries
    → (names_of selected ≡ skill_names entries) × All (IsFrom registry) selected
traverse_selected registry reason [] selected h found =
    subst (λ ss. (names_of ss ≡ []) × All (IsFrom registry) ss) (ok_inj h) (refl, tt)
traverse_selected registry reason (e ∷ entries) selected h found =
    let (s, e1, h1) = bind_ok (selected_skill e (reason e.name)) _ h in
    let (ss, e2, h2) =
      bind_ok (traverse (λ (e : SkillRegistryEntry). selected_skill e (reason e.name)) entries) _
        h1 in
    let (same, from) = traverse_selected registry reason entries ss e2 found.1 in
    let (name, version, status, unblocked, current) = selected_skill_lem e (reason e.name) s e1 in
    subst (λ l. (names_of l ≡ e.name ∷ skill_names entries) × All (IsFrom registry) l) (ok_inj h2)
      (
        ap₂ (λ a l. a ∷ l) name same,
        ((e, ap (get registry) name ∙ found.0, version, status, unblocked, current), from),
      )

-- The primary Skill of a choice is in the order.
pub primary-listed :
    (tools : TextTools) (registry : SkillRegistry) (text : Text) (choice : Choice)
    (names : List String)
    → choose_skills tools (squeeze (tools.casefold text)) ≡ ok choice
    → dependency_order registry (explicit_names choice) ≡ ok names
    → contains choice.primary_name names ≡ true
unfolding choose_skills is_sound_choice
primary-listed tools registry text choice names chosen ordered =
    let order = dependency_order-IsDependencyOrder registry (explicit_names choice) names ordered in
    let sound =
      choose_for-is_sound_choice (intent_of tools (squeeze (tools.casefold text))) choice chosen in
    (order.exact choice.primary_name).1 (asked (ground arith))

pub find_named :
    (ss : List SelectedSkill) (x : String)
    → contains x (names_of ss) ≡ true
    → (s : SelectedSkill) × (selected_named ss x ≡ ok s)
unfolding contains selected_named
find_named [] x m = absurd (ground arith)
find_named (s ∷ ss) x m = elim (Bool-cases (str_eq s.name x)) [
  | inl e ↦ (s, ground arith)
  | inr ne ↦
      let (s', found) =
        find_named ss x (ground (arith, str_eq_iff x s.name, str_eq_iff s.name x)) in
      (s', ground arith)
]
