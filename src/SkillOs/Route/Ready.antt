-- ===== src/SkillOs/Route/Ready.antt =====
-- What a loaded registry and a request within its limits give to each step of a route.
use soloscale_ai_os.Prelude.{
  ◌≡◌, refl, ℕ, ◌≤◌, inl, inr, true, false, not, Option, some, List, [], ◌∷◌, ap, sym, ◌∙◌, subst,
  String, str_eq, str_eq_iff, subset, all, length, ltb, Result, ok, err, bind_ok, guard_ok, ok_inj,
  All, arith, Bool-cases, is_ok, or_raise, not-false, Option-cases, some_inj, none,
}
use soloscale_ai_os.Prelude.Text.{Text, squeeze, is_empty}
use soloscale_ai_os.SkillOs.Models.{
  SkillError, key_error, invalid_registry, SkillRegistryEntry, SkillRegistry, SkillTaskEnvelope,
  SelectedSkill, validate_envelope, validate_phase_routes, same_names, skill_order,
}
use soloscale_ai_os.SkillOs.Registry.{skill_names, get, find_skill, validate_graph}
use soloscale_ai_os.SkillOs.Registry.Lookup.{find_skill-known}
use soloscale_ai_os.SkillOs.Registry.Load.{
  SkillArtifacts, validate_registry, check_all_artifacts, load_skill_registry,
}
use soloscale_ai_os.SkillOs.Request.{TextTools}
use soloscale_ai_os.SkillOs.Request.Envelope.{completion, envelope_of, normalize_request}
use soloscale_ai_os.SkillOs.Route.{is_selectable, selected_skill, traverse, route_skill_request}
use soloscale_ai_os.SkillOs.Route.Assembly.{Parts, route_from}
use soloscale_ai_os.SkillOs.Route.Sound.{parts-validate}
use soloscale_ai_os.SkillOs.Route.Recommends.{IsShort}

same_names_sound : (xs ys : List String) → same_names xs ys ≡ true → xs ≡ ys
same_names_sound [] [] h = refl
same_names_sound [] (y ∷ ys) h = absurd (ground arith)
same_names_sound (x ∷ xs) [] h = absurd (ground arith)
same_names_sound (x ∷ xs) (y ∷ ys) h = ground (arith, str_eq_iff x y, same_names_sound xs ys)

-- What loading has checked.
pub load_sound :
    (parsed : Option SkillRegistry) (files : String → SkillArtifacts) (registry : SkillRegistry)
    → load_skill_registry parsed files ≡ ok registry
    → (validate_graph registry ≡ ok tt)
      × (all validate_phase_routes registry.skills ≡ true)
      × (skill_names registry.skills ≡ skill_order)
unfolding load_skill_registry validate_registry
load_sound parsed files registry h =
    let (r, e, h1) = bind_ok (or_raise parsed invalid_registry) _ h in
    let (valid, h2) = guard_ok (not (validate_registry r)) invalid_registry _ h1 in
    let (canonical, h3) =
      guard_ok (not (same_names (skill_names r.skills) skill_order)) invalid_registry _ h2 in
    let (u, checked, h4) = bind_ok (check_all_artifacts files r.skills) (λ _. ok r) h3 in
    subst
      (λ (r : SkillRegistry).
        (validate_graph r ≡ ok tt)
        × (all validate_phase_routes r.skills ≡ true)
        × (skill_names r.skills ≡ skill_order))
      (ok_inj h4)
      (
        is_ok_sound (validate_graph r) (ground arith),
        ground arith,
        same_names_sound (skill_names r.skills) skill_order (not-false canonical),
      )
  where
    is_ok_sound : (r : Result SkillError (Unit {0})) → is_ok r ≡ true → r ≡ ok tt
    is_ok_sound (ok u) h = refl
    is_ok_sound (err e) h = absurd (ground arith)

-- A Skill of the registry that may be selected, excludes no other, and recommends models that fit.
pub record IsReady (e : SkillRegistryEntry) : Type 0 where
  pub selectable : is_selectable e.status ≡ true
  pub compatible : e.incompatible_skills ≡ []
  pub short : IsShort e

find_skill-All :
    (P : SkillRegistryEntry → Type 0) (ss : List SkillRegistryEntry) (x : String)
    (e : SkillRegistryEntry)
    → All P ss
    → find_skill ss x ≡ some e
    → P e
unfolding find_skill
find_skill-All P [] x e h found = absurd (ground arith)
find_skill-All P (s ∷ ss) x e h found = elim (Bool-cases (str_eq s.name x)) [
  | inl here ↦ subst P (some_inj (rw here at found)) h.0
  | inr other ↦ find_skill-All P ss x e h.1 (rw other at found)
]

pub get-All :
    (P : SkillRegistryEntry → Type 0) (registry : SkillRegistry) (x : String)
    (e : SkillRegistryEntry)
    → All P registry.skills
    → get registry x ≡ ok e
    → P e
unfolding get
get-All P registry x e h found = elim (Option-cases (find_skill registry.skills x)) [
  | inl absent ↦ absurd (ground arith)
  | inr (e', e1) ↦
      find_skill-All P registry.skills x e h
        (e1 ∙ ap some (ok_inj (sym (ap (λ o. or_raise o key_error) e1) ∙ found)))
]

pub traverse-get-returns :
    (registry : SkillRegistry) (names : List String)
    → subset names (skill_names registry.skills) ≡ true
    → (entries : List SkillRegistryEntry) × (traverse (get registry) names ≡ ok entries)
unfolding subset get
traverse-get-returns registry [] h = ([], refl)
traverse-get-returns registry (x ∷ names) h =
    let (e, found) = find_skill-known registry.skills x (ground arith) in
    let (es, rest) = traverse-get-returns registry names (ground arith) in
    (e ∷ es, rw (found, rest) refl)

pub selected-returns :
    (reason : String → String) (entries : List SkillRegistryEntry)
    → All IsReady entries
    → (selected : List SelectedSkill) × (traverse
          (λ (e : SkillRegistryEntry). selected_skill e (reason e.name))
          entries
        ≡ ok selected)
unfolding selected_skill
selected-returns reason [] h = ([], refl)
selected-returns reason (e ∷ es) h =
    let (ss, rest) = selected-returns reason es h.1 in
    (
      record {
        name = e.name;
        version = e.current_version;
        status = e.status;
        reason = reason e.name;
      }
          ∷ ss,
      rw (h.0.selectable, rest) refl,
    )

-- the limits on the text of a request
pub record IsBounded (tools : TextTools) (text : Text) : Type 0 where
  pub filled : is_empty (squeeze text) ≡ false
  pub within : length (squeeze text) ≤ 4000
  pub stop : length (completion (tools.find_stop (tools.casefold (squeeze text)))) ≤ 1200

completion-filled : (group : Option Text) → 1 ≤ length (completion group)
unfolding completion
completion-filled none = omega arith
completion-filled (some g) = omega arith

text-filled : (s : Text) → is_empty s ≡ false → 1 ≤ length s
text-filled [] h = absurd (ground arith)
text-filled (c ∷ s) h = omega arith

envelope-accepted :
    (t : SkillTaskEnvelope)
    → 1 ≤ length t.objective
    → length t.objective ≤ 4000
    → 1 ≤ length t.completion_condition
    → length t.completion_condition ≤ 1200
    → validate_envelope t ≡ true
unfolding validate_envelope
envelope-accepted t h1 h2 h3 h4 = ground arith

pub normalize-returns :
    (tools : TextTools) (task_id : String) (text : Text) (names : List String)
    → IsBounded tools text
    → normalize_request tools task_id text names
      ≡ ok (envelope_of tools task_id text (squeeze text) names)
unfolding normalize_request envelope_of
normalize-returns tools task_id text names bounds =
    rw (bounds.filled, short (length (squeeze text)) bounds.within, accepted) refl
  where
    short : (n : ℕ) → n ≤ 4000 → ltb 4000 n ≡ false
    short n h = ground arith

    accepted : validate_envelope (envelope_of tools task_id text (squeeze text) names) ≡ true
    accepted =
        envelope-accepted (envelope_of tools task_id text (squeeze text) names)
          (text-filled (squeeze text) bounds.filled) bounds.within (completion-filled _) bounds.stop

-- the route from all that it is put together from
pub Parts-returns :
    {tools : TextTools} {task_id : String} {registry : SkillRegistry} {text : Text}
    (parts : Parts tools task_id registry text)
    → route_skill_request tools task_id registry text ≡ ok (route_from parts)
unfolding route_skill_request
Parts-returns parts =
    rw
      (
        parts.choice_eq,
        parts.names_eq,
        parts.entries_eq,
        parts.selected_eq,
        parts.task_eq,
        parts.primary_eq,
        parts.models_eq,
        parts-validate parts,
      )
      refl
