-- ===== src/SkillOs/Registry.antt =====
-- `SkillRegistry` of skill_models.py: looking an entry up, and the validator of the whole graph with its
-- depth-first search for cycles. The search goes on fuel; `Registry/Ends.antt` shows what is enough.
pub mod Visits
pub mod Lookup
pub mod Ends
pub mod Ranked
pub mod Load
use soloscale_ai_os.Prelude.{
  ℕ, zero, suc, Bool, true, false, not, ◌&&◌, ◌||◌, Option, none, some, List, [], ◌∷◌, ◌++◌, map,
  any, String, str_eq, contains, subset, is_unique, without, length, all, Result, ok, err, ◌>>=◌,
  ◌>>◌, raise_if, or_raise, if◌then◌else◌,
}
use soloscale_ai_os.SkillOs.Models.{
  SkillError, validation_error, key_error, cycle_error, out_of_fuel, SkillRegistryEntry,
  SkillRegistry,
}

abbrev pub skill_names : List SkillRegistryEntry → List String
skill_names = map (λ (s : SkillRegistryEntry). s.name)

-- the first entry of the name
unfoldable pub find_skill : List SkillRegistryEntry → String → Option SkillRegistryEntry
find_skill [] name = none
find_skill (s ∷ ss) name =
    let rest = find_skill ss name in if str_eq s.name name then some s else rest

-- `SkillRegistry.get`
unfoldable pub get : SkillRegistry → String → Result SkillError SkillRegistryEntry
unfolding find_skill
get registry name = or_raise (find_skill registry.skills name) key_error

-- `entries[name]`, of a dict in which the last entry of a name stays
unfoldable pub entry_of : List SkillRegistryEntry → String → Option SkillRegistryEntry
entry_of [] name = none
entry_of (s ∷ ss) name = elim (entry_of ss name) [
  | some later ↦ some later
  | none ↦ if str_eq s.name name then some s else none
]

-- what `sources[name].dependencies` comes to
abbrev pub Dependencies : Type 0
Dependencies = String → Result SkillError (List String)

unfoldable pub entry_dependencies : SkillRegistry → Dependencies
unfolding entry_of
entry_dependencies registry name =
    or_raise (entry_of registry.skills name) key_error >>= λ entry. ok entry.dependencies

unfoldable pub get_dependencies : SkillRegistry → Dependencies
unfolding get
get_dependencies registry name = get registry name >>= λ entry. ok entry.dependencies

-- the two sets of the search, the newest member first
pub record Marks : Type 0 where
  pub visiting : List String
  pub visited : List String

abbrev pub no_marks : Marks
no_marks = record { visiting = []; visited = [] }

abbrev pub enter : String → Marks → Marks
enter name marks = record marks { visiting = name ∷ marks.visiting }

abbrev pub leave : String → Marks → Marks
leave name marks = record { visiting = without name marks.visiting; visited = name ∷ marks.visited }

-- `for name in names: visit(name)`
unfoldable pub visit_each {ℓ} :
    {S : Type ℓ} → (String → S → Result SkillError S) → List String → S → Result SkillError S
visit_each visit_one [] state = ok state
visit_each visit_one (name ∷ names) state =
    visit_one name state >>= λ next. visit_each visit_one names next

unfoldable pub visit : Dependencies → ℕ → String → Marks → Result SkillError Marks
unfolding visit_each
visit dependencies zero name marks = err out_of_fuel
visit dependencies (suc fuel) name marks =
    let inner = visit dependencies fuel in
    if contains name marks.visited
    then ok marks
    else if contains name marks.visiting
    then err cycle_error
    else (dependencies name >>= λ names.
        visit_each inner names (enter name marks) >>= λ done. ok (leave name done))

-- one more than the nesting of the search, which never enters a name twice
abbrev pub fuel_of : SkillRegistry → ℕ
fuel_of registry = suc (length registry.skills)

unfoldable pub validate_entry : List String → SkillRegistryEntry → Bool
validate_entry known skill =
    (subset skill.dependencies known && subset skill.incompatible_skills known)
    && is_unique skill.dependencies
    && is_unique skill.incompatible_skills

-- the checks in front of the search
unfoldable pub validate_references : SkillRegistry → Bool
unfolding validate_entry
validate_references registry =
    let known = skill_names registry.skills in
    is_unique known && all (validate_entry known) registry.skills

-- `SkillRegistry.validate_graph`
unfoldable pub validate_graph : SkillRegistry → Result SkillError (Unit {0})
unfolding validate_references visit_each visit
validate_graph registry =
    raise_if (not (validate_references registry)) validation_error
    >> (visit_each (visit (entry_dependencies registry) (fuel_of registry))
          (skill_names registry.skills) no_marks
        >>= λ done. ok tt)
