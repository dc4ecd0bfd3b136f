-- ===== src/SkillOs/Registry/Lookup.antt =====
-- What looking an entry up finds in a registry whose names and references are in order.
use soloscale_ai_os.Prelude.{
  ◌≡◌, refl, inl, inr, Bool, true, false, List, [], ◌∷◌, ap, String, str_eq, str_eq_iff, contains,
  is_unique, all, none, some, Option-cases, arith, Bool-cases, ok, ◌>>=◌, or_raise, fun_ext,
}
use soloscale_ai_os.SkillOs.Registry.Ends.{IsKnown}
use soloscale_ai_os.SkillOs.Models.{key_error, SkillRegistryEntry, SkillRegistry}
use soloscale_ai_os.SkillOs.Registry.{
  skill_names, find_skill, get, entry_of, entry_dependencies, get_dependencies, validate_entry,
  validate_references,
}

pub find_skill-all :
    (p : SkillRegistryEntry → Bool) (ss : List SkillRegistryEntry) (x : String)
    (e : SkillRegistryEntry)
    → all p ss ≡ true
    → find_skill ss x ≡ some e
    → p e ≡ true
unfolding find_skill
find_skill-all p [] x e h found = ground arith
find_skill-all p (s ∷ ss) x e h found = ground (arith, find_skill-all p ss x e)

pub name-find_skill :
    (ss : List SkillRegistryEntry) (x : String) (e : SkillRegistryEntry)
    → find_skill ss x ≡ some e
    → e.name ≡ x
unfolding find_skill
name-find_skill [] x e found = ground arith
name-find_skill (s ∷ ss) x e found = ground (arith, name-find_skill ss x e, str_eq_iff s.name x)

pub find_skill-known :
    (ss : List SkillRegistryEntry) (x : String)
    → contains x (skill_names ss) ≡ true
    → (e : SkillRegistryEntry) × (find_skill ss x ≡ some e)
unfolding find_skill contains
find_skill-known [] x h = absurd (ground arith)
find_skill-known (s ∷ ss) x h = elim (Bool-cases (str_eq s.name x)) [
  | inl e ↦ (s, ground arith)
  | inr ne ↦
      let (e, found) =
        find_skill-known ss x (ground (arith, str_eq_iff x s.name, str_eq_iff s.name x)) in
      (e, ground arith)
]

find_skill-unknown :
    (ss : List SkillRegistryEntry) (x : String)
    → contains x (skill_names ss) ≡ false
    → entry_of ss x ≡ none
unfolding entry_of contains
find_skill-unknown [] x h = refl
find_skill-unknown (s ∷ ss) x h =
    ground (arith, find_skill-unknown ss x, str_eq_iff x s.name, str_eq_iff s.name x)

-- Where names are unique, the first entry of a name is the last one.
entry_of_lem :
    (ss : List SkillRegistryEntry) (x : String)
    → is_unique (skill_names ss) ≡ true
    → entry_of ss x ≡ find_skill ss x
unfolding entry_of find_skill is_unique
entry_of_lem [] x h = refl
entry_of_lem (s ∷ ss) x h = elim (Bool-cases (str_eq s.name x)) [
  | inl e ↦ ground (
    arith,
    entry_of_lem ss x,
    find_skill-unknown ss x,
    ap (λ y. contains y (skill_names ss)) ((str_eq_iff s.name x).0 e),
  )
  | inr ne ↦ elim (Option-cases (find_skill ss x)) [
    | inl absent ↦ ground (arith, entry_of_lem ss x)
    | inr (e, found) ↦ ground (arith, entry_of_lem ss x)
  ]
]

module _ (registry : SkillRegistry) (valid : validate_references registry ≡ true) where
  abbrev names : List String
  names = skill_names registry.skills

  -- The two searches of the program read the same dependencies.
  pub entry_dependencies_lem : entry_dependencies registry ≡ get_dependencies registry
  unfolding validate_references entry_dependencies get_dependencies get
  entry_dependencies_lem = fun_ext λ x.
      ap (λ o. or_raise o key_error >>= λ entry. ok entry.dependencies)
        (entry_of_lem registry.skills x (ground arith))

  pub get-known :
      (x : String)
      → contains x names ≡ true
      → (e : SkillRegistryEntry) × (get registry x ≡ ok e)
        × (e.name ≡ x)
        × (validate_entry names e ≡ true)
  unfolding get validate_references
  get-known x m =
      let (e, found) = find_skill-known registry.skills x m in
      (
        e,
        ap (λ o. or_raise o key_error) found,
        name-find_skill registry.skills x e found,
        find_skill-all (validate_entry names) registry.skills x e (ground arith) found,
      )

  pub get_dependencies-IsKnown : IsKnown (get_dependencies registry) names
  unfolding get_dependencies validate_entry
  get_dependencies-IsKnown x m =
      let (e, found, same, sound) = get-known x m in
      (e.dependencies, ap (λ r. r >>= λ entry. ok entry.dependencies) found, ground arith)
