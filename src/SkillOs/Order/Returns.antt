-- ===== src/SkillOs/Order/Returns.antt =====
-- For a validated registry the order of known names is returned, or two of them are incompatible.
use soloscale_ai_os.Prelude.{
  ◌≡◌, refl, ℕ, suc, ◌⊎◌, inl, inr, true, not, List, [], ◌∷◌, ap, sym, subst, ◌∙◌, String, contains,
  subset, any, contains_here, contains_there, subset_mem, ok, err, raise_if, bind_ok, raise_if_ok,
  ok_inj, not-false, arith, Bool-cases, Result-cases,
}
use soloscale_ai_os.SkillOs.Models.{
  incompatible, validation_error, SkillRegistryEntry, SkillRegistry,
}
use soloscale_ai_os.SkillOs.Registry.{
  no_marks, skill_names, get, get_dependencies, visit_each, visit, fuel_of, validate_references,
  validate_graph,
}
use soloscale_ai_os.SkillOs.Registry.Visits.{Needs, asked, through}
use soloscale_ai_os.SkillOs.Registry.Lookup.{
  entry_dependencies_lem, get-known, get_dependencies-IsKnown,
}
use soloscale_ai_os.SkillOs.Registry.Ends.{IsRanked, visit_each-returns}
use soloscale_ai_os.SkillOs.Registry.Ranked.{length-skill_names, validate_graph_iff}
use soloscale_ai_os.SkillOs.Order.{Walk, check_conflicts, dependency_order}
use soloscale_ai_os.SkillOs.Order.Steps.{walk-err}
use soloscale_ai_os.SkillOs.Order.Lawful.{walk, walk-order}

-- two names of the lists of which the second is incompatible with the first
abbrev pub Conflict : SkillRegistry → (String → Type 0) → Type 0
Conflict registry P =
    (x : String) × (y : String) × (e : SkillRegistryEntry) × P x
    × P y
    × (get registry x ≡ ok e)
    × (contains y e.incompatible_skills ≡ true)

any-true :
    (names selected : List String)
    → any (λ other. contains other selected) names ≡ true
    → (y : String) × (contains y selected ≡ true) × (contains y names ≡ true)
any-true [] selected h = absurd (ground arith)
any-true (x ∷ names) selected h = elim (Bool-cases (contains x selected)) [
  | inl m ↦ (x, m, contains_here x names)
  | inr absent ↦
      let (y, s, m) = any-true names selected (ground arith) in (y, s, contains_there y x names m)
]

module _ (registry : SkillRegistry) (P : String → Type 0) where
  check_conflicts-cases :
      (selected names : List String)
      → ((y : String) → contains y selected ≡ true → P y)
      → ((x : String)
          → contains x names ≡ true
          → P x × (e : SkillRegistryEntry) × (get registry x ≡ ok e))
      → (check_conflicts registry selected names ≡ ok tt)
        ⊎ ((check_conflicts registry selected names ≡ err incompatible) × Conflict registry P)
  unfolding check_conflicts
  check_conflicts-cases selected [] hs known = inl refl
  check_conflicts-cases selected (x ∷ names) hs known =
      let (px, e, found) = known x (contains_here x names) in
      elim (Bool-cases (any (λ o. contains o selected) e.incompatible_skills)) [
        | inl clash ↦
            let (y, s, m) = any-true e.incompatible_skills selected clash in
            inr (rw (found, clash) refl, (x, y, e, px, hs y s, found, m))
        | inr free ↦
            elim (check_conflicts-cases selected names hs
              (λ z m. known z (contains_there z x names m))) [
                | inl done ↦ inl (rw (found, free, done) refl)
                | inr (failed, conflict) ↦ inr (rw (found, free, failed) refl, conflict)
              ]
      ]

-- What a validated registry has: unique names, known references, and a ranking.
validate_graph_sound :
    (registry : SkillRegistry)
    → validate_graph registry ≡ ok tt
    → (validate_references registry ≡ true)
      × (rank : String → ℕ) × IsRanked
          (get_dependencies registry)
          (skill_names registry.skills)
          rank
unfolding validate_graph
validate_graph_sound registry h =
    let (u, checked, h1) =
      bind_ok (raise_if (not (validate_references registry)) validation_error) _ h in
    let valid = not-false (raise_if_ok _ _ checked) in
    let (rank, ranked) = (validate_graph_iff registry valid).0 h in
    (
      valid,
      rank,
      subst (λ d. IsRanked d (skill_names registry.skills) rank)
          (entry_dependencies_lem registry valid) ranked,
    )

module _ (registry : SkillRegistry) (valid : validate_graph registry ≡ ok tt)
    (explicit : List String) (within : subset explicit (skill_names registry.skills) ≡ true) where
  pub walk-returns : (w : Walk) × (walk registry explicit ≡ ok w)
  walk-returns = elim (Result-cases (walk registry explicit)) [
    | inl (w, e) ↦ (w, e)
    | inr (e, h) ↦
        let (references, rank, ranked) = validate_graph_sound registry valid in
        let (m, found) =
          visit_each-returns (skill_names registry.skills)
            (get_dependencies-IsKnown registry references) rank ranked explicit within in
        absurd (
          cc (
            walk-err (get_dependencies registry) (fuel_of registry) explicit e h,
            ap (λ n. visit_each (visit (get_dependencies registry) (suc n)) explicit no_marks)
                  (sym (length-skill_names registry.skills))
                ∙ found,
          ))
  ]

  pub needed-known :
      {x : String}
      → Needs (get_dependencies registry) explicit x
      → contains x (skill_names registry.skills) ≡ true
  needed-known (asked m) = subset_mem explicit _ _ within m
  needed-known (through {x} {y} need e d) =
      let (references, rank, ranked) = validate_graph_sound registry valid in
      let (ds, found, inside) =
        get_dependencies-IsKnown registry references x (needed-known need) in
      subset_mem ds _ _ inside (subst (λ l. contains y l ≡ true) (ok_inj (sym e ∙ found)) d)

  -- In a validated registry, for names that it has, the order is returned, unless two of the names that
  -- are asked for or needed are incompatible: then that is the error. There is no other.
  pub dependency_order-returns :
      ((order : List String) × (dependency_order registry explicit ≡ ok order))
      ⊎ ((dependency_order registry explicit ≡ err incompatible)
          × Conflict registry (Needs (get_dependencies registry) explicit))
  unfolding dependency_order
  dependency_order-returns =
      let (w, e) = walk-returns in
      let (ordered, exact) = walk-order registry explicit w e in
      let (references, rank, ranked) = validate_graph_sound registry valid in
      elim (check_conflicts-cases registry (Needs (get_dependencies registry) explicit) w.ordered
        w.ordered (λ y m. (exact y).0 m)
        (λ x m.
          let (entry, found, same, sound) =
            get-known registry references x (needed-known ((exact x).0 m)) in
          ((exact x).0 m, entry, found))) [
            | inl done ↦ inl (w.ordered, rw (e, done) refl)
            | inr (failed, conflict) ↦ inr (rw (e, failed) refl, conflict)
          ]
