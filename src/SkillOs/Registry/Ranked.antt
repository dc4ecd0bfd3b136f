-- ===== src/SkillOs/Registry/Ranked.antt =====
-- What `validate_graph` decides.
use soloscale_ai_os.Prelude.{
  ◌≡◌, refl, ◌↔◌, ℕ, suc, ◌<◌, inl, inr, true, false, List, [], ◌∷◌, ap, sym, subst, ◌∙◌, String,
  str_eq, str_eq_iff, contains, subset, length, if◌then◌else◌, contains-cons, contains-nil,
  contains_there, subset_mem, subset_of, Result, ok, ◌>>=◌, ok_inj, bind_ok, arith, Bool-cases,
}
use soloscale_ai_os.SkillOs.Models.{SkillError, SkillRegistryEntry, SkillRegistry}
use soloscale_ai_os.SkillOs.Registry.{
  Dependencies, Marks, no_marks, skill_names, entry_dependencies, visit_each, visit, fuel_of,
  validate_references, validate_graph,
}
use soloscale_ai_os.SkillOs.Registry.Visits.{IsOrdered, visit_each-Extends, visit-Extends}
use soloscale_ai_os.SkillOs.Registry.Lookup.{entry_dependencies_lem, get_dependencies-IsKnown}
use soloscale_ai_os.SkillOs.Registry.Ends.{IsKnown, IsRanked, visit_each-returns}

-- the number of names that stand behind one
abbrev place : List String → String → ℕ
place [] x = 0
place (y ∷ rest) x = let later = place rest x in if str_eq y x then length rest else later

place-lt : (L : List String) (x : String) → contains x L ≡ true → place L x < length L
unfolding contains
place-lt [] x m = absurd (ground arith)
place-lt (y ∷ rest) x m = ground (arith, place-lt rest x, str_eq_iff x y, str_eq_iff y x)

module _ (dependencies : Dependencies) where
  names_agree :
      {x y : String} {ds es : List String}
      → x ≡ y
      → dependencies x ≡ ok ds
      → dependencies y ≡ ok es
      → ds ≡ es
  names_agree same e e' = ok_inj (sym e ∙ ap dependencies same ∙ e')

  pub IsOrdered-closed :
      (L : List String) (x y : String) (ds : List String)
      → IsOrdered dependencies L
      → contains x L ≡ true
      → dependencies x ≡ ok ds
      → contains y ds ≡ true
      → contains y L ≡ true
  IsOrdered-closed [] x y ds o m e d = contains-nil x m
  IsOrdered-closed (z ∷ rest) x y ds (((ds', e', within), new), o) m e d =
      contains_there y z rest (elim (contains-cons x z rest m) [
        | inl same ↦
            subset_mem ds' rest y within
              (subst (λ r. contains y r ≡ true) (names_agree same e e') d)
        | inr later ↦ IsOrdered-closed rest x y ds o later e d
      ])

  -- In an ordered list the places rank the names by their dependencies.
  place-IsRanked : (L : List String) → IsOrdered dependencies L → IsRanked dependencies L (place L)
  place-IsRanked [] o x y ds m e d = contains-nil x m
  place-IsRanked (z ∷ rest) (((ds', e', within), new), o) x y ds m e d =
      elim (contains-cons x z rest m) [
        | inl same ↦
            let inside =
              subset_mem ds' rest y within
                (subst (λ r. contains y r ≡ true) (names_agree same e e') d) in
            ground (arith, place-lt rest y inside, differs y inside, str_eq_iff z x, sym same)
        | inr later ↦
            let inside = IsOrdered-closed rest x y ds o later e d in
            ground
              (arith, place-IsRanked rest o x y ds later e d, differs y inside, differs x later)
      ]
    where
      differs : (w : String) → contains w rest ≡ true → str_eq z w ≡ false
      differs w h = elim (Bool-cases (str_eq z w)) [
        | inl e ↦ absurd (cc (ap (λ v. contains v rest) ((str_eq_iff z w).0 e), h, new))
        | inr ne ↦ ne
      ]

  pub IsRanked-subset :
      (xs ys : List String) {rank : String → ℕ}
      → subset xs ys ≡ true
      → IsRanked dependencies ys rank
      → IsRanked dependencies xs rank
  IsRanked-subset xs ys h ranked x y ds m = ranked x y ds (subset_mem xs ys x h m)

  pub visit_each-IsRanked :
      (fuel : ℕ) (asked : List String) (m : Marks)
      → visit_each (visit dependencies fuel) asked no_marks ≡ ok m
      → (rank : String → ℕ) × IsRanked dependencies asked rank
  visit_each-IsRanked fuel asked m h =
      let done =
        visit_each-Extends dependencies (visit dependencies fuel) (visit-Extends dependencies fuel)
          asked no_marks m h in
      (
        place m.visited,
        IsRanked-subset asked m.visited (subset_of asked m.visited done.marks)
            (place-IsRanked m.visited (done.ordered tt)),
      )

pub length-skill_names : (ss : List SkillRegistryEntry) → length (skill_names ss) ≡ length ss
length-skill_names [] = refl
length-skill_names (s ∷ ss) = ap suc (length-skill_names ss)

module _ (registry : SkillRegistry) (valid : validate_references registry ≡ true) where
  abbrev names : List String
  names = skill_names registry.skills

  pub entry_dependencies-IsKnown : IsKnown (entry_dependencies registry) names
  entry_dependencies-IsKnown =
      subst (λ d. IsKnown d names) (sym (entry_dependencies_lem registry valid))
        (get_dependencies-IsKnown registry valid)

  abbrev search : Result SkillError Marks
  search = visit_each (visit (entry_dependencies registry) (fuel_of registry)) names no_marks

  pub validate_graph-search : validate_graph registry ≡ (search >>= λ done. ok tt)
  unfolding validate_graph
  validate_graph-search = ground arith

-- For a registry whose names are unique and whose references are known, the validator accepts the
-- graph exactly when some ranking of the names puts what a Skill depends on below the Skill, that is,
-- when the dependencies have no cycle.
pub validate_graph_iff :
    (registry : SkillRegistry)
    → validate_references registry ≡ true
    → (validate_graph registry ≡ ok tt) ↔ (
        (rank : String → ℕ) × IsRanked
          (entry_dependencies registry)
          (skill_names registry.skills)
          rank)
validate_graph_iff registry valid = (
  λ h.
      let (m, e, h1) =
        bind_ok (search registry valid) _ (sym (validate_graph-search registry valid) ∙ h) in
      visit_each-IsRanked (entry_dependencies registry) (fuel_of registry)
        (skill_names registry.skills) m e,
  λ (rank, ranked).
      let (m, e) =
        visit_each-returns (skill_names registry.skills) (entry_dependencies-IsKnown registry valid)
          rank ranked (skill_names registry.skills) (subset_of _ _ (λ x m. m)) in
      validate_graph-search registry valid
      ∙ ap (λ r. r >>= λ done. ok tt)
          (ap
              (λ n.
                visit_each (visit (entry_dependencies registry) (suc n))
                  (skill_names registry.skills) no_marks)
              (sym (length-skill_names registry.skills))
            ∙ e),
)
