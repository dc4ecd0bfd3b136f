-- ===== src/SkillOs/Registry/Ends.antt =====
-- A search has fuel enough, and where names can be ranked by their dependencies it finds no cycle.
use soloscale_ai_os.Prelude.{
  ◌≡◌, refl, ℕ, zero, suc, ◌<◌, ◌≤◌, inl, inr, true, false, List, [], ◌∷◌, ap, contains_eq, subst,
  sym, ◌∙◌, String, contains, subset, contains-cons, contains_here, contains_there, subset_mem,
  length, if◌then◌else◌, ok, err, bind_err, Result-cases, arith, Bool-cases, contains-nil,
}
use soloscale_ai_os.SkillOs.Models.{SkillError, cycle_error, out_of_fuel}
use soloscale_ai_os.SkillOs.Registry.{Dependencies, Marks, no_marks, enter, visit_each, visit}
use soloscale_ai_os.SkillOs.Registry.Visits.{visit-Extends, visit_inside}

module _ (dependencies : Dependencies) where
  -- A rule for the errors of a search: `Good` is what each call is made under, `Bad` what an error is.
  pub record ErrorRule (Good : ℕ → String → List String → Type 0) (Bad : SkillError → Type 0)
      : Type 0 where
    pub no_fuel : (x : String) (vs : List String) → Good 0 x vs → Bad out_of_fuel
    pub cycle :
        (n : ℕ) (x : String) (vs : List String)
        → Good n x vs
        → contains x vs ≡ true
        → Bad cycle_error
    pub inner :
        (n : ℕ) (x : String) (vs : List String)
        → Good (suc n) x vs
        → contains x vs ≡ false
        → (ds : List String) × (dependencies x ≡ ok ds)
          × ((y : String) → contains y ds ≡ true → Good n y (x ∷ vs))

  module _ {Good : ℕ → String → List String → Type 0} {Bad : SkillError → Type 0}
      (rule : ErrorRule Good Bad) where
    pub visit_each-err :
        (n : ℕ)
        → ((x : String) (m : Marks) (e : SkillError)
            → Good n x m.visiting
            → visit dependencies n x m ≡ err e
            → Bad e)
        → (names : List String) (m : Marks) (e : SkillError)
        → ((x : String) → contains x names ≡ true → Good n x m.visiting)
        → visit_each (visit dependencies n) names m ≡ err e
        → Bad e
    unfolding visit_each
    visit_each-err n each [] m e good h = absurd (ground arith)
    visit_each-err n each (x ∷ names) m e good h = elim (bind_err (visit dependencies n x m) _ h) [
      | inl failed ↦ each x m e (good x (contains_here x names)) failed
      | inr (o, e1, later) ↦
          visit_each-err n each names o e
            (λ y d.
              subst (Good n y) (sym (visit-Extends dependencies n x m o e1).kept)
                (good y (contains_there y x names d)))
            later
    ]

    pub visit-err :
        (n : ℕ) (x : String) (m : Marks) (e : SkillError)
        → Good n x m.visiting
        → visit dependencies n x m ≡ err e
        → Bad e
    unfolding visit
    visit-err zero x m e good h = subst Bad (ground arith) (rule.no_fuel x m.visiting good)
    visit-err (suc n) x m e good h = elim (Bool-cases (contains x m.visited)) [
      | inl seen ↦ absurd (ground arith)
      | inr new ↦ elim (Bool-cases (contains x m.visiting)) [
        | inl inside ↦ subst Bad (ground arith) (rule.cycle (suc n) x m.visiting good inside)
        | inr out ↦
            let (ds, e1, goods) = rule.inner n x m.visiting good out in
            elim (bind_err (visit_each (visit dependencies n) ds (enter x m)) _
              (sym (visit_inside dependencies n x m new out e1) ∙ h)) [
                | inl failed ↦ visit_each-err n (visit-err n) ds (enter x m) e goods failed
                | inr (o, e2, done) ↦ absurd (ground arith)
              ]
      ]
    ]

-- the names that are not in `vs`
abbrev pub room : List String → List String → ℕ
room [] vs = 0
room (n ∷ ns) vs = let rest = room ns vs in if contains n vs then rest else suc rest

room-le : (ns vs : List String) (x : String) → room ns (x ∷ vs) ≤ room ns vs
room-le [] vs x = omega arith
room-le (n ∷ ns) vs x = ground (arith, contains_there n x vs, room-le ns vs x)

room-lt :
    (ns vs : List String) (x : String)
    → contains x ns ≡ true
    → contains x vs ≡ false
    → room ns (x ∷ vs) < room ns vs
room-lt [] vs x m out = contains-nil x m
room-lt (n ∷ ns) vs x m out = elim (contains-cons x n ns m) [
  | inl e ↦
      ground
        (arith, contains_eq n x vs (sym e), ap (λ z. contains z vs) (sym e) ∙ out, room-le ns vs x)
  | inr later ↦ ground (arith, contains_there n x vs, room-lt ns vs x later out)
]

pub room-nil : (ns : List String) → room ns [] ≡ length ns
unfolding contains
room-nil [] = refl
room-nil (n ∷ ns) = ap suc (room-nil ns)

-- every name of the list has an entry, and its dependencies are in the list
abbrev pub IsKnown : Dependencies → List String → Type 0
IsKnown dependencies names =
    (x : String)
    → contains x names ≡ true
    → (ds : List String) × (dependencies x ≡ ok ds) × (subset ds names ≡ true)

-- `rank` puts what a name depends on below the name.
abbrev pub IsRanked : Dependencies → List String → (String → ℕ) → Type 0
IsRanked dependencies names rank =
    (x y : String) (ds : List String)
    → contains x names ≡ true
    → dependencies x ≡ ok ds
    → contains y ds ≡ true
    → rank y < rank x

module _ {dependencies : Dependencies} (names : List String)
    (known : IsKnown dependencies names) where
  abbrev HasRoom : ℕ → String → List String → Type 0
  HasRoom n x vs = (contains x names ≡ true) × (room names vs < n)

  room_rule : ErrorRule dependencies HasRoom (λ e. e ≡ cycle_error)
  room_rule = record {
    no_fuel = λ x vs good. absurd (omega (arith, good.1));
    cycle = λ n x vs good inside. refl;
    inner = λ n x vs good out.
        let (ds, e, within) = known x good.0 in
        (
          ds,
          e,
          λ y d. (subset_mem ds names y within d, omega (arith, room-lt names vs x good.0 out)),
        );
  }

  -- With names that are all known, a search on one unit of fuel more than there are names raises
  -- nothing but the error on a cycle.
  pub visit_each-cycle_error :
      (asked : List String) (e : SkillError)
      → subset asked names ≡ true
      → visit_each (visit dependencies (suc (length names))) asked no_marks ≡ err e
      → e ≡ cycle_error
  visit_each-cycle_error asked e within h =
      visit_each-err dependencies room_rule (suc (length names))
        (visit-err dependencies room_rule (suc (length names))) asked no_marks e
        (λ x m. (subset_mem asked names x within m, omega (arith, room-nil names))) h

  module _ (rank : String → ℕ) (ranked : IsRanked dependencies names rank) where
    abbrev IsBelow : ℕ → String → List String → Type 0
    IsBelow n x vs =
        (contains x names ≡ true)
        × (room names vs < n)
        × ((y : String) → contains y vs ≡ true → rank x < rank y)

    rank_rule : ErrorRule dependencies IsBelow (λ _. ⊥)
    rank_rule = record {
      no_fuel = λ x vs good. absurd (omega (arith, good.1));
      cycle = λ n x vs good inside. absurd (omega (arith, good.2 x inside));
      inner = λ n x vs good out.
          let (ds, e, within) = known x good.0 in
          (
            ds,
            e,
            λ y d. (
              subset_mem ds names y within d,
              omega (arith, room-lt names vs x good.0 out, good.1),
              λ z h. elim (contains-cons z x vs h) [
                | inl same ↦ subst (λ w. rank y < rank w) (sym same) (ranked x y ds good.0 e d)
                | inr before ↦ omega (arith, ranked x y ds good.0 e d, good.2 z before)
              ],
            ),
          );
    }

    pub visit_each-returns :
        (asked : List String)
        → subset asked names ≡ true
        → (m : Marks) × (visit_each (visit dependencies (suc (length names))) asked no_marks ≡ ok m)
    visit_each-returns asked within =
        elim (Result-cases (visit_each (visit dependencies (suc (length names))) asked no_marks)) [
          | inl (m, e) ↦ (m, e)
          | inr (e, h) ↦ absurd (
              visit_each-err dependencies rank_rule (suc (length names))
                (visit-err dependencies rank_rule (suc (length names))) asked no_marks e
                (λ x m. (
                  subset_mem asked names x within m,
                  omega (arith, room-nil names),
                  λ y empty. contains-nil y empty,
                ))
                h)
        ]
