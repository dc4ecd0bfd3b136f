-- ===== src/SkillOs/Route/Capped.antt =====
-- What a recommended model route is.
use mathlib.Core.List.{Memᴰ}
use mathlib.Core.List.Memᴰ
use soloscale_ai_os.Prelude.{
  ◌≡◌, refl, sym, ap, ◌∙◌, ◌≤◌, ◌+◌, ℕ, true, false, Option, none, some, or_raise, if◌then◌else◌,
  List, [], ◌∷◌, map, ap₂, subst, String, ok, bind_ok, ok_inj, arith, Bool-cases, inl, inr, All,
  ltb,
}
use soloscale_ai_os.Prelude.Text.{Text, codes, starts_with, text_eq, first_word}
use soloscale_ai_os.SkillOs.Models.{key_error, SkillRegistryEntry, phases, PhaseModelRoute}
use soloscale_ai_os.SkillOs.Route.ModelRoute.{
  route_rank, route_for, rank_of, insert_by_rank, sort_by_rank, recommendations, cap, head_or_raise,
  choose_phase, choose_phases, choose_model_route,
}

abbrev pub IsHighest : Text → List Text → Type 0
IsHighest v xs = Memᴰ v xs × All (λ y. rank_of y ≤ rank_of v) xs

below_trans :
    (v w : Text) (xs : List Text)
    → rank_of v ≤ rank_of w
    → All (λ y. rank_of y ≤ rank_of v) xs
    → All (λ y. rank_of y ≤ rank_of w) xs
below_trans v w [] h all = tt
below_trans v w (x ∷ xs) h all = (omega (arith, all.0), below_trans v w xs h all.1)

insert-IsHighest :
    (x : Text) (xs ys : List Text)
    → ((v : Text) → head_or_raise ys ≡ ok v → IsHighest v xs)
    → (ys ≡ [] → xs ≡ [])
    → (v : Text) → head_or_raise (insert_by_rank x ys) ≡ ok v
    → IsHighest v (x ∷ xs)
unfolding insert_by_rank
insert-IsHighest x xs [] top empty v h =
    subst (λ w. IsHighest w (x ∷ xs)) (ok_inj h) (Memᴰ.head refl, (omega arith, rw (empty refl) tt))
insert-IsHighest x xs (y ∷ ys) top empty v h = elim (Bool-cases (ltb (rank_of x) (rank_of y))) [
  | inl lower ↦
      let (member, below) = top y refl in
      subst (λ w. IsHighest w (x ∷ xs)) (ok_inj (rw lower at h))
        (Memᴰ.tail member, (ground arith, below))
  | inr higher ↦
      let (member, below) = top y refl in
      subst (λ w. IsHighest w (x ∷ xs)) (ok_inj (rw higher at h))
        (Memᴰ.head refl, (omega arith, below_trans y x xs (ground arith) below))
]

pub insert-ne-nil : (x : Text) (ys : List Text) → ¬ (insert_by_rank x ys ≡ [])
unfolding insert_by_rank
insert-ne-nil x [] h = ground arith
insert-ne-nil x (y ∷ ys) h = ground arith

cap-U4 : (r : Text) → starts_with (codes "U4") (cap r) ≡ false
unfolding cap starts_with
cap-U4 r = elim (Bool-cases (starts_with (codes "U4") r)) [
  | inl u4 ↦ rw u4 refl
  | inr other ↦ rw other other
]

pub sort-IsHighest :
    (xs : List Text)
    → ((v : Text) → head_or_raise (sort_by_rank xs) ≡ ok v → IsHighest v xs)
      × (sort_by_rank xs ≡ [] → xs ≡ [])
unfolding sort_by_rank insert_by_rank
sort-IsHighest [] = (λ v h. absurd (ground arith), λ e. refl)
sort-IsHighest (x ∷ xs) =
    let (top, empty) = sort-IsHighest xs in
    (
      insert-IsHighest x xs (sort_by_rank xs) top empty,
      λ e. absurd (insert-ne-nil x (sort_by_rank xs) e),
    )

-- The grades from the lowest to the highest; any other first word stands below them.
abbrev pub grades : List Text
grades = codes "D0" ∷ codes "F1" ∷ codes "S2" ∷ codes "D3" ∷ codes "U4" ∷ []

abbrev pub place_from : ℕ → List Text → Text → ℕ
place_from n [] word = 0
place_from n (g ∷ gs) word = if text_eq word g then n else place_from (n + 1) gs word

abbrev pub grade_of : Text → ℕ
grade_of value = place_from 1 grades (first_word value)

rank-grade : (v : Text) → rank_of v ≡ grade_of v
unfolding rank_of route_rank
rank-grade v = refl

-- an entry asks for the value in the phase
abbrev pub Asks : SkillRegistryEntry → String → Text → Type 0
Asks e phase v = route_for e.recommended_model_route phase ≡ some v

-- The value is asked for by one of the entries, and every entry asks for a value of no higher grade.
pub record IsTop (entries : List SkillRegistryEntry) (phase : String) (v : Text) : Type 0 where
  pub asked : (e : SkillRegistryEntry) × Memᴰ e entries × Asks e phase v
  pub highest : All (λ e. (w : Text) × Asks e phase w × (grade_of w ≤ grade_of v)) entries

-- The route recommends a value of the highest grade that is asked for, unless that begins with U4: then
-- it recommends D3, with the reason.
abbrev pub IsCapped : List SkillRegistryEntry → PhaseModelRoute → Type 0
IsCapped entries r =
    (v : Text) × IsTop entries r.phase v
    × (starts_with (codes "U4") v ≡ false → r.recommended ≡ v)
    × (starts_with (codes "U4") v ≡ true
        → r.recommended ≡ codes "D3 deep_architect (U4 requires explicit operator approval)")
    × (starts_with (codes "U4") r.recommended ≡ false)

route_found : (o : Option Text) (v : Text) → or_raise o key_error ≡ ok v → o ≡ some v
route_found none v h = cc
route_found (some w) v h = ap some (ok_inj h)

recommendations-asked :
    (entries : List SkillRegistryEntry) (phase : String) (values : List Text) (v : Text)
    → recommendations entries phase ≡ ok values
    → Memᴰ v values
    → (e : SkillRegistryEntry) × Memᴰ e entries × Asks e phase v
recommendations-asked [] phase values v h m =
    absurd (Memᴰ.not-nil (subst (Memᴰ v) (sym (ok_inj h)) m))
recommendations-asked (e ∷ es) phase values v h m =
    let (w, e1, h1) =
      bind_ok (or_raise (route_for e.recommended_model_route phase) key_error) _ h in
    let (ws, e2, h2) = bind_ok (recommendations es phase) _ h1 in
    elim (Memᴰ.cases_cons (subst (Memᴰ v) (sym (ok_inj h2)) m)) [
      | inl here ↦ (e, Memᴰ.head refl, route_found _ w e1 ∙ ap some (sym here))
      | inr later ↦
          let (f, at, asks) = recommendations-asked es phase ws v e2 later in
          (f, Memᴰ.tail at, asks)
    ]

recommendations-highest :
    (entries : List SkillRegistryEntry) (phase : String) (values : List Text) (v : Text)
    → recommendations entries phase ≡ ok values
    → All (λ y. rank_of y ≤ rank_of v) values
    → All (λ e. (w : Text) × Asks e phase w × (grade_of w ≤ grade_of v)) entries
recommendations-highest [] phase values v h below = tt
recommendations-highest (e ∷ es) phase values v h below =
    let (w, e1, h1) =
      bind_ok (or_raise (route_for e.recommended_model_route phase) key_error) _ h in
    let (ws, e2, h2) = bind_ok (recommendations es phase) _ h1 in
    let (first, rest) = subst (All (λ y. rank_of y ≤ rank_of v)) (sym (ok_inj h2)) below in
    (
      (
        w,
        route_found _ w e1,
        subst (λ n. grade_of w ≤ n) (rank-grade v)
            (subst (λ n. n ≤ rank_of v) (rank-grade w) first),
      ),
      recommendations-highest es phase ws v e2 rest,
    )

cap-same : (v : Text) → starts_with (codes "U4") v ≡ false → cap v ≡ v
unfolding cap
cap-same v h = rw h refl

cap-lowered :
    (v : Text)
    → starts_with (codes "U4") v ≡ true
    → cap v ≡ codes "D3 deep_architect (U4 requires explicit operator approval)"
unfolding cap
cap-lowered v h = rw h refl

choose_phase-IsCapped :
    (entries : List SkillRegistryEntry) (p : String) (r : PhaseModelRoute)
    → choose_phase entries p ≡ ok r
    → (r.phase ≡ p) × IsCapped entries r
unfolding choose_phase
choose_phase-IsCapped entries p r h =
    let (values, e1, h1) = bind_ok (recommendations entries p) _ h in
    let (v, e2, h2) = bind_ok (head_or_raise (sort_by_rank values)) _ h1 in
    let (u, e3, h3) = bind_ok _ (λ _. ok _) h2 in
    let top = (sort-IsHighest values).0 v e2 in
    subst (λ (r : PhaseModelRoute). (r.phase ≡ p) × IsCapped entries r) (ok_inj h3)
      (
        refl,
        (
          v,
          record {
            asked = recommendations-asked entries p values v e1 top.0;
            highest = recommendations-highest entries p values v e1 top.1;
          },
          cap-same v,
          cap-lowered v,
          cap-U4 v,
        ),
      )

choose_phases-IsCapped :
    (entries : List SkillRegistryEntry) (ps : List String) (models : List PhaseModelRoute)
    → choose_phases entries ps ≡ ok models
    → (map (λ (r : PhaseModelRoute). r.phase) models ≡ ps) × All (IsCapped entries) models
choose_phases-IsCapped entries [] models h =
    subst (λ l. (map (λ (r : PhaseModelRoute). r.phase) l ≡ []) × All (IsCapped entries) l)
      (ok_inj h) (refl, tt)
choose_phases-IsCapped entries (p ∷ ps) models h =
    let (r, e1, h1) = bind_ok (choose_phase entries p) _ h in
    let (rs, e2, h2) = bind_ok (choose_phases entries ps) _ h1 in
    let (phase, capped) = choose_phase-IsCapped entries p r e1 in
    let (same, rest) = choose_phases-IsCapped entries ps rs e2 in
    subst (λ l. (map (λ (r : PhaseModelRoute). r.phase) l ≡ p ∷ ps) × All (IsCapped entries) l)
      (ok_inj h2) (ap₂ (λ a l. a ∷ l) phase same, (capped, rest))

-- the phases of a task, in their order
abbrev pub five_phases : List String
five_phases = "discovery" ∷ "decision" ∷ "implementation" ∷ "verification" ∷ "review" ∷ []

-- When model routes are chosen, there is one for each of the five phases, in their order. Each phase has
-- a value that one of the selected Skills asks for in it and that no selected Skill asks above, by the
-- grades D0, F1, S2, D3, U4 and any other word below them: the route recommends that value as it is,
-- unless it begins with U4, and then D3 with the reason, so that no route begins with U4.
pub choose_model_route-IsCapped :
    (entries : List SkillRegistryEntry) (models : List PhaseModelRoute)
    → choose_model_route entries ≡ ok models
    → (map (λ (r : PhaseModelRoute). r.phase) models ≡ five_phases) × All (IsCapped entries) models
unfolding choose_model_route
choose_model_route-IsCapped entries models h = choose_phases-IsCapped entries phases models h
