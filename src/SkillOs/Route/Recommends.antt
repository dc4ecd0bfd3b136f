-- ===== src/SkillOs/Route/Recommends.antt =====
-- Validated entries with short routes have a model route for each phase.
use mathlib.Core.List.{Memᴰ}
use mathlib.Core.List.Memᴰ
use soloscale_ai_os.Prelude.{
  ◌≡◌, refl, suc, ◌≤◌, true, false, some, List, [], ◌∷◌, map, ap, sym, subst, String, str_eq,
  str_eq_iff, contains, subset, any, all, length, ok, err, All, arith, Bool-cases, inl, inr,
  Result-cases, subset_mem, subset_of,
}
use soloscale_ai_os.Prelude.Text.{Text, codes, starts_with, strip, is_empty}
use soloscale_ai_os.SkillOs.Models.{
  SkillError, PhaseRoutes, SkillRegistryEntry, phases, PhaseModelRoute, validate_phase_routes,
  validate_phase_route,
}
use soloscale_ai_os.SkillOs.Route.ModelRoute.{
  sort_by_rank, route_for, recommendations, cap, head_or_raise, choose_phase, choose_phases,
  choose_model_route,
}
use soloscale_ai_os.SkillOs.Route.Capped.{sort-IsHighest}

-- a recommendation that fits into a `PhaseModelRoute`
abbrev pub IsFitting : Text → Type 0
IsFitting v = (1 ≤ length v) × (length v ≤ 120)

-- every recommendation of the entry has at most 120 characters
abbrev pub IsShort : SkillRegistryEntry → Type 0
IsShort e = All (λ (r : String × Text). length r.1 ≤ 120) e.recommended_model_route

filled-length : (v : Text) → is_empty (strip v) ≡ false → 1 ≤ length v
unfolding strip
filled-length [] h = absurd (ground arith)
filled-length (c ∷ v) h = omega arith

route_for-fits :
    (rs : PhaseRoutes) (phase : String)
    → contains phase (map (λ (r : String × Text). r.0) rs) ≡ true
    → any (λ (r : String × Text). is_empty (strip r.1)) rs ≡ false
    → All (λ (r : String × Text). length r.1 ≤ 120) rs
    → (v : Text) × (route_for rs phase ≡ some v) × IsFitting v
unfolding contains strip
route_for-fits [] phase m filled short = absurd (ground arith)
route_for-fits ((k, v) ∷ rs) phase m filled short = elim (Bool-cases (str_eq k phase)) [
  | inl e ↦ (v, ground arith, (filled-length v (ground arith), short.0))
  | inr ne ↦
      let (w, found, fits) =
        route_for-fits rs phase (ground (arith, str_eq_iff phase k, str_eq_iff k phase))
          (ground arith) short.1 in
      (w, ground arith, fits)
]

entry-fits :
    (e : SkillRegistryEntry) (phase : String)
    → validate_phase_routes e ≡ true
    → IsShort e
    → contains phase phases ≡ true
    → (v : Text) × (route_for e.recommended_model_route phase ≡ some v) × IsFitting v
unfolding validate_phase_routes
entry-fits e phase valid short listed =
    route_for-fits e.recommended_model_route phase
      (subset_mem phases (map (λ (r : String × Text). r.0) e.recommended_model_route) phase
        (ground arith) listed)
      (ground arith) short

recommendations-fit :
    (entries : List SkillRegistryEntry) (phase : String)
    → all validate_phase_routes entries ≡ true
    → All IsShort entries
    → contains phase phases ≡ true
    → (values : List Text) × (recommendations entries phase ≡ ok values)
      × All IsFitting values
      × (length values ≡ length entries)
recommendations-fit [] phase valid short listed = ([], refl, tt, refl)
recommendations-fit (e ∷ es) phase valid short listed =
    let (v, found, fits) = entry-fits e phase (ground arith) short.0 listed in
    let (vs, rest, all_fit, same) = recommendations-fit es phase (ground arith) short.1 listed in
    (v ∷ vs, rw (found, rest) refl, (fits, all_fit), ap suc same)

All-Memᴰ : {A : Type 0} (P : A → Type 0) (xs : List A) (x : A) → All P xs → Memᴰ x xs → P x
All-Memᴰ P [] x h m = absurd (Memᴰ.not-nil m)
All-Memᴰ P (y ∷ xs) x h m = elim (Memᴰ.cases_cons m) [
  | inl e ↦ subst P (sym e) h.0
  | inr later ↦ All-Memᴰ P xs x h.1 later
]

head-err : (xs : List Text) (e : SkillError) → head_or_raise xs ≡ err e → xs ≡ []
head-err [] e h = refl
head-err (x ∷ xs) e h = absurd (ground arith)

cap-fits :
    (phase : String) (v : Text)
    → IsFitting v
    → validate_phase_route (record { phase = phase; recommended = cap v }) ≡ true
unfolding cap validate_phase_route
cap-fits phase v fits = elim (Bool-cases (starts_with (codes "U4") v)) [
  | inl u4 ↦ rw u4 refl
  | inr other ↦ ground arith
]

choose_phase-ok :
    (entries : List SkillRegistryEntry) (phase : String) (values : List Text) (v : Text)
    → recommendations entries phase ≡ ok values
    → head_or_raise (sort_by_rank values) ≡ ok v
    → validate_phase_route (record { phase = phase; recommended = cap v }) ≡ true
    → choose_phase entries phase ≡ ok (record { phase = phase; recommended = cap v })
unfolding choose_phase cap
choose_phase-ok entries phase values v found top valid = rw (choose_phase, found, top, valid) refl

choose_phase-returns :
    (e : SkillRegistryEntry) (es : List SkillRegistryEntry) (phase : String)
    → all validate_phase_routes (e ∷ es) ≡ true
    → All IsShort (e ∷ es)
    → contains phase phases ≡ true
    → (r : PhaseModelRoute) × (choose_phase (e ∷ es) phase ≡ ok r)
choose_phase-returns e es phase valid short listed =
    let (values, found, fit, same) = recommendations-fit (e ∷ es) phase valid short listed in
    elim (Result-cases (head_or_raise (sort_by_rank values))) [
      | inl (v, top) ↦
          let fits = All-Memᴰ IsFitting values v fit ((sort-IsHighest values).0 v top).0 in
          (
            record { phase = phase; recommended = cap v },
            choose_phase-ok (e ∷ es) phase values v found top (cap-fits phase v fits),
          )
      | inr (er, none_left) ↦
          let empty = (sort-IsHighest values).1 (head-err (sort_by_rank values) er none_left) in
          absurd (omega (arith, same, ap length empty))
    ]

choose_phases-returns :
    (e : SkillRegistryEntry) (es : List SkillRegistryEntry) (ps : List String)
    → all validate_phase_routes (e ∷ es) ≡ true
    → All IsShort (e ∷ es)
    → subset ps phases ≡ true
    → (models : List PhaseModelRoute) × (choose_phases (e ∷ es) ps ≡ ok models)
unfolding subset
choose_phases-returns e es [] valid short listed = ([], refl)
choose_phases-returns e es (p ∷ ps) valid short listed =
    let (r, e1) = choose_phase-returns e es p valid short (ground arith) in
    let (rs, e2) = choose_phases-returns e es ps valid short (ground arith) in
    (r ∷ rs, rw (e1, e2) refl)

pub choose_model_route-returns :
    (e : SkillRegistryEntry) (es : List SkillRegistryEntry)
    → all validate_phase_routes (e ∷ es) ≡ true
    → All IsShort (e ∷ es)
    → (models : List PhaseModelRoute) × (choose_model_route (e ∷ es) ≡ ok models)
unfolding choose_model_route
choose_model_route-returns e es valid short =
    choose_phases-returns e es phases valid short (subset_of phases phases (λ x m. m))
