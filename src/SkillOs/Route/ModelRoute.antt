-- ===== src/SkillOs/Route/ModelRoute.antt =====
-- `_choose_model_route`: for each phase the recommendation of the highest rank, capped at D3.
use soloscale_ai_os.Prelude.{
  ℕ, not, Option, none, some, List, [], ◌∷◌, String, str_eq, ltb, Result, ok, err, ◌>>=◌, ◌>>◌,
  raise_if, or_raise, if◌then◌else◌,
}
use soloscale_ai_os.Prelude.Text.{Text, codes, text_eq, starts_with, first_word}
use soloscale_ai_os.SkillOs.Models.{
  SkillError, key_error, validation_error, SkillRegistryEntry, PhaseRoutes, phases, PhaseModelRoute,
  validate_phase_route,
}

-- `_ROUTE_RANK.get(word, -1)`, one higher
unfoldable pub route_rank : Text → ℕ
unfolding text_eq
route_rank word =
    if text_eq word (codes "D0")
    then 1
    else if text_eq word (codes "F1")
    then 2
    else if text_eq word (codes "S2")
    then 3
    else if text_eq word (codes "D3")
    then 4
    else if text_eq word (codes "U4")
    then 5
    else 0

unfoldable pub rank_of : Text → ℕ
unfolding first_word route_rank
rank_of value = route_rank (first_word value)

-- stable, the highest rank first
unfoldable pub insert_by_rank : Text → List Text → List Text
unfolding rank_of
insert_by_rank x [] = x ∷ []
insert_by_rank x (y ∷ ys) =
    let rest = insert_by_rank x ys in if ltb (rank_of x) (rank_of y) then y ∷ rest else x ∷ y ∷ ys

unfoldable pub sort_by_rank : List Text → List Text
unfolding insert_by_rank
sort_by_rank [] = []
sort_by_rank (x ∷ xs) = insert_by_rank x (sort_by_rank xs)

-- `routes[phase]`
abbrev pub route_for : PhaseRoutes → String → Option Text
route_for [] phase = none
route_for ((k, v) ∷ rs) phase =
    let rest = route_for rs phase in if str_eq k phase then some v else rest

abbrev pub recommendations : List SkillRegistryEntry → String → Result SkillError (List Text)
recommendations [] phase = ok []
recommendations (e ∷ es) phase =
    or_raise (route_for e.recommended_model_route phase) key_error >>= λ value.
    recommendations es phase >>= λ values. ok (value ∷ values)

abbrev pub capped_route : Text
capped_route = codes "D3 deep_architect (U4 requires explicit operator approval)"

-- `if recommended.startswith("U4")`
unfoldable pub cap : Text → Text
unfolding starts_with
cap recommended = if starts_with (codes "U4") recommended then capped_route else recommended

abbrev pub head_or_raise : List Text → Result SkillError Text
head_or_raise [] = err key_error
head_or_raise (x ∷ xs) = ok x

unfoldable pub choose_phase : List SkillRegistryEntry → String → Result SkillError PhaseModelRoute
unfolding sort_by_rank cap
choose_phase entries phase = do
  values ← recommendations entries phase
  recommended ← head_or_raise (sort_by_rank values)
  let route : PhaseModelRoute = record { phase = phase; recommended = cap recommended }
  raise_if (not (validate_phase_route route)) validation_error
  ok route

abbrev pub choose_phases :
    List SkillRegistryEntry → List String → Result SkillError (List PhaseModelRoute)
choose_phases entries [] = ok []
choose_phases entries (phase ∷ rest) = choose_phase entries phase >>= λ route.
    choose_phases entries rest >>= λ routes. ok (route ∷ routes)

unfoldable pub choose_model_route :
    List SkillRegistryEntry → Result SkillError (List PhaseModelRoute)
unfolding choose_phase
choose_model_route entries = choose_phases entries phases
