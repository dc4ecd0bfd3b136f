-- ===== src/SkillOs/Receipt/Fields.antt =====
-- The fields that a receipt takes over from a route have the lengths that they need.
use soloscale_ai_os.Prelude.{
  ◌≡◌, refl, true, ap, ◌∙◌, map, length, ◌==◌, contains, bind_ok, ok_inj, List, [], ◌∷◌, sym,
  String, ok, arith,
}
use soloscale_ai_os.Prelude.Text.{Text}
use soloscale_ai_os.SkillOs.Models.{SkillRegistry, SelectedSkill, SkillTaskRoute, PhaseModelRoute}
use soloscale_ai_os.SkillOs.Request.{TextTools}
use soloscale_ai_os.SkillOs.Route.{traverse, selected_named, assemble}
use soloscale_ai_os.SkillOs.Route.Assembly.{Parts, route_from}
use soloscale_ai_os.SkillOs.Route.Sound.{primary_listed, Parts-phases}
use soloscale_ai_os.SkillOs.Route.Capped.{five_phases}
use soloscale_ai_os.SkillOs.Receipt.{is_filled}

-- the fields of a route that its receipt takes over have their lengths
pub record HasFields (route : SkillTaskRoute) : Type 0 where
  pub ordered : is_filled route.dependency_order ≡ true
  pub reasons : is_filled route.routing_reason ≡ true
  pub five : length route.model_route == 5 ≡ true

pub filled-traverse :
    (ss : List SelectedSkill) (names : List String) (selected : List SelectedSkill)
    → is_filled names ≡ true
    → traverse (selected_named ss) names ≡ ok selected
    → is_filled selected ≡ true
filled-traverse ss [] selected h e = cc
filled-traverse ss (n ∷ names) selected h e =
    let (x, e1, h1) = bind_ok (selected_named ss n) _ e in
    let (xs, e2, h2) = bind_ok (traverse (selected_named ss) names) _ h1 in
    ap (λ (l : List SelectedSkill). is_filled l) (sym (ok_inj h2))

length-phases :
    (models : List PhaseModelRoute)
    → length (map (λ (r : PhaseModelRoute). r.phase) models) ≡ length models
length-phases [] = refl
length-phases (m ∷ models) = ground (arith, length-phases models)

five_long :
    (models : List PhaseModelRoute)
    → map (λ (r : PhaseModelRoute). r.phase) models ≡ five_phases
    → length models == 5 ≡ true
five_long models h = ap (λ n. n == 5) (sym (length-phases models)) ∙ ap (λ l. length l == 5) h

filled-contains :
    (x : String) (names : List String) → contains x names ≡ true → is_filled names ≡ true
unfolding contains
filled-contains x [] h = ground arith
filled-contains x (n ∷ names) h = refl

filled-map :
    (f : String → String × String) (names : List String)
    → is_filled names ≡ true
    → is_filled (map f names) ≡ true
filled-map f [] h = h
filled-map f (n ∷ names) h = refl

pub Parts-HasFields :
    {tools : TextTools} {task_id : String} {registry : SkillRegistry} {text : Text}
    (parts : Parts tools task_id registry text)
    → HasFields (route_from parts)
unfolding assemble
Parts-HasFields parts =
    let filled = filled-contains parts.choice.primary_name parts.names (primary_listed parts) in
    record {
      ordered = filled;
      reasons = filled-map _ parts.names filled;
      five = five_long parts.models (Parts-phases parts);
    }
