-- ===== src/SkillOs/Tests.antt =====
-- The registry and the routes of the samples, and the theorems applied there.
use soloscale_ai_os.Prelude.{
  some, Bool, not, ◌&&◌, ◌||◌, all, leb, leb→le, length, All-imp, All-all, ◌≡◌, refl, ◌↔◌, ◌⊎◌, ℕ,
  true, false, List, [], ◌∷◌, ◌++◌, map, String, contains, subset, is_unique, without, ok, err,
  is_ok, arith, All,
}
use soloscale_ai_os.Prelude.Text.{
  Text, codes, squeeze, occurs_in, first_word, text_eq, strip, starts_with,
}
use soloscale_ai_os.SkillOs.Models.{
  SkillStatus, SkillRiskClass, cycle_error, incompatible, SkillRegistryEntry, SkillRegistry,
  SkillTaskRoute, PhaseModelRoute, validate_phase_routes, validate_phase_route,
}
use soloscale_ai_os.SkillOs.Registry.{
  skill_names, get, get_dependencies, entry_dependencies, validate_references, validate_graph,
}
use soloscale_ai_os.SkillOs.Registry.Visits.{Needs}
use soloscale_ai_os.SkillOs.Registry.Ends.{IsRanked}
use soloscale_ai_os.SkillOs.Registry.Ranked.{validate_graph_iff}
use soloscale_ai_os.SkillOs.Order.{dependency_order}
use soloscale_ai_os.SkillOs.Order.Lawful.{IsDependencyOrder, dependency_order-IsDependencyOrder}
use soloscale_ai_os.SkillOs.Order.Returns.{Conflict, dependency_order-returns}
use soloscale_ai_os.SkillOs.Request.{publication_channels}
use soloscale_ai_os.SkillOs.Request.Envelope.{completion}
use soloscale_ai_os.SkillOs.Route.{is_selectable, route_skill_request}
use soloscale_ai_os.SkillOs.Route.ModelRoute.{choose_model_route}
use soloscale_ai_os.SkillOs.Route.Capped.{five_phases, IsCapped, choose_model_route-IsCapped}
use soloscale_ai_os.SkillOs.Route.Sound.{IsSound, route_skill_request-IsSound}
use soloscale_ai_os.SkillOs.Route.Gates.{
  paid_gate, deployment_gate, application_gate, route_skill_request-gates,
}
use soloscale_ai_os.SkillOs.Registry.Load.{SkillArtifacts, load_skill_registry}
use soloscale_ai_os.SkillOs.Route.Ready.{IsReady, IsBounded}
use soloscale_ai_os.SkillOs.Route.Returns.{route_skill_request-returns}
use soloscale_ai_os.SkillOs.Receipt.{is_filled}
use soloscale_ai_os.SkillOs.Samples.{
  value, value_eq, routes, entry, shipped, tools, request, the_route, the_route_eq,
}

shipped_references : validate_references shipped ≡ true
unfolding validate_references is_unique subset contains
shipped_references = refl

shipped_graph : validate_graph shipped ≡ ok tt
unfolding validate_graph is_unique subset contains entry_dependencies without
shipped_graph = refl

validate_graph_iff_example : (validate_graph shipped ≡ ok tt) ↔ (
    (rank : String → ℕ) × IsRanked (entry_dependencies shipped) (skill_names shipped.skills) rank)
validate_graph_iff_example = validate_graph_iff shipped shipped_references

-- two Skills that need each other
abbrev looped : SkillRegistry
looped = record {
  skills =
      entry "draft" SkillStatus.active SkillRiskClass.low [] ("review" ∷ [])
        (routes "D0" "D0" "D0" "D0" "D0")
      ∷ entry "review" SkillStatus.active SkillRiskClass.low [] ("draft" ∷ [])
          (routes "D0" "D0" "D0" "D0" "D0")
      ∷ [];
}

looped_cycle : validate_graph looped ≡ err cycle_error
unfolding validate_graph is_unique subset contains entry_dependencies without
looped_cycle = refl

abbrev visual : List String
visual = "task-intake-and-routing" ∷ "visual-storytelling" ∷ []

abbrev visual_order : List String
visual_order =
    "task-intake-and-routing" ∷ "evidence-refresh-and-bundle" ∷ "editorial-package"
    ∷ "visual-storytelling" ∷ []

visual_ordered : dependency_order shipped visual ≡ ok visual_order
unfolding dependency_order get_dependencies contains without
visual_ordered = refl

dependency_order-IsDependencyOrder_example : IsDependencyOrder shipped visual visual_order
dependency_order-IsDependencyOrder_example =
    dependency_order-IsDependencyOrder shipped visual visual_order visual_ordered

visual_within : subset visual (skill_names shipped.skills) ≡ true
unfolding subset contains
visual_within = refl

dependency_order-returns_example :
    ((order : List String) × (dependency_order shipped visual ≡ ok order))
    ⊎ ((dependency_order shipped visual ≡ err incompatible)
        × Conflict shipped (Needs (get_dependencies shipped) visual))
dependency_order-returns_example =
    dependency_order-returns shipped shipped_graph visual visual_within

route_skill_request-IsSound_example : IsSound shipped the_route
route_skill_request-IsSound_example =
    route_skill_request-IsSound tools "skill-task-1" shipped request the_route the_route_eq

route_skill_request-gates_example :
    ((x g : String) (e : SkillRegistryEntry)
      → contains x the_route.dependency_order ≡ true
      → get shipped x ≡ ok e
      → contains g e.human_gates ≡ true
      → contains g the_route.human_gates ≡ true)
    × (the_route.task.paid_api_intent ≡ true → contains paid_gate the_route.human_gates ≡ true)
    × (the_route.task.deployment_intent ≡ true
        → contains deployment_gate the_route.human_gates ≡ true)
    × (the_route.task.application_submission_intent ≡ true
        → contains application_gate the_route.human_gates ≡ true)
route_skill_request-gates_example =
    route_skill_request-gates tools "skill-task-1" shipped request the_route the_route_eq

shipped_models : is_ok (choose_model_route shipped.skills) ≡ true
unfolding choose_model_route validate_phase_route starts_with first_word text_eq
shipped_models = refl

choose_model_route-IsCapped_example :
    (map
        (λ (r : PhaseModelRoute). r.phase)
        (value (choose_model_route shipped.skills) shipped_models)
      ≡ five_phases)
    × All (IsCapped shipped.skills) (value (choose_model_route shipped.skills) shipped_models)
choose_model_route-IsCapped_example =
    choose_model_route-IsCapped shipped.skills
      (value (choose_model_route shipped.skills) shipped_models)
      (value_eq (choose_model_route shipped.skills) shipped_models)

abbrev artifacts : String → SkillArtifacts
artifacts name = record {
  is_complete = true;
  instructions =
      codes "name: "
      ++ codes name
      ++ 10 ∷ codes "Version: `0.1.0`, Status: `DRAFT`, Status: `CANDIDATE`";
  contract_is_absolute = false;
  contract_parts = "contract.schema.json" ∷ [];
  contract_is_file = true;
  schema_is_json = true;
}

shipped_loaded : load_skill_registry (some shipped) artifacts ≡ ok shipped
unfolding load_skill_registry validate_phase_routes validate_graph is_unique subset contains
    entry_dependencies without strip occurs_in
shipped_loaded = refl

abbrev is_ready : SkillRegistryEntry → Bool
is_ready e =
    is_selectable e.status
    && not (is_filled e.incompatible_skills)
    && all (λ (r : String × Text). leb (length r.1) 120) e.recommended_model_route

not_filled : (names : List String) → not (is_filled names) ≡ true → names ≡ []
not_filled [] h = refl
not_filled (n ∷ ns) h = absurd (ground arith)

is_ready_sound : (e : SkillRegistryEntry) → is_ready e ≡ true → IsReady e
is_ready_sound e h = record {
  selectable = ground arith;
  compatible = not_filled e.incompatible_skills (ground arith);
  short =
      All-imp (λ (r : String × Text) m. leb→le (length r.1) 120 m) e.recommended_model_route
        (All-all (λ (r : String × Text). leb (length r.1) 120) e.recommended_model_route
          (ground arith));
}

shipped-IsReady : All IsReady shipped.skills
shipped-IsReady = All-imp is_ready_sound shipped.skills (All-all is_ready shipped.skills refl)

request-IsBounded : IsBounded tools request
unfolding squeeze completion
request-IsBounded = record {
  filled = refl;
  within = leb→le (length (squeeze request)) 4000 refl;
  stop = leb→le 65 1200 refl;
}

request_clear :
    ((publication_channels tools (squeeze (tools.casefold request))).ambiguous
      && not (
          (publication_channels tools (squeeze (tools.casefold request))).linkedin
          || (publication_channels tools (squeeze (tools.casefold request))).x_channel))
    ≡ false
unfolding publication_channels squeeze occurs_in starts_with
request_clear = refl

route_skill_request-returns_example :
    (route : SkillTaskRoute) × (route_skill_request tools "skill-task-1" shipped request ≡ ok route)
route_skill_request-returns_example =
    route_skill_request-returns (some shipped) artifacts shipped shipped_loaded shipped-IsReady
      tools "skill-task-1" request request-IsBounded request_clear
