-- ===== src/SkillOs/Samples.antt =====
-- The registry that the repository ships, a request, and tools that fold the case of ASCII and find
-- plain words.
use soloscale_ai_os.Prelude.{
  ◌≡◌, refl, ℕ, suc, true, false, none, List, [], ◌∷◌, map, String, contains, subset, is_unique,
  without, dedupe, Result, ok, err, is_ok, arith, if◌then◌else◌, ◌+◌,
}
use soloscale_ai_os.Prelude.Text.{
  Text, codes, squeeze, occurs_in, first_word, text_eq, strip, between, starts_with,
}
use soloscale_ai_os.SkillOs.Models.{
  SkillStatus, SkillRiskClass, SkillError, PhaseRoutes, SkillRegistryEntry, SkillRegistry,
  SkillTaskRoute, validate_selected_route, validate_envelope, validate_phase_route,
}
use soloscale_ai_os.SkillOs.Registry.{get, get_dependencies}
use soloscale_ai_os.SkillOs.Order.{dependency_order}
use soloscale_ai_os.SkillOs.Request.{TextTools, deployment_intent, application_intent, paid_intent}
use soloscale_ai_os.SkillOs.Request.Envelope.{
  normalize_request, requested_artifacts, workstream, available_inputs, completion,
}
use soloscale_ai_os.SkillOs.Route.{route_skill_request}
use soloscale_ai_os.SkillOs.Route.Intents.{reason_of, choose_skills}
use soloscale_ai_os.SkillOs.Route.ModelRoute.{choose_model_route}

-- a value that a computation has come to
abbrev pub value : {A : Type 0} (r : Result SkillError A) → is_ok r ≡ true → A
value (ok a) h = a
value (err e) h = absurd (ground arith)

pub value_eq : {A : Type 0} (r : Result SkillError A) (h : is_ok r ≡ true) → r ≡ ok (value r h)
value_eq (ok a) h = refl
value_eq (err e) h = absurd (ground arith)

abbrev pub routes : (a b c d e : String) → PhaseRoutes
routes a b c d e =
    ("discovery", codes a)
    ∷ ("decision", codes b)
    ∷ ("implementation", codes c)
    ∷ ("verification", codes d)
    ∷ ("review", codes e)
    ∷ []

abbrev pub entry :
    String
    → SkillStatus
    → SkillRiskClass
    → List String
    → List String
    → PhaseRoutes
    → SkillRegistryEntry
entry name status risk gates dependencies models = record {
  name = name;
  current_version = "0.1.0";
  status = status;
  risk_class = risk;
  human_gates = gates;
  recommended_model_route = models;
  dependencies = dependencies;
  incompatible_skills = [];
}

-- .agents/skills/registry.yaml
abbrev pub shipped : SkillRegistry
shipped = record {
  skills =
      (entry "task-intake-and-routing" SkillStatus.draft SkillRiskClass.low ([]) ([])
        (routes "S2" "S2" "S2" "D0" "D3"))
      ∷ (entry "evidence-refresh-and-bundle" SkillStatus.candidate SkillRiskClass.medium ([]) ([])
          (routes "D0" "S2" "D0" "D0" "D3"))
      ∷ (entry "editorial-package" SkillStatus.draft SkillRiskClass.medium
          ("Fact-check before public use" ∷ []) ("evidence-refresh-and-bundle" ∷ [])
          (routes "D3" "D3" "S2" "D0" "D3"))
      ∷ (entry "visual-storytelling" SkillStatus.draft SkillRiskClass.medium
          ("Public-safety review before public use" ∷ []) ("editorial-package" ∷ [])
          (routes "S2" "D3" "S2" "D0" "D3"))
      ∷ (entry "linkedin-publishing" SkillStatus.draft SkillRiskClass.high
          ("Explicit PUBLISH confirmation immediately before platform calls" ∷ []) ([])
          (routes "D0" "S2" "D0" "D0" "D3"))
      ∷ (entry "x-thread-publishing" SkillStatus.draft SkillRiskClass.high
          ("Explicit PUBLISH confirmation immediately before platform calls" ∷ []) ([])
          (routes "D0" "S2" "D0" "D0" "D3"))
      ∷ (entry "resume-tailoring" SkillStatus.candidate SkillRiskClass.high
          ("Candidate Profile approval before resume generation"
            ∷ "Application review before submission" ∷ [])
          ("evidence-refresh-and-bundle" ∷ []) (routes "D3" "D3" "S2" "D0" "D3"))
      ∷ (entry "learning-gap-to-packet" SkillStatus.candidate SkillRiskClass.medium
          ("Mastery promotion review" ∷ []) ([]) (routes "S2" "D3" "S2" "D0" "D3"))
      ∷ (entry "skill-distillation" SkillStatus.draft SkillRiskClass.medium
          ("Skill promotion or version-update approval" ∷ []) ([])
          (routes "S2" "D3" "S2" "D0" "D3"))
      ∷ [];
}

-- Case folding and matching for requests in plain words.
abbrev pub lower : Text → Text
lower = map (λ c. if between 65 90 c then c + 32 else c)

abbrev pub positions : Text → ℕ → Text → List ℕ
positions needle at_place [] = []
positions needle at_place (c ∷ s) =
    let rest = positions needle (suc at_place) s in
    if starts_with needle (c ∷ s) then at_place ∷ rest else rest

abbrev pub zeros : String
zeros = "0000000000000000000000000000000000000000000000000000000000000000"

abbrev pub tools : TextTools
tools = record {
  casefold = lower;
  sha256 = λ s. zeros;
  find_actions =
      λ s. map (λ n. record { start = n; negated = false }) (positions (codes "publish") 0 s);
  find_linkedin = positions (codes "linkedin") 0;
  find_x = positions (codes "twitter") 0;
  negates_channel = λ s. false;
  find_stop = λ s. none;
}

abbrev pub request : Text
request = codes "Publish the approved  post on LinkedIn and deploy it"

pub request_routes : is_ok (route_skill_request tools "skill-task-1" shipped request) ≡ true
unfolding route_skill_request squeeze choose_skills dependency_order get_dependencies get contains
    without normalize_request deployment_intent application_intent paid_intent requested_artifacts
    workstream available_inputs completion validate_envelope choose_model_route validate_phase_route
    starts_with validate_selected_route is_unique subset dedupe reason_of occurs_in first_word
    text_eq strip
request_routes = refl

abbrev pub the_route : SkillTaskRoute
the_route = value (route_skill_request tools "skill-task-1" shipped request) request_routes

pub the_route_eq : route_skill_request tools "skill-task-1" shipped request ≡ ok the_route
the_route_eq = value_eq (route_skill_request tools "skill-task-1" shipped request) request_routes
