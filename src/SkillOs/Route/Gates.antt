-- ===== src/SkillOs/Route/Gates.antt =====
-- The human gates of a route: none of a selected Skill is lost, and each intent that costs or commits
-- brings its own.
use soloscale_ai_os.Prelude.{
  ◌≡◌, refl, Bool, true, false, ◌&&◌, ◌||◌, List, [], ◌∷◌, ap, sym, ◌∙◌, subst, String, str_eq,
  str_eq_iff, contains, contains-append, contains-dedupe, contains-cons, contains-nil, ok, bind_ok,
  ok_inj, arith, inl, inr,
}
use soloscale_ai_os.Prelude.Text.{Text}
use soloscale_ai_os.SkillOs.Models.{
  SkillRegistryEntry, SkillRegistry, SkillTaskEnvelope, SkillTaskRoute,
}
use soloscale_ai_os.SkillOs.Registry.{get}
use soloscale_ai_os.SkillOs.Request.{TextTools, when}
use soloscale_ai_os.SkillOs.Route.{traverse, all_gates, human_gates, assemble, route_skill_request}
use soloscale_ai_os.SkillOs.Route.Assembly.{route-Parts}

abbrev pub paid_gate : String
paid_gate = "Approve paid API usage and cost boundary"

abbrev pub deployment_gate : String
deployment_gate = "Approve production deployment"

abbrev pub application_gate : String
application_gate = "Approve job application submission"

contains-when :
    (g x : String) (test : Bool) → contains g (when test (x ∷ [])) ≡ (test && str_eq g x)
unfolding contains
contains-when g x true = ground arith
contains-when g x false = refl

-- The gates are those of the selected Skills and those of the intents.
pub human_gates_lem :
    (g : String) (entries : List SkillRegistryEntry) (task : SkillTaskEnvelope)
    → contains g (human_gates entries task) ≡ (
        contains g (all_gates entries)
        || (task.paid_api_intent && str_eq g paid_gate)
        || (task.deployment_intent && str_eq g deployment_gate)
        || (task.application_submission_intent && str_eq g application_gate))
unfolding human_gates
human_gates_lem g entries task = simp (contains-dedupe, contains-append, contains-when)

pub all_gates-contains :
    (registry : SkillRegistry) (names : List String) (entries : List SkillRegistryEntry)
    (x g : String) (e : SkillRegistryEntry)
    → traverse (get registry) names ≡ ok entries
    → contains x names ≡ true
    → get registry x ≡ ok e
    → contains g e.human_gates ≡ true
    → contains g (all_gates entries) ≡ true
all_gates-contains registry [] entries x g e h m found gate = contains-nil x m
all_gates-contains registry (y ∷ names) entries x g e h m found gate =
    let (e', e1, h1) = bind_ok (get registry y) _ h in
    let (es, e2, h2) = bind_ok (traverse (get registry) names) _ h1 in
    subst (λ l. contains g (all_gates l) ≡ true) (ok_inj h2)
      (contains-append g e'.human_gates (all_gates es) ∙ elim (contains-cons x y names m) [
        | inl same ↦ ground (
          arith,
          subst (λ (i : SkillRegistryEntry). contains g i.human_gates ≡ true)
              (ok_inj (sym found ∙ ap (get registry) same ∙ e1)) gate,
        )
        | inr later ↦ ground (arith, all_gates-contains registry names es x g e e2 later found gate)
      ])

pub traverse-listed :
    (registry : SkillRegistry) (names : List String) (entries : List SkillRegistryEntry)
    (x : String)
    → traverse (get registry) names ≡ ok entries
    → contains x names ≡ true
    → (e : SkillRegistryEntry) × (get registry x ≡ ok e)
traverse-listed registry [] entries x h m = contains-nil x m
traverse-listed registry (y ∷ names) entries x h m =
    let (e', e1, h1) = bind_ok (get registry y) _ h in
    let (es, e2, h2) = bind_ok (traverse (get registry) names) _ h1 in
    elim (contains-cons x y names m) [
      | inl same ↦ (e', ap (get registry) same ∙ e1)
      | inr later ↦ traverse-listed registry names es x e2 later
    ]

-- When a route is returned, each gate that the registry gives one of its Skills is among the human gates
-- of the route, and a request that asks for a paid call, a deployment or the submission of an
-- application has the gate for that.
pub route_skill_request-gates :
    (tools : TextTools) (task_id : String) (registry : SkillRegistry) (text : Text)
    (route : SkillTaskRoute)
    → route_skill_request tools task_id registry text ≡ ok route
    → ((x g : String) (e : SkillRegistryEntry)
        → contains x route.dependency_order ≡ true
        → get registry x ≡ ok e
        → contains g e.human_gates ≡ true
        → contains g route.human_gates ≡ true)
      × (route.task.paid_api_intent ≡ true → contains paid_gate route.human_gates ≡ true)
      × (route.task.deployment_intent ≡ true → contains deployment_gate route.human_gates ≡ true)
      × (route.task.application_submission_intent ≡ true
          → contains application_gate route.human_gates ≡ true)
unfolding assemble
route_skill_request-gates tools task_id registry text route h =
    let (parts, e) = route-Parts route h in
    let has = λ (g : String). human_gates_lem g parts.entries parts.task in
    subst
      (λ (r : SkillTaskRoute).
        ((x g : String) (e : SkillRegistryEntry)
          → contains x r.dependency_order ≡ true
          → get registry x ≡ ok e
          → contains g e.human_gates ≡ true
          → contains g r.human_gates ≡ true)
        × (r.task.paid_api_intent ≡ true → contains paid_gate r.human_gates ≡ true)
        × (r.task.deployment_intent ≡ true → contains deployment_gate r.human_gates ≡ true)
        × (r.task.application_submission_intent ≡ true
            → contains application_gate r.human_gates ≡ true))
      e
      (
        λ x g entry m found gate.
            let listed =
              all_gates-contains registry parts.names parts.entries x g entry parts.entries_eq m
                found gate in
            ground (arith, has g, listed),
        λ paid. ground (arith, has paid_gate, str_eq_iff paid_gate paid_gate),
        λ deploy. ground (arith, has deployment_gate, str_eq_iff deployment_gate deployment_gate),
        λ apply. ground (arith, has application_gate, str_eq_iff application_gate application_gate),
      )
