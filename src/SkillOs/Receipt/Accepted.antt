-- ===== src/SkillOs/Receipt/Accepted.antt =====
-- The receipt of a route is accepted by its validator and written.
use soloscale_ai_os.Prelude.{
  ◌≡◌, refl, Bool, true, not, ◌||◌, List, [], ◌∷◌, ap, sym, ◌∙◌, String, str_eq_iff, contains,
  subset, contains-nil, ok, guard_ok, ok_inj, length, arith, or_elim, ltb,
}
use soloscale_ai_os.Prelude.Text.{Text, squeeze, is_empty}
use soloscale_ai_os.SkillOs.Models.{
  blank_request, oversized_request, validation_error, SkillRegistryEntry, SkillRegistry,
  SkillTaskEnvelope, SelectedSkill, validate_envelope,
}
use soloscale_ai_os.SkillOs.Registry.{get}
use soloscale_ai_os.SkillOs.Registry.Visits.{asked}
use soloscale_ai_os.SkillOs.Order.Lawful.{dependency_order-IsDependencyOrder}
use soloscale_ai_os.SkillOs.Request.{TextTools, publication_channels, is_requested}
use soloscale_ai_os.SkillOs.Request.Envelope.{envelope_of, normalize_request}
use soloscale_ai_os.SkillOs.Route.{
  traverse, selected_named, human_gates, unmet_preconditions, assemble,
}
use soloscale_ai_os.SkillOs.Route.Intents.{explicit_names, intent_of, is_publication, choose_skills}
use soloscale_ai_os.SkillOs.Route.Chosen.{choose_for-publishes}
use soloscale_ai_os.SkillOs.Route.Selected.{find_named}
use soloscale_ai_os.SkillOs.Route.Assembly.{Parts, route_from}
use soloscale_ai_os.SkillOs.Route.Selected.{names_of}
use soloscale_ai_os.SkillOs.Route.Gates.{
  paid_gate, deployment_gate, application_gate, human_gates_lem, traverse-listed,
  all_gates-contains,
}
use soloscale_ai_os.SkillOs.Receipt.{is_filled, immediate_human_gate}

-- a Skill of the name, where the registry has one, has a human gate
abbrev pub IsGated : SkillRegistry → String → Type 0
IsGated registry name =
    (e : SkillRegistryEntry)
    → get registry name ≡ ok e
    → (g : String) × (contains g e.human_gates ≡ true)

-- the Skills that a precondition or a publication can hold up have human gates
pub record HasGates (registry : SkillRegistry) : Type 0 where
  pub linkedin : IsGated registry "linkedin-publishing"
  pub x_thread : IsGated registry "x-thread-publishing"
  pub resume : IsGated registry "resume-tailoring"
  pub distillation : IsGated registry "skill-distillation"

filled : (g : String) (gs : List String) → contains g gs ≡ true → is_filled gs ≡ true
filled g [] m = contains-nil g m
filled g (x ∷ gs) m = refl

unmet-filled :
    (lowered : Text) (publication : Bool) (names : List String) (task : SkillTaskEnvelope)
    → is_filled (unmet_preconditions lowered publication names task) ≡ true
    → (contains "resume-tailoring" names || publication || contains "skill-distillation" names)
      ≡ true
unfolding unmet_preconditions
unmet-filled lowered publication names task h = ground arith

pub traverse_named :
    (ss : List SelectedSkill) (names : List String)
    → subset names (names_of ss) ≡ true
    → (selected : List SelectedSkill) × (traverse (selected_named ss) names ≡ ok selected)
unfolding subset
traverse_named ss [] h = ([], refl)
traverse_named ss (x ∷ names) h =
    let (s, e) = find_named ss x (ground arith) in
    let (rest, e1) = traverse_named ss names (ground arith) in (s ∷ rest, rw (e, e1) refl)

module _ {tools : TextTools} {task_id : String} {registry : SkillRegistry} {text : Text}
    (parts : Parts tools task_id registry text) where
  pub task_lem : parts.task ≡ envelope_of tools task_id text (squeeze text) parts.names
  unfolding normalize_request
  task_lem =
      let made = envelope_of tools task_id text (squeeze text) parts.names in
      let (a, h1) = guard_ok (is_empty (squeeze text)) blank_request _ parts.task_eq in
      let (b, h2) = guard_ok (ltb 4000 (length (squeeze text))) oversized_request _ h1 in
      let (c, h3) = guard_ok (not (validate_envelope made)) validation_error _ h2 in sym (ok_inj h3)

  published :
      is_publication (intent_of tools (squeeze (tools.casefold text))) ≡ true
      → (contains "linkedin-publishing" parts.names || contains "x-thread-publishing" parts.names)
        ≡ true
  unfolding choose_skills
  published h =
      let order =
        dependency_order-IsDependencyOrder registry (explicit_names parts.choice) parts.names
          parts.names_eq in
      let chosen =
        choose_for-publishes (intent_of tools (squeeze (tools.casefold text))) parts.choice
          parts.choice_eq h in
      ground (
        arith,
        chosen,
        λ (m : contains "linkedin-publishing" (explicit_names parts.choice) ≡ true).
            (order.exact "linkedin-publishing").1 (asked m),
        λ (m : contains "x-thread-publishing" (explicit_names parts.choice) ≡ true).
            (order.exact "x-thread-publishing").1 (asked m),
      )

  gated :
      (name : String)
      → IsGated registry name
      → contains name parts.names ≡ true
      → is_filled (human_gates parts.entries parts.task) ≡ true
  gated name gate listed =
      let (e, found) =
        traverse-listed registry parts.names parts.entries name parts.entries_eq listed in
      let (g, inside) = gate e found in
      let kept =
        all_gates-contains registry parts.names parts.entries name g e parts.entries_eq listed found
          inside in
      filled g _ (ground (arith, human_gates_lem g parts.entries parts.task))

  module _ (folds : tools.casefold (squeeze text) ≡ squeeze (tools.casefold text)) where
    intent_kept :
        parts.task.publication_intent ≡ true
        → is_publication (intent_of tools (squeeze (tools.casefold text))) ≡ true
    unfolding envelope_of intent_of
    intent_kept h =
        sym (ap (λ l. is_requested (publication_channels tools l)) folds)
        ∙ sym (ap (λ (t : SkillTaskEnvelope). t.publication_intent) task_lem)
        ∙ h

    module _ (has_gates : HasGates registry) where
      publication_gated :
          is_publication (intent_of tools (squeeze (tools.casefold text))) ≡ true
          → is_filled (human_gates parts.entries parts.task) ≡ true
      publication_gated h = ground (
        arith,
        published h,
        gated "linkedin-publishing" has_gates.linkedin,
        gated "x-thread-publishing" has_gates.x_thread,
      )

      -- Whatever asks for a human at once, the route names a gate.
      pub immediate-filled :
          immediate_human_gate (route_from parts) ≡ true
          → is_filled (human_gates parts.entries parts.task) ≡ true
      unfolding immediate_human_gate assemble intent_of
      immediate-filled h =
          let task = parts.task in
          let lowered = squeeze (tools.casefold text) in
          let publication = is_requested (publication_channels tools lowered) in
          let has = λ (g : String). human_gates_lem g parts.entries task in
          let unmet = is_filled (unmet_preconditions lowered publication parts.names task) in
          let resume = contains "resume-tailoring" parts.names in
          or_elim
            (unmet || task.publication_intent || task.paid_api_intent || task.deployment_intent) _ h
            (λ h1.
              or_elim (unmet || task.publication_intent || task.paid_api_intent) _ h1
                (λ h2.
                  or_elim (unmet || task.publication_intent) _ h2
                    (λ h3.
                      or_elim unmet _ h3
                        (λ h4.
                          or_elim (resume || publication) _
                            (unmet-filled lowered publication parts.names task h4)
                            (λ h5.
                              or_elim resume _ h5 (gated "resume-tailoring" has_gates.resume)
                                publication_gated)
                            (gated "skill-distillation" has_gates.distillation))
                        (λ p. publication_gated (intent_kept p)))
                    (λ p.
                      filled paid_gate _
                        (ground (arith, has paid_gate, str_eq_iff paid_gate paid_gate))))
                (λ p. filled deployment_gate _ (ground (arith, has deployment_gate))))
            (λ p. filled application_gate _ (ground (arith, has application_gate)))
