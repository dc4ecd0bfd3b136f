-- ===== src/SkillOs/Receipt/Written.antt =====
-- A route's receipt is accepted by its validator, and written.
use soloscale_ai_os.Prelude.{
  ℕ, ◌≡◌, refl, Bool, true, false, not, ◌&&◌, ◌||◌, none, List, [], ◌∷◌, ◌++◌, sym, subst, String,
  str_eq_refl, subset, ok, arith, if◌then◌else◌, ltb,
}
use soloscale_ai_os.Prelude.Text.{Text, squeeze, strip}
use soloscale_ai_os.SkillOs.Models.{
  SkillRunStatus, run_status_is, SkillRegistry, SkillTaskEnvelope, SelectedSkill, SkillTaskRoute,
  validate_selected_route, selected_names, no_outcome,
}
use soloscale_ai_os.SkillOs.Request.{TextTools}
use soloscale_ai_os.SkillOs.Request.Envelope.{envelope_of}
use soloscale_ai_os.SkillOs.Route.{assemble, route_skill_request}
use soloscale_ai_os.SkillOs.Route.Assembly.{Parts, route_from, route-Parts}
use soloscale_ai_os.SkillOs.Route.Sound.{parts-validate}
use soloscale_ai_os.SkillOs.Receipt.{
  is_receipt_id, validate_receipt_fields, validate_boundaries, is_filled, is_digest, has_hash,
  validate_hashes, validate_receipt, immediate_human_gate, PersistCall, receipt_of, SkillRunReceipt,
  SkillFiles, make_receipt, persist_route_receipt,
}
use soloscale_ai_os.SkillOs.Receipt.Accepted.{HasGates, traverse_named, task_lem, immediate-filled}
use soloscale_ai_os.SkillOs.Receipt.Fields.{HasFields, filled-traverse, Parts-HasFields}

-- The validator on a receipt that claims no progress: `same` and `hashed` are the tests of the id and
-- the hash, `digest` of the hash's form, `gate` whether a human is asked for, `gates` whether a gate is
-- named, and `early` whether the run ends before it starts.
abbrev receipt_verdict : (same hashed digest gate gates early : Bool) → Bool
receipt_verdict same hashed digest gate gates early =
    let status = if gate then SkillRunStatus.awaiting_human_gate else SkillRunStatus.routed in
    let awaiting = run_status_is status SkillRunStatus.awaiting_human_gate in
    same
    && hashed
    && not (awaiting && not gates)
    && not (run_status_is status SkillRunStatus.completed && true)
    && not (run_status_is status SkillRunStatus.routed && false)
    && not (awaiting && false)
    && not (awaiting && false)
    && not (run_status_is status SkillRunStatus.failed && false)
    && true
    && true
    && true
    && (digest && true)
    && not early

receipt_verdict-true :
    (same hashed digest gate gates early : Bool)
    → same ≡ true
    → hashed ≡ true
    → digest ≡ true
    → (gate ≡ true → gates ≡ true)
    → early ≡ false
    → receipt_verdict same hashed digest gate gates early ≡ true
receipt_verdict-true same hashed digest true gates early h1 h2 h3 h4 h5 = ground (arith, h4 refl)
receipt_verdict-true same hashed digest false gates early h1 h2 h3 h4 h5 = ground arith

not_before_itself : (n : ℕ) → ltb n n ≡ false
not_before_itself n = ground arith

receipt_of-validate :
    (tools : TextTools) (call : PersistCall) (route : SkillTaskRoute)
    (selected : List SelectedSkill)
    → is_digest route.task.request_sha256 ≡ true
    → (immediate_human_gate route ≡ true → is_filled route.human_gates ≡ true)
    → is_receipt_id call.receipt_id ≡ true
    → is_filled selected ≡ true
    → HasFields route
    → validate_receipt (receipt_of tools call route selected) ≡ true
unfolding receipt_of validate_receipt validate_receipt_fields validate_boundaries has_hash
    validate_hashes strip
receipt_of-validate tools call route selected digest gates id filled fields =
    rw (id, filled, fields.reasons, fields.five)
      (receipt_verdict-true _ _ _ (immediate_human_gate route) _ (ltb call.now call.now)
        (str_eq_refl route.task.task_id) (str_eq_refl route.task.request_sha256) digest gates
        (not_before_itself call.now))

awaits :
    (b : Bool)
    → run_status_is
        (if b then SkillRunStatus.awaiting_human_gate else SkillRunStatus.routed)
        SkillRunStatus.awaiting_human_gate
      ≡ b
awaits true = refl
awaits false = refl

listed :
    (route : SkillTaskRoute)
    → validate_selected_route route ≡ true
    → subset route.dependency_order (selected_names route) ≡ true
unfolding validate_selected_route
listed route valid = ground arith

make_receipt-ok :
    (tools : TextTools) (call : PersistCall) (route : SkillTaskRoute)
    → call.root_error ≡ none
    → validate_selected_route route ≡ true
    → is_digest route.task.request_sha256 ≡ true
    → (immediate_human_gate route ≡ true → is_filled route.human_gates ≡ true)
    → is_receipt_id call.receipt_id ≡ true
    → HasFields route
    → (selected : List SelectedSkill) × (make_receipt tools call route
        ≡ ok (receipt_of tools call route selected))
      × (is_filled selected ≡ true)
unfolding make_receipt
make_receipt-ok tools call route root valid digest gates id fields =
    let (selected, e) =
      traverse_named (route.primary_skill ∷ route.supporting_skills) route.dependency_order
        (listed route valid) in
    let filled =
      filled-traverse (route.primary_skill ∷ route.supporting_skills) route.dependency_order
        selected fields.ordered e in
    (
      selected,
      rw (root, e, receipt_of-validate tools call route selected digest gates id filled fields)
          refl,
      filled,
    )

persist-ok :
    (tools : TextTools) (call : PersistCall) (route : SkillTaskRoute) (files : SkillFiles)
    (receipt : SkillRunReceipt)
    → make_receipt tools call route ≡ ok receipt
    → call.run_fails ≡ false
    → call.receipt_fails ≡ false
    → persist_route_receipt tools call route files ≡ (
      ok receipt,
      record {
        runs = files.runs ++ (call.receipt_id, route) ∷ [];
        receipts = files.receipts ++ receipt ∷ [];
      },
    )
unfolding persist_route_receipt
persist-ok tools call route files receipt made run written =
    rw (persist_route_receipt, made, run, written) refl

-- For a route that is returned for a request, over a registry whose Skills for publishing, résumés and
-- distillation have human gates, in a private root that is accepted and with writes that succeed,
-- `persist_route_receipt` returns a receipt and adds it and the route to the files. The receipt's
-- validator accepts it, it claims no progress, and it awaits a human exactly when the route has an unmet
-- precondition or its task intends a publication, a paid call, a deployment or the submission of an
-- application. This is for a hash that is a digest, an
-- id of the receipt that has its form, and for case folding that a change of spaces does not disturb.
pub persist_route_receipt-written :
    (tools : TextTools) (task_id : String) (registry : SkillRegistry) (text : Text)
    (route : SkillTaskRoute) (call : PersistCall) (files : SkillFiles)
    → is_digest (tools.sha256 text) ≡ true
    → tools.casefold (squeeze text) ≡ squeeze (tools.casefold text)
    → HasGates registry
    → route_skill_request tools task_id registry text ≡ ok route
    → is_receipt_id call.receipt_id ≡ true
    → call.root_error ≡ none
    → call.run_fails ≡ false
    → call.receipt_fails ≡ false
    → (receipt : SkillRunReceipt) × (persist_route_receipt tools call route files ≡ (
      ok receipt,
      record {
        runs = files.runs ++ (call.receipt_id, route) ∷ [];
        receipts = files.receipts ++ receipt ∷ [];
      },
    ))
      × (validate_receipt receipt ≡ true)
      × (receipt.outcome_state ≡ no_outcome)
      × (run_status_is receipt.final_status SkillRunStatus.awaiting_human_gate ≡ (
          is_filled route.unmet_preconditions
          || route.task.publication_intent
          || route.task.paid_api_intent
          || route.task.deployment_intent
          || route.task.application_submission_intent))
unfolding receipt_of assemble envelope_of immediate_human_gate
persist_route_receipt-written tools task_id registry text route call files digest folds has_gates h
      id root run receipt =
    let (parts, e) = route-Parts route h in
    let valid : validate_selected_route route ≡ true =
      subst (λ (r : SkillTaskRoute). validate_selected_route r ≡ true) e (parts-validate parts) in
    let fields = subst HasFields e (Parts-HasFields parts) in
    let (selected, made, filled) =
      make_receipt-ok tools call route root valid (digest_of parts e) (gates_of parts e) id
        fields in
    (
      receipt_of tools call route selected,
      persist-ok tools call route files _ made run receipt,
      receipt_of-validate tools call route selected (digest_of parts e) (gates_of parts e) id filled
          fields,
      refl,
      awaits (immediate_human_gate route),
    )
  where
    digest_of :
        (parts : Parts tools task_id registry text)
        → route_from parts ≡ route
        → is_digest route.task.request_sha256 ≡ true
    digest_of parts e =
        subst (λ (r : SkillTaskRoute). is_digest r.task.request_sha256 ≡ true) e
          (subst (λ (t : SkillTaskEnvelope). is_digest t.request_sha256 ≡ true)
            (sym (task_lem parts)) digest)

    gates_of :
        (parts : Parts tools task_id registry text)
        → route_from parts ≡ route
        → immediate_human_gate route ≡ true
        → is_filled route.human_gates ≡ true
    gates_of parts e =
        subst
          (λ (r : SkillTaskRoute). immediate_human_gate r ≡ true → is_filled r.human_gates ≡ true) e
          (immediate-filled parts folds has_gates)
