-- ===== src/Casebook/Store/Recorded.antt =====
-- What a successful call of `record_attempt` has checked and done.
use soloscale_ai_os.Prelude.{
  ◌≡◌, refl, sym, ap, ◌∙◌, Bool, true, false, not, Option, some, [], ◌∷◌, ◌++◌, Result, ok,
  raise_if, bind_ok, if◌then◌else◌,
}
use soloscale_ai_os.Casebook.Models.{Receipt, validate_outcome_evidence}
use soloscale_ai_os.Casebook.Mastery.{CasebookError, derive_mastery}
use soloscale_ai_os.Casebook.Store.{
  CaseStore, AttemptCall, AttemptRecordResult, check_outcome, archive_receipt, attempt_of,
  append_attempt, record_attempt,
}

-- What a successful call has checked and done.
pub record Recorded (store : CaseStore) (call : AttemptCall) (result : AttemptRecordResult)
    (after : CaseStore) : Type 0 where
  pub receipt : Option Receipt
  pub checked : check_outcome store call ≡ ok tt
  pub attempt_is : result.attempt ≡ attempt_of store call receipt
  pub evidence : validate_outcome_evidence result.attempt ≡ true
  pub derived :
      derive_mastery store.learning_case (store.attempts ++ result.attempt ∷ []) ≡ ok result.mastery
  pub appended : after.attempts ≡ store.attempts ++ result.attempt ∷ []
  pub same_case : after.learning_case ≡ store.learning_case

pub record_attempt-Recorded :
    (store : CaseStore) (call : AttemptCall) (result : AttemptRecordResult) (after : CaseStore)
    → record_attempt store call ≡ ok (result, after)
    → Recorded store call result after
unfolding record_attempt
record_attempt-Recorded store call result after h =
    let (u, checked, h1) = bind_ok (check_outcome store call) _ h in
    let (receipt, archived, h2) = bind_ok (archive_receipt call.receipt_path) _ h1 in
    let attempt = attempt_of store call receipt in
    let (v, valid, h3) =
      bind_ok (raise_if (not (validate_outcome_evidence attempt)) CasebookError.validation_error) _
        h2 in
    let (snapshot, derived, h4) =
      bind_ok (derive_mastery store.learning_case (store.attempts ++ attempt ∷ [])) _ h3 in
    let (w, written, h5) = bind_ok (append_attempt call.append_error) _ h4 in
    let next : AttemptRecordResult = record {
      attempt = attempt;
      mastery = snapshot;
      packet_refreshed = not call.packet_fails;
    } in
    let kept : CaseStore = record store {
      attempts = store.attempts ++ attempt ∷ [];
      packet = if call.packet_fails then store.packet else some snapshot;
    } in
    let same : (next, kept) ≡ (result, after) = ok_injective (next, kept) (result, after) h5 in
    let same_result : next ≡ result = ap (λ (p : AttemptRecordResult × CaseStore). p.0) same in
    let same_store : kept ≡ after = ap (λ (p : AttemptRecordResult × CaseStore). p.1) same in
    record {
      receipt = receipt;
      checked = checked;
      attempt_is = ap (λ (r : AttemptRecordResult). r.attempt) (sym same_result);
      evidence =
          ap (λ (r : AttemptRecordResult). validate_outcome_evidence r.attempt) (sym same_result)
          ∙ accepted _ valid;
      derived =
          ap
            (λ (r : AttemptRecordResult).
              derive_mastery store.learning_case (store.attempts ++ r.attempt ∷ []))
            (sym same_result)
          ∙ derived
          ∙ ap (λ (r : AttemptRecordResult). ok r.mastery) same_result;
      appended =
          ap (λ (c : CaseStore). c.attempts) (sym same_store)
          ∙ ap (λ (r : AttemptRecordResult). store.attempts ++ r.attempt ∷ []) same_result;
      same_case = ap (λ (c : CaseStore). c.learning_case) (sym same_store);
    }
  where
    accepted : (b : Bool) → raise_if (not b) CasebookError.validation_error ≡ ok tt → b ≡ true
    accepted true h = refl
    accepted false h = cc

    ok_injective :
        (x y : AttemptRecordResult × CaseStore)
        → ◌≡◌ {A = Result CasebookError (AttemptRecordResult × CaseStore)} (ok x) (ok y)
        → x ≡ y
    ok_injective x y h = cc
