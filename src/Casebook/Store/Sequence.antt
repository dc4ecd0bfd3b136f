-- ===== src/Casebook/Store/Sequence.antt =====
-- The order in which stages are passed.
use soloscale_ai_os.Prelude.{
  ◌≡◌, refl, sym, ap, ◌∙◌, subst, Bool, true, false, ◌&&◌, Option, All, All-imp, All-append, List,
  [], ◌∷◌, ◌++◌, all, is_none, Result, ok, err, ◌>>=◌, ◌>>◌, raise_if, bind_ok, raise_if_ok,
  Result-cases, inl, inr, str_eq_refl, arith,
}
use soloscale_ai_os.Casebook.Models.{
  PracticeStage, Receipt, LearningCase, PracticeAttempt, StageResults, MasterySnapshot,
}
use soloscale_ai_os.Casebook.Mastery.{
  results_from_lem, CasebookError, no_results, is_own, results_from, derive_mastery,
  derive_mastery-own,
}
use soloscale_ai_os.Casebook.Store.{
  CaseStore, AttemptCall, AttemptRecordResult, has_missing, check_outcome, attempt_of,
  record_attempt, after_attempt, run_attempts, mastery,
}
use soloscale_ai_os.Casebook.Store.Recorded.{record_attempt-Recorded}
use soloscale_ai_os.Casebook.Store.Ordered.{
  stages_before, InOrder, IsOrdered, IsOrdered-snoc, IsEvidenced, validate-IsEvidenced, all_passed,
}

all-append :
    (p : PracticeAttempt → Bool) (xs : List PracticeAttempt) (a : PracticeAttempt)
    → all p (xs ++ a ∷ []) ≡ all p xs && p a
all-append p [] a = ground arith
all-append p (x ∷ xs) a = ground (arith, all-append p xs a)

-- The log of a case: its own attempts, each with the evidence that it needs, in the order of the stages.
pub record IsSoundLog (store : CaseStore) : Type 0 where
  pub own : all (is_own store.learning_case.id) store.attempts ≡ true
  pub evidence : All IsEvidenced store.attempts
  pub sequential : IsOrdered [] store.attempts

-- The guards let a passing attempt through only if it is in order.
in_order_of :
    (latest : Result CasebookError MasterySnapshot) (results : StageResults)
    (path : Option (Result CasebookError Receipt)) (stage : PracticeStage) (s : MasterySnapshot)
    → latest ≡ ok s
    → s.stage_results ≡ results
    → (raise_if (is_none path) CasebookError.receipt_required
        >> (latest >>= (λ l.
            raise_if (has_missing l.stage_results stage) CasebookError.sequential_practice)))
      ≡ ok tt
    → has_missing results stage ≡ false
in_order_of latest results path stage s derived same h =
    let (u, given, h1) = bind_ok (raise_if (is_none path) CasebookError.receipt_required) _ h in
    let (l, is_l, h2) = bind_ok latest _ h1 in
    let same_l : l ≡ s = cc in
    ap (λ r. has_missing r stage) (sym same)
    ∙ ap (λ (x : MasterySnapshot). has_missing x.stage_results stage) (sym same_l)
    ∙ raise_if_ok (has_missing l.stage_results stage) CasebookError.sequential_practice h2

checked-InOrder :
    (store : CaseStore) (call : AttemptCall) (receipt : Option Receipt)
    → all (is_own store.learning_case.id) store.attempts ≡ true
    → check_outcome store call ≡ ok tt
    → InOrder store.attempts (attempt_of store call receipt)
unfolding check_outcome
checked-InOrder store call receipt own h passes =
    All-imp (λ stage e. sym (results_from_lem store.attempts no_results stage) ∙ e)
      (stages_before call.stage)
      (all_passed (results_from store.attempts no_results) call.stage (
        in_order_of _ (results_from store.attempts no_results) call.receipt_path call.stage _
          (derive_mastery-own store.learning_case store.attempts own) refl (rw passes at h)))

-- A recorded attempt keeps the log sound.
record_attempt-IsSoundLog :
    (store : CaseStore) (call : AttemptCall) (result : AttemptRecordResult) (after : CaseStore)
    → IsSoundLog store
    → record_attempt store call ≡ ok (result, after)
    → IsSoundLog after
record_attempt-IsSoundLog store call result after sound h =
    let r = record_attempt-Recorded store call result after h in
    let own_case : is_own store.learning_case.id result.attempt ≡ true =
      ap (λ (a : PracticeAttempt). is_own store.learning_case.id a) r.attempt_is
      ∙ str_eq_refl store.learning_case.id in
    let placed : InOrder store.attempts result.attempt =
      subst (InOrder store.attempts) (sym r.attempt_is)
        (checked-InOrder store call r.receipt sound.own r.checked) in
    let log = store.attempts ++ result.attempt ∷ [] in
    record {
      own =
          ap (λ (c : LearningCase). all (is_own c.id) after.attempts) r.same_case
          ∙ ap (all (is_own store.learning_case.id)) r.appended
          ∙ both (all-append (is_own store.learning_case.id) store.attempts result.attempt)
              sound.own own_case;
      evidence = subst (All IsEvidenced) (sym r.appended) (
          All-append IsEvidenced store.attempts (result.attempt ∷ []) sound.evidence
            (validate-IsEvidenced result.attempt r.evidence, tt));
      sequential =
          subst (IsOrdered []) (sym r.appended)
            (IsOrdered-snoc [] store.attempts result.attempt sound.sequential placed);
    }
  where
    both : {a b c : Bool} → a ≡ b && c → b ≡ true → c ≡ true → a ≡ true
    both e p q = e ∙ rw (p, q) refl

after_attempt-IsSoundLog :
    (store : CaseStore) (call : AttemptCall)
    → IsSoundLog store
    → IsSoundLog (after_attempt store call)
unfolding after_attempt
after_attempt-IsSoundLog store call sound = elim (Result-cases (record_attempt store call)) [
  | inl ((result, after), h) ↦
      subst IsSoundLog
        (sym (
          ap
            (λ (m : Result CasebookError (AttemptRecordResult × CaseStore)). elim m [
              | ok (x, y) ↦ y
              | err e ↦ store
            ])
            h))
        (record_attempt-IsSoundLog store call result after sound h)
  | inr (e, h) ↦
      subst IsSoundLog
        (sym (
          ap
            (λ (m : Result CasebookError (AttemptRecordResult × CaseStore)). elim m [
              | ok (x, y) ↦ y
              | err z ↦ store
            ])
            h))
        sound
]

-- Whatever attempts are recorded, at any stages and with any failures of files and writes: every attempt
-- in the log is one at its case, a passed one has a receipt and one that needs work a note that is not
-- blank, and a stage was passed only while the latest outcome of every earlier stage was PASS.
pub run_attempts-IsSoundLog :
    (store : CaseStore) (calls : List AttemptCall)
    → IsSoundLog store
    → IsSoundLog (run_attempts store calls)
unfolding run_attempts
run_attempts-IsSoundLog store [] sound = sound
run_attempts-IsSoundLog store (call ∷ calls) sound =
    run_attempts-IsSoundLog (after_attempt store call) calls
      (after_attempt-IsSoundLog store call sound)

-- The mastery that a successful call reports is the mastery that the store derives afterwards.
pub mastery-record_attempt :
    (store : CaseStore) (call : AttemptCall) (result : AttemptRecordResult) (after : CaseStore)
    → record_attempt store call ≡ ok (result, after)
    → mastery after ≡ ok result.mastery
unfolding mastery
mastery-record_attempt store call result after h =
    let r = record_attempt-Recorded store call result after h in
    ap (λ (c : LearningCase). derive_mastery c after.attempts) r.same_case
    ∙ ap (derive_mastery store.learning_case) r.appended
    ∙ r.derived
