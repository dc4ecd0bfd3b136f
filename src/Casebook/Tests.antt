-- ===== src/Casebook/Tests.antt =====
-- Runs of the casebook at concrete inputs, and the theorems applied there.
use soloscale_ai_os.Prelude.{
  ◌+◌, ◌≡◌, refl, true, false, not, ◌&&◌, ◌||◌, none, some, List, [], ◌∷◌, ◌==◌, String, all,
  length, last?, filter_by, ok, err,
}
use soloscale_ai_os.Casebook.Models.{
  PracticeStage, AttemptOutcome, stages, is_pass, Receipt, LearningCase, PracticeAttempt,
  MasterySnapshot, validate_outcome_evidence, validate_derived_fields,
}
use soloscale_ai_os.Casebook.Mastery.{
  CasebookError, at_stage, outcome_of, latest, derive_mastery, derive_mastery_lem, snapshot_of,
  no_results, results_from,
}
use soloscale_ai_os.Casebook.Store.{
  CaseStore, AttemptCall, AttemptRecordResult, check_outcome, attempt_of, record_attempt,
  after_attempt, run_attempts, mastery,
}
use soloscale_ai_os.Casebook.Store.Sequence.{
  IsSoundLog, run_attempts-IsSoundLog, mastery-record_attempt,
}
use soloscale_ai_os.Casebook.Integrity.{
  Look, matches, receipt_holds, verify_integrity, is_intact, checked_files, evidence_gap,
  verify_integrity_lem,
}

abbrev proof : Receipt
proof = record { id = "r1"; archived_path = "cases/c/r1"; sha256 = "abc"; byte_size = 3 }

abbrev the_case : LearningCase
the_case = record { id = "queue-bug"; evidence = proof ∷ [] }

abbrev empty_store : CaseStore
empty_store = record { learning_case = the_case; attempts = []; packet = none }

abbrev pass_at : PracticeStage → AttemptCall
pass_at stage = record {
  stage = stage;
  outcome = AttemptOutcome.pass;
  receipt_path = some (ok proof);
  note = none;
  now = 5;
  append_error = none;
  packet_fails = false;
}

abbrev passed_explain : PracticeAttempt
passed_explain = attempt_of empty_store (pass_at PracticeStage.explain) (some proof)

-- TRACE cannot be passed first.
out_of_order :
    record_attempt empty_store (pass_at PracticeStage.trace) ≡ err CasebookError.sequential_practice
unfolding record_attempt check_outcome derive_mastery latest validate_derived_fields
out_of_order = refl

derive_mastery_lem_example :
    (s : MasterySnapshot) × (derive_mastery the_case (passed_explain ∷ []) ≡ ok s)
    × (s.stage_results PracticeStage.explain
        ≡ outcome_of
            (last? (filter_by (at_stage PracticeStage.explain) (passed_explain ∷ [])))
            none)
    × (validate_derived_fields s ≡ true)
    × (s.interview_ready ≡ all (λ x. is_pass (s.stage_results x)) stages)
derive_mastery_lem_example =
    derive_mastery_lem the_case (passed_explain ∷ []) PracticeStage.explain refl

empty_store-IsSoundLog : IsSoundLog empty_store
empty_store-IsSoundLog = record { own = refl; evidence = tt; sequential = tt }

abbrev calls : List AttemptCall
calls =
    pass_at PracticeStage.trace ∷ pass_at PracticeStage.explain ∷ pass_at PracticeStage.trace ∷ []

-- The first of the three is refused.
two_recorded : length (run_attempts empty_store calls).attempts ≡ 2
unfolding run_attempts after_attempt record_attempt check_outcome derive_mastery latest
    validate_derived_fields validate_outcome_evidence
two_recorded = refl

run_attempts-IsSoundLog_example : IsSoundLog (run_attempts empty_store calls)
run_attempts-IsSoundLog_example = run_attempts-IsSoundLog empty_store calls empty_store-IsSoundLog

abbrev explained : MasterySnapshot
unfolding results_from
explained = snapshot_of "queue-bug" (results_from (passed_explain ∷ []) no_results)

abbrev after_explain : CaseStore
after_explain = record empty_store { attempts = passed_explain ∷ []; packet = some explained }

abbrev explain_result : AttemptRecordResult
explain_result = record { attempt = passed_explain; mastery = explained; packet_refreshed = true }

recorded :
    record_attempt empty_store (pass_at PracticeStage.explain) ≡ ok (explain_result, after_explain)
unfolding record_attempt check_outcome derive_mastery latest validate_derived_fields
    validate_outcome_evidence explained
recorded = refl

mastery-record_attempt_example : mastery after_explain ≡ ok explain_result.mastery
mastery-record_attempt_example =
    mastery-record_attempt empty_store (pass_at PracticeStage.explain) explain_result after_explain
      recorded

abbrev look : String → Look
look path = Look.file "abc" 3

verify_integrity_lem_example :
    let report = verify_integrity look the_case (passed_explain ∷ []) in
    (is_intact report
      ≡ all (λ (r : Receipt). matches (look r.archived_path) r) the_case.evidence
        && all
            (receipt_holds (λ (r : Receipt). matches (look r.archived_path) r))
            (passed_explain ∷ []))
    × (checked_files report ≡ length the_case.evidence + 1)
    × (evidence_gap report
        ≡ length the_case.evidence == 0
          || not (all (λ (r : Receipt). matches (look r.archived_path) r) the_case.evidence))
verify_integrity_lem_example = verify_integrity_lem look the_case (passed_explain ∷ [])
