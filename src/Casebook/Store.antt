-- ===== src/Casebook/Store.antt =====
-- `record_attempt` and `mastery` of casebook_store.py, on what the store keeps of one case: the case, the
-- attempts of its log in their order, and what the derived interview packet was last rendered from.
-- Archiving a receipt's file, and whether a write fails, are arguments of a call.
pub mod Recorded
pub mod Ordered
pub mod Sequence
use soloscale_ai_os.Prelude.{
  ℕ, Bool, true, false, not, ◌&&◌, ◌||◌, Option, none, some, List, [], ◌∷◌, ◌++◌, any, filter_by,
  is_none, ltb, Result, ok, err, ◌>>=◌, ◌>>◌, raise_if, if◌then◌else◌,
}
use soloscale_ai_os.Prelude.Text.{Text, strip, is_empty}
use soloscale_ai_os.Casebook.Models.{
  PracticeStage, AttemptOutcome, stages, stage_place, is_pass, Receipt, LearningCase,
  PracticeAttempt, StageResults, MasterySnapshot, validate_outcome_evidence,
}
use soloscale_ai_os.Casebook.Mastery.{
  CasebookError, validation_error, receipt_required, note_required, sequential_practice,
  derive_mastery,
}

pub record CaseStore : Type 0 where
  pub learning_case : LearningCase
  pub attempts : List PracticeAttempt
  pub packet : Option MasterySnapshot

-- The arguments of `record_attempt`, the time, what validating and archiving the receipt's file comes
-- to, and which writes fail.
pub record AttemptCall : Type 0 where
  pub stage : PracticeStage
  pub outcome : AttemptOutcome
  pub receipt_path : Option (Result CasebookError Receipt)
  pub note : Option Text
  pub now : ℕ
  pub append_error : Option CasebookError
  pub packet_fails : Bool

pub record AttemptRecordResult : Type 0 where
  pub attempt : PracticeAttempt
  pub mastery : MasterySnapshot
  pub packet_refreshed : Bool

-- `stages[:stage_index]`
abbrev pub earlier : PracticeStage → List PracticeStage
earlier stage = filter_by (λ s. ltb (stage_place s) (stage_place stage)) stages

-- whether a stage before this one has not been passed
abbrev pub has_missing : StageResults → PracticeStage → Bool
has_missing results stage = any (λ s. not (is_pass (results s))) (earlier stage)

abbrev pub stripped : Option Text → Option Text
stripped none = none
stripped (some s) = some (strip s)

abbrev pub is_blank : Option Text → Bool
is_blank none = true
is_blank (some s) = is_empty s

-- the guards of `record_attempt`
unfoldable pub check_outcome : CaseStore → AttemptCall → Result CasebookError (Unit {0})
check_outcome store call = elim call.outcome [
  | AttemptOutcome.pass ↦
      raise_if (is_none call.receipt_path) receipt_required
      >> (derive_mastery store.learning_case store.attempts >>= (λ latest.
          raise_if (has_missing latest.stage_results call.stage) sequential_practice))
  | AttemptOutcome.needs_work ↦ raise_if (is_blank (stripped call.note)) note_required
]

abbrev pub archive_receipt :
    Option (Result CasebookError Receipt) → Result CasebookError (Option Receipt)
archive_receipt none = ok none
archive_receipt (some (ok r)) = ok (some r)
archive_receipt (some (err e)) = err e

abbrev pub attempt_of : CaseStore → AttemptCall → Option Receipt → PracticeAttempt
attempt_of store call receipt = record {
  case_id = store.learning_case.id;
  stage = call.stage;
  outcome = call.outcome;
  created_at = call.now;
  note = stripped call.note;
  receipt = receipt;
}

abbrev pub append_attempt : Option CasebookError → Result CasebookError (Unit {0})
append_attempt none = ok tt
append_attempt (some e) = err e

unfoldable pub record_attempt :
    CaseStore → AttemptCall → Result CasebookError (AttemptRecordResult × CaseStore)
unfolding check_outcome
record_attempt store call = do
  check_outcome store call
  receipt ← archive_receipt call.receipt_path
  let attempt = attempt_of store call receipt
  raise_if (not (validate_outcome_evidence attempt)) validation_error
  let prospective = store.attempts ++ attempt ∷ []
  mastery ← derive_mastery store.learning_case prospective
  append_attempt call.append_error
  ok (
    record { attempt = attempt; mastery = mastery; packet_refreshed = not call.packet_fails },
    record store {
      attempts = prospective;
      packet = if call.packet_fails then store.packet else some mastery;
    },
  )

-- the store after a call; one that raises leaves the log and the packet as they are
unfoldable pub after_attempt : CaseStore → AttemptCall → CaseStore
after_attempt store call = elim (record_attempt store call) [
  | ok (result, after) ↦ after
  | err e ↦ store
]

unfoldable pub run_attempts : CaseStore → List AttemptCall → CaseStore
run_attempts store [] = store
run_attempts store (call ∷ calls) = run_attempts (after_attempt store call) calls

-- `mastery`
unfoldable pub mastery : CaseStore → Result CasebookError MasterySnapshot
mastery store = derive_mastery store.learning_case store.attempts
