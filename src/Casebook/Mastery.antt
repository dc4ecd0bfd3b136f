-- ===== src/Casebook/Mastery.antt =====
-- `derive_mastery` of casebook_store.py.
use soloscale_ai_os.Prelude.{
  ◌≡◌, refl, ◌∙◌, Bool, true, Option, none, some, List, [], ◌∷◌, all, is_none, last?, filter_by,
  String, str_eq, Result, ok, err, ◌>>=◌, arith, if◌then◌else◌,
}
use soloscale_ai_os.Casebook.Models.{
  PracticeStage, AttemptOutcome, DerivedCaseStatus, stages, stage_eq, is_pass, LearningCase,
  PracticeAttempt, StageResults, MasterySnapshot, passed, next_of, validate_derived_fields,
}

pub data CasebookError : Type 0 where
  wrong_case validation_error receipt_required note_required sequential_practice : CasebookError

-- `stage_results[stage] = outcome`
abbrev pub update : StageResults → PracticeStage → AttemptOutcome → StageResults
update results stage outcome s = if stage_eq s stage then some outcome else results s

-- the loop over the attempts
unfoldable pub latest :
    String → List PracticeAttempt → StageResults → Result CasebookError StageResults
latest case_id [] results = ok results
latest case_id (a ∷ later) results =
    let rest = latest case_id later (update results a.stage a.outcome) in
    if str_eq a.case_id case_id then rest else err wrong_case

abbrev pub no_results : StageResults
no_results s = none

abbrev pub status_of : StageResults → DerivedCaseStatus
status_of results =
    if is_none (next_of results)
    then DerivedCaseStatus.self_assessed_interview_ready
    else if all (λ s. is_none (results s)) stages
    then DerivedCaseStatus.captured
    else DerivedCaseStatus.in_practice

-- the snapshot that the derived results come to, before its validators
abbrev pub snapshot_of : String → StageResults → MasterySnapshot
snapshot_of case_id results = record {
  case_id = case_id;
  stage_results = results;
  passed_stages = passed results;
  next_stage = next_of results;
  status = status_of results;
  interview_ready = is_none (next_of results);
}

abbrev pub make_snapshot : MasterySnapshot → Result CasebookError MasterySnapshot
make_snapshot s = if validate_derived_fields s then ok s else err validation_error

unfoldable pub derive_mastery :
    LearningCase → List PracticeAttempt → Result CasebookError MasterySnapshot
unfolding latest
derive_mastery c attempts = do
  results ← latest c.id attempts no_results
  make_snapshot (snapshot_of c.id results)

-- The derived fields pass the snapshot's own validators, whatever the results.
snapshot_valid :
    (case_id : String) (results : StageResults)
    → validate_derived_fields (snapshot_of case_id results) ≡ true
unfolding validate_derived_fields
snapshot_valid case_id results = ground arith

-- an attempt at the case
abbrev pub is_own : String → PracticeAttempt → Bool
is_own case_id a = str_eq a.case_id case_id

-- the results without the check of the case
unfoldable pub results_from : List PracticeAttempt → StageResults → StageResults
results_from [] results = results
results_from (a ∷ later) results = results_from later (update results a.stage a.outcome)

pub latest_lem :
    (case_id : String) (attempts : List PracticeAttempt) (results : StageResults)
    → latest case_id attempts results ≡ (
        if all (is_own case_id) attempts
        then ok (results_from attempts results)
        else err wrong_case)
unfolding latest results_from
latest_lem case_id [] results = refl
latest_lem case_id (a ∷ later) results =
    ground (arith, latest_lem case_id later (update results a.stage a.outcome))

pub derive_mastery-own :
    (c : LearningCase) (attempts : List PracticeAttempt)
    → all (is_own c.id) attempts ≡ true
    → derive_mastery c attempts ≡ ok (snapshot_of c.id (results_from attempts no_results))
unfolding derive_mastery
derive_mastery-own c attempts own =
    let all_read : latest c.id attempts no_results ≡ ok (results_from attempts no_results) =
      latest_lem c.id attempts no_results ∙ rw own refl in
    rw (all_read, snapshot_valid c.id (results_from attempts no_results)) refl

abbrev pub at_stage : PracticeStage → PracticeAttempt → Bool
at_stage stage a = stage_eq stage a.stage

abbrev pub outcome_of : Option PracticeAttempt → Option AttemptOutcome → Option AttemptOutcome
outcome_of none before = before
outcome_of (some a) before = some a.outcome

-- what was before does not matter once there is an attempt
last-cons :
    (a : PracticeAttempt) (later : List PracticeAttempt) (x y : Option AttemptOutcome)
    → outcome_of (last? (a ∷ later)) x ≡ outcome_of (last? (a ∷ later)) y
last-cons a [] x y = refl
last-cons a (b ∷ later) x y = last-cons b later x y

outcome_of-cons :
    (a : PracticeAttempt) (later : List PracticeAttempt) (before : Option AttemptOutcome)
    → outcome_of (last? (a ∷ later)) before ≡ outcome_of (last? later) (some a.outcome)
outcome_of-cons a [] before = refl
outcome_of-cons a (b ∷ later) before = last-cons b later before (some a.outcome)

pub results_from_lem :
    (attempts : List PracticeAttempt) (results : StageResults) (stage : PracticeStage)
    → results_from attempts results stage
      ≡ outcome_of (last? (filter_by (at_stage stage) attempts)) (results stage)
unfolding results_from
results_from_lem [] results stage = refl
results_from_lem (a ∷ later) results stage =
    results_from_lem later (update results a.stage a.outcome) stage
    ∙ ground (arith, outcome_of-cons a (filter_by (at_stage stage) later) (results stage))

-- On attempts at the case, mastery is derived, with the latest outcome of each stage as its result, and
-- the case is ready for an interview exactly when each of the five stages has passed.
pub derive_mastery_lem :
    (c : LearningCase) (attempts : List PracticeAttempt) (stage : PracticeStage)
    → all (is_own c.id) attempts ≡ true
    → (s : MasterySnapshot) × (derive_mastery c attempts ≡ ok s)
      × (s.stage_results stage ≡ outcome_of (last? (filter_by (at_stage stage) attempts)) none)
      × (validate_derived_fields s ≡ true)
      × (s.interview_ready ≡ all (λ x. is_pass (s.stage_results x)) stages)
derive_mastery_lem c attempts stage own =
    let results = results_from attempts no_results in
    (
      snapshot_of c.id results,
      derive_mastery-own c attempts own,
      results_from_lem attempts no_results stage,
      snapshot_valid c.id results,
      ground arith,
    )
