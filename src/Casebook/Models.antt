-- ===== src/Casebook/Models.antt =====
-- The models of casebook_models.py, with their validators. A path and a digest are strings.
use soloscale_ai_os.Prelude.{
  ℕ, Bool, true, false, not, ◌&&◌, ◌||◌, Option, none, some, List, [], ◌∷◌, ◌==◌, map, any, is_some,
  String, str_eq, filter_by, find_by, length, if◌then◌else◌,
}
use soloscale_ai_os.Prelude.Text.{Text, strip, is_empty}

pub data PracticeStage : Type 0 where
  explain trace rebuild debug defend : PracticeStage

pub data AttemptOutcome : Type 0 where
  pass needs_work : AttemptOutcome

pub data DerivedCaseStatus : Type 0 where
  captured in_practice self_assessed_interview_ready : DerivedCaseStatus

-- `list(PracticeStage)`
abbrev pub stages : List PracticeStage
stages =
    PracticeStage.explain ∷ PracticeStage.trace ∷ PracticeStage.rebuild ∷ PracticeStage.debug
    ∷ PracticeStage.defend ∷ []

abbrev pub stage_place : PracticeStage → ℕ
stage_place PracticeStage.explain = 0
stage_place PracticeStage.trace = 1
stage_place PracticeStage.rebuild = 2
stage_place PracticeStage.debug = 3
stage_place PracticeStage.defend = 4

abbrev pub stage_eq : PracticeStage → PracticeStage → Bool
stage_eq a b = stage_place a == stage_place b

abbrev pub status_place : DerivedCaseStatus → ℕ
status_place DerivedCaseStatus.captured = 0
status_place DerivedCaseStatus.in_practice = 1
status_place DerivedCaseStatus.self_assessed_interview_ready = 2

abbrev pub status_eq : DerivedCaseStatus → DerivedCaseStatus → Bool
status_eq a b = status_place a == status_place b

-- `outcome is AttemptOutcome.PASS`
abbrev pub is_pass : Option AttemptOutcome → Bool
is_pass (some AttemptOutcome.pass) = true
is_pass _ = false

-- an `EvidenceReceipt` or a `PracticeReceipt`, less the kind and the source path
pub record Receipt : Type 0 where
  pub id : String
  pub archived_path : String
  pub sha256 : String
  pub byte_size : ℕ

-- what mastery and integrity read of a `LearningCase`
pub record LearningCase : Type 0 where
  pub id : String
  pub evidence : List Receipt

abbrev pub has_duplicates : List String → Bool
has_duplicates [] = false
has_duplicates (s ∷ ss) = any (str_eq s) ss || has_duplicates ss

unfoldable pub validate_unique_evidence : LearningCase → Bool
validate_unique_evidence c =
    not (has_duplicates (map (λ (r : Receipt). r.id) c.evidence))
    && not (has_duplicates (map (λ (r : Receipt). r.archived_path) c.evidence))

pub record PracticeAttempt : Type 0 where
  pub case_id : String
  pub stage : PracticeStage
  pub outcome : AttemptOutcome
  pub created_at : ℕ
  pub note : Option Text
  pub receipt : Option Receipt

abbrev pub is_noted : Option Text → Bool
is_noted none = false
is_noted (some s) = not (is_empty (strip s))

unfoldable pub validate_outcome_evidence : PracticeAttempt → Bool
validate_outcome_evidence a = elim a.outcome [
  | AttemptOutcome.pass ↦ is_some a.receipt
  | AttemptOutcome.needs_work ↦ is_noted a.note
]

-- a dict with one entry for each stage
abbrev pub StageResults : Type 0
StageResults = PracticeStage → Option AttemptOutcome

pub record MasterySnapshot : Type 0 where
  pub case_id : String
  pub stage_results : StageResults
  pub passed_stages : List PracticeStage
  pub next_stage : Option PracticeStage
  pub status : DerivedCaseStatus
  pub interview_ready : Bool

abbrev pub passed : StageResults → List PracticeStage
passed results = filter_by (λ s. is_pass (results s)) stages

abbrev pub next_of : StageResults → Option PracticeStage
next_of results = find_by (λ s. not (is_pass (results s))) stages

abbrev same_stages : List PracticeStage → List PracticeStage → Bool
same_stages [] [] = true
same_stages (a ∷ xs) (b ∷ ys) = stage_eq a b && same_stages xs ys
same_stages _ _ = false

abbrev same_next : Option PracticeStage → Option PracticeStage → Bool
same_next none none = true
same_next (some a) (some b) = stage_eq a b
same_next _ _ = false

abbrev same_flag : Bool → Bool → Bool
same_flag true b = b
same_flag false b = not b

-- `MasterySnapshot.validate_derived_fields`
unfoldable pub validate_derived_fields : MasterySnapshot → Bool
validate_derived_fields snapshot =
    let results = snapshot.stage_results in
    let all_passed = length (passed results) == length stages in
    let any_attempted = any (λ s. is_some (results s)) stages in
    let expected_status =
      if all_passed
      then DerivedCaseStatus.self_assessed_interview_ready
      else if any_attempted
      then DerivedCaseStatus.in_practice
      else DerivedCaseStatus.captured in
    same_stages snapshot.passed_stages (passed results)
    && same_next snapshot.next_stage (next_of results)
    && status_eq snapshot.status expected_status
    && same_flag snapshot.interview_ready all_passed
