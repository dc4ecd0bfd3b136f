-- ===== src/Casebook/Store/Ordered.antt =====
-- What it means that the stages are passed in order, and that an attempt has its evidence.
use soloscale_ai_os.Prelude.{
  ◌≡◌, refl, sym, ◌∙◌, subst, true, false, Option, none, some, is_some, last?, filter_by, All, List,
  [], ◌∷◌, ◌++◌, arith,
}
use mathlib.Core.List.{append_assoc, append-nil}
use soloscale_ai_os.Prelude.Text.{Text, has_ink}
use soloscale_ai_os.Prelude.Blank.{has_ink-strip, strip-ink}
use soloscale_ai_os.Casebook.Models.{
  is_noted, PracticeStage, AttemptOutcome, is_pass, Receipt, PracticeAttempt, StageResults,
  validate_outcome_evidence,
}
use soloscale_ai_os.Casebook.Mastery.{at_stage, outcome_of}
use soloscale_ai_os.Casebook.Store.{has_missing}

-- the stages before a stage
abbrev pub stages_before : PracticeStage → List PracticeStage
stages_before PracticeStage.explain = []
stages_before PracticeStage.trace = PracticeStage.explain ∷ []
stages_before PracticeStage.rebuild = PracticeStage.explain ∷ PracticeStage.trace ∷ []
stages_before PracticeStage.debug =
    PracticeStage.explain ∷ PracticeStage.trace ∷ PracticeStage.rebuild ∷ []
stages_before PracticeStage.defend =
    PracticeStage.explain ∷ PracticeStage.trace ∷ PracticeStage.rebuild ∷ PracticeStage.debug ∷ []

-- the outcome of the last attempt at a stage
abbrev pub last_outcome : List PracticeAttempt → PracticeStage → Option AttemptOutcome
last_outcome log stage = outcome_of (last? (filter_by (at_stage stage) log)) none

-- An attempt that passes finds PASS as the last outcome of every earlier stage.
abbrev pub InOrder : List PracticeAttempt → PracticeAttempt → Type 0
InOrder log a =
    a.outcome ≡ AttemptOutcome.pass
    → All (λ s. last_outcome log s ≡ some AttemptOutcome.pass) (stages_before a.stage)

-- each attempt of a log, on the attempts before it
abbrev pub IsOrdered : List PracticeAttempt → List PracticeAttempt → Type 0
IsOrdered before [] = Unit
IsOrdered before (a ∷ later) = InOrder before a × IsOrdered (before ++ a ∷ []) later

pub IsOrdered-snoc :
    (before log : List PracticeAttempt) (a : PracticeAttempt)
    → IsOrdered before log
    → InOrder (before ++ log) a
    → IsOrdered before (log ++ a ∷ [])
IsOrdered-snoc before [] a h here = (subst (λ l. InOrder l a) (append-nil before) here, tt)
IsOrdered-snoc before (x ∷ xs) a (first, rest) here = (
  first,
  IsOrdered-snoc (before ++ x ∷ []) xs a rest
      (subst (λ l. InOrder l a) (sym (append_assoc before (x ∷ []) xs)) here),
)

-- A passed attempt has a receipt, and one that needs work has a note of more than spaces.
abbrev pub IsEvidenced : PracticeAttempt → Type 0
IsEvidenced a =
    (a.outcome ≡ AttemptOutcome.pass → (r : Receipt) × (a.receipt ≡ some r))
    × (a.outcome ≡ AttemptOutcome.needs_work → (n : Text) × (a.note ≡ some n) × (has_ink n ≡ true))

received : (o : Option Receipt) → is_some o ≡ true → (r : Receipt) × (o ≡ some r)
received none h = cc
received (some r) h = (r, refl)

noted : (o : Option Text) → is_noted o ≡ true → (n : Text) × (o ≡ some n) × (has_ink n ≡ true)
noted none h = cc
noted (some n) h = (n, refl, sym (strip-ink n) ∙ has_ink-strip n (ground arith))

pub validate-IsEvidenced :
    (a : PracticeAttempt) → validate_outcome_evidence a ≡ true → IsEvidenced a
unfolding validate_outcome_evidence
validate-IsEvidenced a h = (λ p. received a.receipt (rw p at h), λ p. noted a.note (rw p at h))

-- The guard that finds no earlier stage missing has found each of them passed.
passed_at : (o : Option AttemptOutcome) → is_pass o ≡ true → o ≡ some AttemptOutcome.pass
passed_at none h = cc
passed_at (some AttemptOutcome.pass) h = refl
passed_at (some AttemptOutcome.needs_work) h = cc

pub all_passed :
    (results : StageResults) (stage : PracticeStage)
    → has_missing results stage ≡ false
    → All (λ s. results s ≡ some AttemptOutcome.pass) (stages_before stage)
all_passed results stage h = by_stage stage h
  where
    at : (s : PracticeStage) → is_pass (results s) ≡ true → results s ≡ some AttemptOutcome.pass
    at s = passed_at (results s)

    by_stage :
        (stage : PracticeStage)
        → has_missing results stage ≡ false
        → All (λ s. results s ≡ some AttemptOutcome.pass) (stages_before stage)
    by_stage PracticeStage.explain h = tt
    by_stage PracticeStage.trace h = (at PracticeStage.explain (ground arith), tt)
    by_stage PracticeStage.rebuild h =
        (at PracticeStage.explain (ground arith), (at PracticeStage.trace (ground arith), tt))
    by_stage PracticeStage.debug h = (
      at PracticeStage.explain (ground arith),
      (at PracticeStage.trace (ground arith), (at PracticeStage.rebuild (ground arith), tt)),
    )
    by_stage PracticeStage.defend h = (
      at PracticeStage.explain (ground arith),
      (
        at PracticeStage.trace (ground arith),
        (at PracticeStage.rebuild (ground arith), (at PracticeStage.debug (ground arith), tt)),
      ),
    )
