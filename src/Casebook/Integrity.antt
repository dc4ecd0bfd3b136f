-- ===== src/Casebook/Integrity.antt =====
-- `verify_integrity` of casebook_store.py. What the file system says of an archived path is an argument.
use soloscale_ai_os.Prelude.{
  ℕ, ◌+◌, ◌≡◌, refl, ap, ap₂, ◌∙◌, Bool, true, false, not, ◌&&◌, ◌||◌, Option, none, some, List, [],
  ◌∷◌, ◌++◌, ◌==◌, any, all, length, filter_by, is_some, String, str_eq, arith, if◌then◌else◌,
}
use soloscale_ai_os.Casebook.Models.{Receipt, LearningCase, PracticeAttempt}

pub data IntegrityScope : Type 0 where
  evidence practice : IntegrityScope

pub data IntegrityProblem : Type 0 where
  unsafe_path missing not_regular_file unreadable byte_size_mismatch sha256_mismatch :
      IntegrityProblem

pub record IntegrityFailure : Type 0 where
  pub scope : IntegrityScope
  pub receipt_id : String
  pub archived_path : String
  pub problem : IntegrityProblem

pub record IntegrityReport : Type 0 where
  pub case_id : String
  pub checked_evidence : ℕ
  pub checked_practice_receipts : ℕ
  pub failures : List IntegrityFailure

abbrev pub is_empty_list : List IntegrityFailure → Bool
is_empty_list [] = true
is_empty_list (f ∷ fs) = false

abbrev pub checked_files : IntegrityReport → ℕ
checked_files report = report.checked_evidence + report.checked_practice_receipts

-- the property `ok`
abbrev pub is_intact : IntegrityReport → Bool
is_intact report = is_empty_list report.failures

abbrev pub is_evidence : IntegrityFailure → Bool
is_evidence f = elim f.scope [ IntegrityScope.evidence ↦ true | IntegrityScope.practice ↦ false ]

-- the property `evidence_gap`
abbrev pub evidence_gap : IntegrityReport → Bool
evidence_gap report = report.checked_evidence == 0 || any is_evidence report.failures

-- What looking at an archived path comes to: a path that is absolute or leaves the casebook, none, a
-- directory or device, a file that cannot be read, or a file with its digest and size.
pub data Look : Type 0 where
  unsafe missing not_regular unreadable : Look
  file : (actual_sha256 : String) → (actual_byte_size : ℕ) → Look

unfoldable pub problem_of : Look → Receipt → Option IntegrityProblem
problem_of Look.unsafe r = some IntegrityProblem.unsafe_path
problem_of Look.missing r = some IntegrityProblem.missing
problem_of Look.not_regular r = some IntegrityProblem.not_regular_file
problem_of Look.unreadable r = some IntegrityProblem.unreadable
problem_of (Look.file actual_sha256 actual_byte_size) r =
    if not (actual_byte_size == r.byte_size)
    then some IntegrityProblem.byte_size_mismatch
    else if not (str_eq actual_sha256 r.sha256)
    then some IntegrityProblem.sha256_mismatch
    else none

-- the digest and the size are those of the receipt
abbrev pub matches : Look → Receipt → Bool
matches (Look.file actual_sha256 actual_byte_size) r =
    actual_byte_size == r.byte_size && str_eq actual_sha256 r.sha256
matches _ r = false

abbrev pub practice_receipts : List PracticeAttempt → List Receipt
practice_receipts [] = []
practice_receipts (a ∷ later) = elim a.receipt [
  | none ↦ practice_receipts later
  | some r ↦ r ∷ practice_receipts later
]

-- the failure that a problem comes to
abbrev pub failure_of : IntegrityScope → Receipt → Option IntegrityProblem → Option IntegrityFailure
failure_of scope r none = none
failure_of scope r (some problem) = some (record {
  scope = scope;
  receipt_id = r.id;
  archived_path = r.archived_path;
  problem = problem;
})

-- `if failure is not None: failures.append(failure)`, from the end of the loop
abbrev pub add_failure : Option IntegrityFailure → List IntegrityFailure → List IntegrityFailure
add_failure none failures = failures
add_failure (some f) failures = f ∷ failures

both_empty :
    (fs gs : List IntegrityFailure)
    → is_empty_list (fs ++ gs) ≡ is_empty_list fs && is_empty_list gs
both_empty [] gs = refl
both_empty (f ∷ fs) gs = refl

-- of a receipt that there is
abbrev pub holds : (Receipt → Bool) → Option Receipt → Bool
holds p none = true
holds p (some r) = p r

abbrev pub receipt_holds : (Receipt → Bool) → PracticeAttempt → Bool
receipt_holds p a = holds p a.receipt

length-practice_receipts :
    (attempts : List PracticeAttempt)
    → length (practice_receipts attempts) ≡ length (filter_by (λ a. is_some a.receipt) attempts)
length-practice_receipts [] = refl
length-practice_receipts (a ∷ later) = ground (arith, length-practice_receipts later)

any-append :
    (p : IntegrityFailure → Bool) (xs ys : List IntegrityFailure)
    → any p (xs ++ ys) ≡ any p xs || any p ys
any-append p [] ys = refl
any-append p (x ∷ xs) ys = ground (arith, any-append p xs ys)

module _ (look : String → Look) where
  unfoldable pub verify_receipt : IntegrityScope → Receipt → Option IntegrityFailure
  verify_receipt scope r = failure_of scope r (problem_of (look r.archived_path) r)

  -- the loop over receipts of one scope
  unfoldable pub verify_receipts : IntegrityScope → List Receipt → List IntegrityFailure
  verify_receipts scope [] = []
  verify_receipts scope (r ∷ rs) = add_failure (verify_receipt scope r) (verify_receipts scope rs)

  unfoldable pub verify_integrity : LearningCase → List PracticeAttempt → IntegrityReport
  unfolding verify_receipts
  verify_integrity c attempts = record {
    case_id = c.id;
    checked_evidence = length c.evidence;
    checked_practice_receipts = length (practice_receipts attempts);
    failures =
        verify_receipts IntegrityScope.evidence c.evidence
        ++ verify_receipts IntegrityScope.practice (practice_receipts attempts);
  }

  abbrev is_met : Receipt → Bool
  is_met r = matches (look r.archived_path) r

  problem_lem : (l : Look) (r : Receipt) → problem_of l r ≡ none → matches l r ≡ true
  unfolding problem_of
  problem_lem l r h = ground arith

  problem_lem_some :
      (l : Look) (r : Receipt) (p : IntegrityProblem)
      → problem_of l r ≡ some p
      → matches l r ≡ false
  unfolding problem_of
  problem_lem_some l r p h = ground arith

  verify_receipts_lem :
      (scope : IntegrityScope) (rs : List Receipt)
      → is_empty_list (verify_receipts scope rs) ≡ all is_met rs
  unfolding verify_receipts verify_receipt
  verify_receipts_lem scope [] = refl
  verify_receipts_lem scope (r ∷ rs) =
      step (problem_of (look r.archived_path) r) refl (verify_receipts_lem scope rs)
    where
      step :
          (p : Option IntegrityProblem)
          → problem_of (look r.archived_path) r ≡ p
          → is_empty_list (verify_receipts scope rs) ≡ all is_met rs
          → is_empty_list (add_failure (failure_of scope r p) (verify_receipts scope rs))
            ≡ is_met r && all is_met rs
      step none fine rest = rw (problem_lem (look r.archived_path) r fine) rest
      step (some p) bad rest = rw (problem_lem_some (look r.archived_path) r p bad) refl

  evidence_lem :
      (rs : List Receipt)
      → any is_evidence (verify_receipts IntegrityScope.evidence rs) ≡ not (all is_met rs)
  unfolding verify_receipts verify_receipt
  evidence_lem [] = refl
  evidence_lem (r ∷ rs) = step (problem_of (look r.archived_path) r) refl (evidence_lem rs)
    where
      step :
          (p : Option IntegrityProblem)
          → problem_of (look r.archived_path) r ≡ p
          → any is_evidence (verify_receipts IntegrityScope.evidence rs) ≡ not (all is_met rs)
          → any is_evidence (
              add_failure
                (failure_of IntegrityScope.evidence r p)
                (verify_receipts IntegrityScope.evidence rs))
            ≡ not (is_met r && all is_met rs)
      step none fine rest = rw (problem_lem (look r.archived_path) r fine) rest
      step (some p) bad rest = rw (problem_lem_some (look r.archived_path) r p bad) refl

  practice_lem :
      (rs : List Receipt) → any is_evidence (verify_receipts IntegrityScope.practice rs) ≡ false
  unfolding verify_receipts verify_receipt
  practice_lem [] = refl
  practice_lem (r ∷ rs) = step (problem_of (look r.archived_path) r) (practice_lem rs)
    where
      step :
          (p : Option IntegrityProblem)
          → any is_evidence (verify_receipts IntegrityScope.practice rs) ≡ false
          → any is_evidence (
              add_failure
                (failure_of IntegrityScope.practice r p)
                (verify_receipts IntegrityScope.practice rs))
            ≡ false
      step none rest = rest
      step (some p) rest = rest

  practice-met :
      (attempts : List PracticeAttempt)
      → all is_met (practice_receipts attempts) ≡ all (receipt_holds is_met) attempts
  practice-met [] = refl
  practice-met (a ∷ later) = by_receipt a.receipt (practice-met later)
    where
      by_receipt :
          (o : Option Receipt)
          → all is_met (practice_receipts later) ≡ all (receipt_holds is_met) later
          → all is_met
              (elim o [ none ↦ practice_receipts later | some r ↦ r ∷ practice_receipts later ])
            ≡ holds is_met o && all (receipt_holds is_met) later
      by_receipt none rest = rest
      by_receipt (some r) rest = ap (λ b. is_met r && b) rest

  -- A report is clean exactly when each receipt of the case, and each attempt's receipt where it has one,
  -- has at its archived path a file of its digest and size. It counts the case's receipts and the
  -- attempts that have one. There is an evidence gap exactly when the case has no receipt or one of the
  -- case's receipts has no such file, whatever becomes of the attempts' receipts.
  pub verify_integrity_lem :
      (c : LearningCase) (attempts : List PracticeAttempt)
      → let report = verify_integrity c attempts in
        (is_intact report ≡ all is_met c.evidence && all (receipt_holds is_met) attempts)
        × (checked_files report
            ≡ length c.evidence + length (filter_by (λ a. is_some a.receipt) attempts))
        × (evidence_gap report ≡ length c.evidence == 0 || not (all is_met c.evidence))
  unfolding verify_integrity
  verify_integrity_lem c attempts =
      let seen = practice_receipts attempts in
      let first = verify_receipts IntegrityScope.evidence c.evidence in
      let second = verify_receipts IntegrityScope.practice seen in
      (
        both_empty first second
            ∙ ap₂ (λ a b. a && b) (verify_receipts_lem IntegrityScope.evidence c.evidence)
                (verify_receipts_lem IntegrityScope.practice seen ∙ practice-met attempts),
        ap (λ n. length c.evidence + n) (length-practice_receipts attempts),
        ap (λ b. length c.evidence == 0 || b)
            (any-append is_evidence first second
              ∙ ap₂ (λ a b. a || b) (evidence_lem c.evidence) (practice_lem seen)
              ∙ or_false (not (all is_met c.evidence))),
      )
    where
      or_false : (b : Bool) → b || false ≡ b
      or_false true = refl
      or_false false = refl
