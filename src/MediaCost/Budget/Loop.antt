-- ===== src/MediaCost/Budget/Loop.antt =====
-- `evaluate_budget`: its loop over the checks, with the early exit and the warning that it carries.
use soloscale_ai_os.Prelude.{
  ℕ, ◌+◌, ◌-◌, ◌*◌, ◌≡◌, inl, inr, refl, sym, ap, ◌∙◌, Bool, true, false, ◌&&◌, Option, none, some,
  List, [], ◌∷◌, is_none, leb, ltb, or_else, find_by, String, Bool-cases, Option-cases, arith,
  if◌then◌else◌,
}
use soloscale_ai_os.MediaCost.Models.{BudgetGuardDecision, BudgetEvaluation, one}
use soloscale_ai_os.MediaCost.Budget.{Check, Finding, run_checks, bare, found, conclude}

-- the check has a limit and the amount goes over it
abbrev pub exceeds : ℕ → Check → Bool
exceeds amount c = elim c.limit [ none ↦ false | some limit ↦ ltb limit (c.already_spent + amount) ]

-- the check has a limit above zero and the amount comes into the warning range below it
abbrev pub nears : ℕ → ℕ → Check → Bool
nears ratio amount c = elim c.limit [
  | none ↦ false
  | some limit ↦ ltb 0 limit && leb (limit * ratio) ((c.already_spent + amount) * one)
]

abbrev pub as_finding : ℕ → Check → Finding
as_finding amount c = record {
  scope = c.scope;
  limit = or_else c.limit 0;
  already_spent = c.already_spent;
  projected = c.already_spent + amount;
}

abbrev pub warned : ℕ → Option Check → BudgetEvaluation
warned amount none = bare BudgetGuardDecision.allow (some amount)
warned amount (some c) = found BudgetGuardDecision.warn amount (as_finding amount c) none

abbrev pub stopped : ℕ → Option Check → Option Check → BudgetEvaluation
stopped amount none near = warned amount near
stopped amount (some c) near =
    let f = as_finding amount c in
    found BudgetGuardDecision.block amount f (some (f.projected - f.limit))

-- The guard without its loop: the first check that is exceeded, else the first one that is neared.
abbrev pub decide : ℕ → ℕ → List Check → BudgetEvaluation
decide ratio amount cs =
    stopped amount (find_by (exceeds amount) cs) (find_by (nears ratio amount) cs)

-- the warning after a check that is not exceeded
abbrev note : ℕ → ℕ → Check → Option Finding → Option Finding
note ratio amount c warning =
    if nears ratio amount c && is_none warning then some (as_finding amount c) else warning

pub over :
    (ratio amount : ℕ) (scope : String) (limit : Option ℕ) (spent : ℕ) (cs : List Check)
    (warning : Option Finding)
    → let c : Check = record { scope = scope; limit = limit; already_spent = spent } in
      exceeds amount c ≡ true
      → run_checks ratio amount (c ∷ cs) warning ≡ (some (as_finding amount c), warning)
unfolding run_checks
over ratio amount scope none spent cs warning h = cc
over ratio amount scope (some limit) spent cs warning h = rw h refl

under :
    (ratio amount : ℕ) (scope : String) (limit : Option ℕ) (spent : ℕ) (cs : List Check)
    (warning : Option Finding)
    → let c : Check = record { scope = scope; limit = limit; already_spent = spent } in
      exceeds amount c ≡ false
      → run_checks ratio amount (c ∷ cs) warning
        ≡ run_checks ratio amount cs (note ratio amount c warning)
unfolding run_checks
under ratio amount scope none spent cs warning h = refl
under ratio amount scope (some limit) spent cs warning h = rw h refl

abbrev first_near : ℕ → Option Check → Option Finding
first_near amount none = none
first_near amount (some c) = some (as_finding amount c)

-- the warning that a whole list of checks leaves
abbrev noted : ℕ → ℕ → List Check → Option Finding → Option Finding
noted ratio amount cs (some f) = some f
noted ratio amount cs none = first_near amount (find_by (nears ratio amount) cs)

run_checks-some :
    (ratio amount : ℕ) (cs : List Check) (warning : Option Finding) (x : Check)
    → find_by (exceeds amount) cs ≡ some x
    → (run_checks ratio amount cs warning).0 ≡ some (as_finding amount x)
run_checks-some ratio amount [] warning x h = cc
run_checks-some ratio amount (c ∷ cs) warning x h = elim (Bool-cases (exceeds amount c)) [
  | inl more ↦
      let same : c ≡ x = ground arith in
      ap (λ (r : Option Finding × Option Finding). r.0)
        (over ratio amount c.scope c.limit c.already_spent cs warning more)
      ∙ ap (λ y. some (as_finding amount y)) same
  | inr less ↦
      ap (λ (r : Option Finding × Option Finding). r.0)
        (under ratio amount c.scope c.limit c.already_spent cs warning less)
      ∙ run_checks-some ratio amount cs (note ratio amount c warning) x (ground arith)
]

note-noted :
    (ratio amount : ℕ) (c : Check) (cs : List Check) (warning : Option Finding)
    → noted ratio amount cs (note ratio amount c warning) ≡ noted ratio amount (c ∷ cs) warning
note-noted ratio amount c cs warning = at (nears ratio amount c) warning
  where
    at :
        (near : Bool) (w : Option Finding)
        → noted ratio amount cs (if near && is_none w then some (as_finding amount c) else w)
          ≡ elim w [
            | some f ↦ some f
            | none ↦ first_near amount (if near then some c else find_by (nears ratio amount) cs)
          ]
    at true none = refl
    at true (some f) = refl
    at false none = refl
    at false (some f) = refl

run_checks-none :
    (ratio amount : ℕ) (cs : List Check) (warning : Option Finding)
    → find_by (exceeds amount) cs ≡ none
    → run_checks ratio amount cs warning ≡ (none, noted ratio amount cs warning)
unfolding run_checks
run_checks-none ratio amount [] none h = refl
run_checks-none ratio amount [] (some f) h = refl
run_checks-none ratio amount (c ∷ cs) warning h = elim (Bool-cases (exceeds amount c)) [
  | inl more ↦ absurd (ground arith)
  | inr less ↦
      under ratio amount c.scope c.limit c.already_spent cs warning less
      ∙ run_checks-none ratio amount cs (note ratio amount c warning) (ground arith)
      ∙ ap (λ w. (none, w)) (note-noted ratio amount c cs warning)
]

conclude-noted :
    (amount : ℕ) (near : Option Check)
    → conclude amount (none, first_near amount near) ≡ warned amount near
conclude-noted amount none = refl
conclude-noted amount (some c) = refl

conclude-some :
    (amount : ℕ) (r : Option Finding × Option Finding) (x : Check) (near : Option Check)
    → r.0 ≡ some (as_finding amount x)
    → conclude amount r ≡ stopped amount (some x) near
conclude-some amount (some f, w) x near h =
    let same : f ≡ as_finding amount x = cc in
    ap (λ (g : Finding). found BudgetGuardDecision.block amount g (some (g.projected - g.limit)))
      same
conclude-some amount (none, w) x near h = cc

pub loop_lem :
    (ratio amount : ℕ) (cs : List Check)
    → conclude amount (run_checks ratio amount cs none) ≡ decide ratio amount cs
loop_lem ratio amount cs =
    let near = find_by (nears ratio amount) cs in
    elim (Option-cases (find_by (exceeds amount) cs)) [
      | inl within ↦
          ap (conclude amount) (run_checks-none ratio amount cs none within)
          ∙ conclude-noted amount near
          ∙ sym (ap (λ o. stopped amount o near) within)
      | inr (x, h) ↦
          conclude-some amount (run_checks ratio amount cs none) x near
            (run_checks-some ratio amount cs none x h)
          ∙ sym (ap (λ o. stopped amount o near) h)
    ]
