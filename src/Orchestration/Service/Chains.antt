-- ===== src/Orchestration/Service/Chains.antt =====
-- Transitions that lead from one status to another, step by step.
use soloscale_ai_os.Prelude.{
  ◌≡◌, refl, sym, ◌∙◌, Bool, true, false, not, ◌&&◌, Option, none, some, List, [], ◌∷◌, ◌++◌, arith,
}
use soloscale_ai_os.Prelude.Text.{Text, has_ink}
use soloscale_ai_os.Orchestration.Models.{TaskStatus, status_eq, status_eq_sound, RunEvent}
use soloscale_ai_os.Orchestration.StateMachine.{is_allowed}
use soloscale_ai_os.Orchestration.Service.{continues}

-- there is a text, of more than spaces
abbrev pub has_text : Option Text → Bool
has_text none = false
has_text (some s) = has_ink s

-- The event takes a task from one status to another: the transition is allowed, it carries
-- evidence, and one into EXECUTING carries an approval, neither of them blank.
pub record IsStep (s : TaskStatus) (e : RunEvent) (t : TaskStatus) : Type 0 where
  pub left : e.from_status ≡ some s
  pub entered : e.to_status ≡ some t
  pub permitted : is_allowed s t ≡ true
  pub evidenced : has_text e.evidence_receipt ≡ true
  pub approved : status_eq t TaskStatus.executing && not (has_text e.approval_receipt) ≡ false

-- The events lead from one status to another, step by step.
abbrev pub Chain : TaskStatus → List RunEvent → TaskStatus → Type 0
Chain s [] t = s ≡ t
Chain s (e ∷ es) t = (u : TaskStatus) × IsStep s e u × Chain u es t

pub Chain-snoc :
    (s t u : TaskStatus) (es : List RunEvent) (e : RunEvent)
    → Chain s es t
    → IsStep t e u
    → Chain s (es ++ e ∷ []) u
Chain-snoc s t u [] e c step = (u, rw c step, refl)
Chain-snoc s t u (x ∷ es) e (v, first, c) step = (v, first, Chain-snoc v t u es e c step)

-- The status that `continues` compares with is the one that the chain ends in.
continues-Chain :
    (s t : TaskStatus) (es : List RunEvent) (e : RunEvent) (current : TaskStatus)
    → Chain s (e ∷ es) t
    → continues (e ∷ es) current ≡ true
    → t ≡ current
continues-Chain s t [] e current (u, step, c) h =
    sym c ∙ status_eq_sound u current (ground (arith, step.entered))
continues-Chain s t (x ∷ es) e current (u, step, c) h = continues-Chain u t es x current c h

pub continues_end :
    (t : TaskStatus) (es : List RunEvent) (current : TaskStatus)
    → Chain TaskStatus.new es t
    → continues es current ≡ true
    → t ≡ current
continues_end t [] current c h = sym c ∙ sym (status_eq_sound current TaskStatus.new h)
continues_end t (e ∷ es) current c h = continues-Chain TaskStatus.new t es e current c h
