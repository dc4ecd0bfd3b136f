-- ===== src/Orchestration/StateMachine.antt =====
-- state_machine.py: the transitions that a task may make.
pub mod Gates
use soloscale_ai_os.Prelude.{
  ◌≡◌, Bool, true, false, List, [], ◌∷◌, any, Result, ok, err, refl, if◌then◌else◌,
}
use soloscale_ai_os.Orchestration.Models.{TaskStatus, status_eq}

-- ALLOWED_TRANSITIONS
abbrev pub allowed_transitions : TaskStatus → List TaskStatus
allowed_transitions TaskStatus.new =
    TaskStatus.triaged ∷ TaskStatus.blocked ∷ TaskStatus.failed ∷ []
allowed_transitions TaskStatus.triaged =
    TaskStatus.planned ∷ TaskStatus.blocked ∷ TaskStatus.failed ∷ []
allowed_transitions TaskStatus.planned =
    TaskStatus.approved ∷ TaskStatus.blocked ∷ TaskStatus.failed ∷ []
allowed_transitions TaskStatus.approved =
    TaskStatus.executing ∷ TaskStatus.blocked ∷ TaskStatus.failed ∷ []
allowed_transitions TaskStatus.executing =
    TaskStatus.verifying ∷ TaskStatus.blocked ∷ TaskStatus.failed ∷ []
allowed_transitions TaskStatus.verifying =
    TaskStatus.reviewing ∷ TaskStatus.fixing ∷ TaskStatus.blocked ∷ TaskStatus.failed ∷ []
allowed_transitions TaskStatus.reviewing =
    TaskStatus.accepted ∷ TaskStatus.fixing ∷ TaskStatus.blocked ∷ TaskStatus.failed ∷ []
allowed_transitions TaskStatus.fixing =
    TaskStatus.verifying ∷ TaskStatus.blocked ∷ TaskStatus.failed ∷ []
allowed_transitions TaskStatus.accepted = TaskStatus.closed ∷ []
allowed_transitions TaskStatus.blocked = TaskStatus.triaged ∷ TaskStatus.failed ∷ []
allowed_transitions TaskStatus.failed = []
allowed_transitions TaskStatus.closed = []

-- `InvalidTransition`
pub data InvalidTransition : Type 0 where
  invalid_transition : TaskStatus → TaskStatus → InvalidTransition

pub record Transition : Type 0 where
  pub current : TaskStatus
  pub target : TaskStatus

-- `target in allowed`
unfoldable pub is_allowed : TaskStatus → TaskStatus → Bool
unfolding status_eq
is_allowed current target = any (status_eq target) (allowed_transitions current)

unfoldable pub validate_transition : TaskStatus → TaskStatus → Result InvalidTransition Transition
validate_transition current target =
    if is_allowed current target
    then ok (record { current = current; target = target })
    else err (invalid_transition current target)
