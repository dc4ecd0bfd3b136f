-- ===== src/Orchestration/StateMachine/Gates.antt =====
-- What every path through the state machine has in common.
use soloscale_ai_os.Prelude.{◌≡◌, ◌≢◌, ◌⊎◌, Bool, true, false, refl, arith}
use soloscale_ai_os.Orchestration.Models.{TaskStatus}
use soloscale_ai_os.Orchestration.StateMachine.{is_allowed}

-- Paths of validated transitions.
pub data Reaches (s : TaskStatus) : TaskStatus → Type 0 where
  here : Reaches s s
  next : {t u : TaskStatus} → Reaches s t → is_allowed t u ≡ true → Reaches s u

-- The statuses that lie behind the EXECUTING gate.
abbrev pub past_execution : TaskStatus → Bool
past_execution TaskStatus.executing = true
past_execution TaskStatus.verifying = true
past_execution TaskStatus.reviewing = true
past_execution TaskStatus.fixing = true
past_execution TaskStatus.accepted = true
past_execution TaskStatus.closed = true
past_execution _ = false

pub enter_execution :
    (s t : TaskStatus)
    → is_allowed s t ≡ true
    → past_execution s ≡ false
    → past_execution t ≡ true
    → (s ≡ TaskStatus.approved) × (t ≡ TaskStatus.executing)
unfolding is_allowed
enter_execution s t h p q = ground arith

trans : {s t u : TaskStatus} → Reaches s t → Reaches t u → Reaches s u
trans p here = p
trans p (next q h) = next (trans p q) h

step_then : {s t u : TaskStatus} → is_allowed s t ≡ true → Reaches t u → Reaches s u
step_then h r = trans (next here h) r

-- From every status but FAILED a task can still be closed.
pub can_close : (s : TaskStatus) → s ≢ TaskStatus.failed → Reaches s TaskStatus.closed
unfolding is_allowed
can_close s ne =
    elim s as (λ x. x ≢ TaskStatus.failed → Reaches x TaskStatus.closed) [
      | TaskStatus.closed ↦ λ _. here
      | TaskStatus.accepted ↦ λ _. from_accepted
      | TaskStatus.reviewing ↦ λ _. from_reviewing
      | TaskStatus.verifying ↦ λ _. from_verifying
      | TaskStatus.fixing ↦ λ _. step_then refl from_verifying
      | TaskStatus.executing ↦ λ _. from_executing
      | TaskStatus.approved ↦ λ _. from_approved
      | TaskStatus.planned ↦ λ _. from_planned
      | TaskStatus.triaged ↦ λ _. from_triaged
      | TaskStatus.new ↦ λ _. step_then refl from_triaged
      | TaskStatus.blocked ↦ λ _. step_then refl from_triaged
      | TaskStatus.failed ↦ λ h. absurd (h refl)
    ]
      ne
  where
    from_accepted : Reaches TaskStatus.accepted TaskStatus.closed
    from_accepted = step_then refl here

    from_reviewing : Reaches TaskStatus.reviewing TaskStatus.closed
    from_reviewing = step_then refl from_accepted

    from_verifying : Reaches TaskStatus.verifying TaskStatus.closed
    from_verifying = step_then refl from_reviewing

    from_executing : Reaches TaskStatus.executing TaskStatus.closed
    from_executing = step_then refl from_verifying

    from_approved : Reaches TaskStatus.approved TaskStatus.closed
    from_approved = step_then refl from_executing

    from_planned : Reaches TaskStatus.planned TaskStatus.closed
    from_planned = step_then refl from_approved

    from_triaged : Reaches TaskStatus.triaged TaskStatus.closed
    from_triaged = step_then refl from_planned

no_way_out :
    (m t : TaskStatus)
    → is_allowed m t ≡ true
    → (m ≡ TaskStatus.failed) ⊎ (m ≡ TaskStatus.closed)
    → ⊥
unfolding is_allowed
no_way_out m t h e = ground arith

-- A task in FAILED or CLOSED stays where it is.
pub stays_ended :
    {s t : TaskStatus} → Reaches s t → (s ≡ TaskStatus.failed) ⊎ (s ≡ TaskStatus.closed) → t ≡ s
stays_ended here e = refl
stays_ended (next {t = m} {u = t} r h) e = absurd (no_way_out m t h (rw (stays_ended r e) e))
