-- ===== src/Orchestration/Models.antt =====
-- models.py: the contracts that orchestration works on. Text that the program strips or tests for
-- blankness is a `Text`; identifiers and other text that is only stored or compared is a `String`.
use soloscale_ai_os.Prelude.{
  ℕ, ◌≡◌, Bool, true, false, not, ◌&&◌, ◌||◌, Option, none, some, List, arith, ◌==◌, String, str_eq,
  is_none, if◌then◌else◌,
}
use soloscale_ai_os.Prelude.Text.{Text, is_empty, strip}

pub data Surface : Type 0 where
  chat plugin codex runtime human : Surface

pub data RiskLevel : Type 0 where
  low medium high critical : RiskLevel

pub data TaskStatus : Type 0 where
  new triaged planned approved executing verifying : TaskStatus
  reviewing fixing accepted blocked failed closed : TaskStatus

-- the place of a member in its enum; members are identical exactly when their places agree
abbrev pub surface_place : Surface → ℕ
surface_place Surface.chat = 0
surface_place Surface.plugin = 1
surface_place Surface.codex = 2
surface_place Surface.runtime = 3
surface_place Surface.human = 4

abbrev pub status_place : TaskStatus → ℕ
status_place TaskStatus.new = 0
status_place TaskStatus.triaged = 1
status_place TaskStatus.planned = 2
status_place TaskStatus.approved = 3
status_place TaskStatus.executing = 4
status_place TaskStatus.verifying = 5
status_place TaskStatus.reviewing = 6
status_place TaskStatus.fixing = 7
status_place TaskStatus.accepted = 8
status_place TaskStatus.blocked = 9
status_place TaskStatus.failed = 10
status_place TaskStatus.closed = 11

unfoldable pub status_eq : TaskStatus → TaskStatus → Bool
status_eq a b = status_place a == status_place b

pub status_eq_sound : (a b : TaskStatus) → status_eq a b ≡ true → a ≡ b
unfolding status_eq
status_eq_sound a b h = ground arith

pub status_eq_refl : (a : TaskStatus) → status_eq a a ≡ true
unfolding status_eq
status_eq_refl a = ground arith

-- `TaskStatus.value`
abbrev pub status_value : TaskStatus → String
status_value TaskStatus.new = "NEW"
status_value TaskStatus.triaged = "TRIAGED"
status_value TaskStatus.planned = "PLANNED"
status_value TaskStatus.approved = "APPROVED"
status_value TaskStatus.executing = "EXECUTING"
status_value TaskStatus.verifying = "VERIFYING"
status_value TaskStatus.reviewing = "REVIEWING"
status_value TaskStatus.fixing = "FIXING"
status_value TaskStatus.accepted = "ACCEPTED"
status_value TaskStatus.blocked = "BLOCKED"
status_value TaskStatus.failed = "FAILED"
status_value TaskStatus.closed = "CLOSED"

-- `reasoning_depth` and `latency_tolerance` are carried and never read; `created_at` is a stamp.
pub record TaskEnvelope : Type 0 where
  pub id : String
  pub title : String
  pub goal : String
  pub repository : Option String
  pub requested_paths : List String
  pub risk : RiskLevel
  pub requires_local_files : Bool
  pub requires_terminal : Bool
  pub requires_realtime : Bool
  pub requires_scheduled_execution : Bool
  pub plugin_can_complete : Bool
  pub plugin_name : Option Text
  pub high_risk_action : Bool
  pub irreversible_action : Bool
  pub public_action : Bool
  pub constraints : List String
  pub frozen_decisions : List String
  pub required_changes : List String
  pub acceptance_criteria : List String
  pub tests_to_run : List String
  pub non_goals : List String
  pub branch : Option String
  pub status : TaskStatus
  pub created_at : ℕ

pub record RouteDecision : Type 0 where
  pub primary : Surface
  pub secondary : List Surface
  pub rationale : List Text
  pub human_gate_required : Bool

pub record RunEvent : Type 0 where
  pub run_id : String
  pub task_id : String
  pub event_type : String
  pub status : TaskStatus
  pub timestamp : ℕ
  pub actor : String
  pub from_status : Option TaskStatus
  pub to_status : Option TaskStatus
  pub evidence_receipt : Option Text
  pub approval_receipt : Option Text
  pub payload : List (String × Text)

-- `not text` of an optional text: missing or empty
abbrev pub is_missing : Option Text → Bool
is_missing none = true
is_missing (some s) = is_empty s

abbrev is_blank : Option Text → Bool
is_blank none = true
is_blank (some s) = is_empty s || is_empty (strip s)

abbrev is_status : Option TaskStatus → TaskStatus → Bool
is_status none s = false
is_status (some t) s = status_eq t s

abbrev pub state_transition : String
state_transition = "state_transition"

-- `RunEvent.validate_transition_event`: whether the event may be constructed
unfoldable pub validate_transition_event : RunEvent → Bool
validate_transition_event e =
    if not (str_eq e.event_type state_transition)
    then true
    else if is_none e.from_status || is_none e.to_status
    then false
    else if is_blank e.evidence_receipt
    then false
    else is_status e.to_status e.status

-- `TaskEnvelope.validate_plugin`
unfoldable pub validate_plugin : TaskEnvelope → Bool
validate_plugin t = not (t.plugin_can_complete && is_missing t.plugin_name)
