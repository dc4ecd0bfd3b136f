-- ===== src/Orchestration/Handoff.antt =====
-- handoff.py: the packet that hands a task to Codex, and its Markdown.
pub mod Reading
mod Tests
use soloscale_ai_os.Prelude.{Option, none, some, List, [], ◌∷◌, ◌++◌, String}
use soloscale_ai_os.Prelude.Text.{Text, codes}
use soloscale_ai_os.Orchestration.Models.{TaskEnvelope}

-- `SCHEMA_VERSION`, the only value that the field `schema_version` of a contract can have
abbrev pub schema_version : String
schema_version = "0.1"

pub record ExecutionPacket : Type 0 where
  pub task_id : String
  pub goal : String
  pub constraints : List String
  pub frozen_decisions : List String
  pub repository : Option String
  pub branch : Option String
  pub requested_paths : List String
  pub required_changes : List String
  pub non_goals : List String
  pub acceptance_criteria : List String
  pub tests_to_run : List String
  pub forbidden_changes : List String
  pub stop_conditions : List String
  pub expected_return_report : List String

abbrev pub forbidden_changes : List String
forbidden_changes =
    "Do not modify unrelated files."
    ∷ "Do not change public APIs, database schemas, authentication boundaries, dependencies, or deployment configuration unless explicitly approved."
    ∷ "Do not read or expose secrets."
    ∷ "Do not push, deploy, publish, or merge without human approval." ∷ []

abbrev pub stop_conditions : List String
stop_conditions =
    "The approved plan conflicts with the real repository."
    ∷ "A required change crosses a frozen product or architecture decision."
    ∷ "Tests require destructive data or production access."
    ∷ "A secret, credential, or permission change is required." ∷ []

abbrev pub expected_return_report : List String
expected_return_report =
    "Files changed and why" ∷ "Commands executed" ∷ "Test, lint, type-check, and build results"
    ∷ "Any deviation from the packet" ∷ "Remaining risks and follow-up work" ∷ []

unfoldable pub packet_from_task : TaskEnvelope → ExecutionPacket
packet_from_task task = record {
  task_id = task.id;
  goal = task.goal;
  constraints = task.constraints;
  frozen_decisions = task.frozen_decisions;
  repository = task.repository;
  branch = task.branch;
  requested_paths = task.requested_paths;
  required_changes = task.required_changes;
  non_goals = task.non_goals;
  acceptance_criteria = task.acceptance_criteria;
  tests_to_run = task.tests_to_run;
  forbidden_changes = forbidden_changes;
  stop_conditions = stop_conditions;
  expected_return_report = expected_return_report;
}

-- `"\n".join(lines)`
unfoldable pub join_newlines : List Text → Text
join_newlines [] = []
join_newlines (l ∷ []) = l
join_newlines (l ∷ m ∷ ls) = l ++ (codes "\n" ++ join_newlines (m ∷ ls))

-- `f"- {value}"` of each value
unfoldable pub items : List String → List Text
items [] = []
items (value ∷ values) = (codes "- " ++ codes value) ∷ items values

unfoldable pub section : String → List String → Text
section title [] = codes "## " ++ (codes title ++ codes "\n\n_None._\n")
section title (value ∷ values) =
    codes "## "
    ++ (codes title ++ (codes "\n\n" ++ (join_newlines (items (value ∷ values)) ++ codes "\n")))

-- `value or default`
unfoldable pub value_or : Option String → String → String
value_or none default_value = default_value
value_or (some String.[]) default_value = default_value
value_or (some (String.◌∷◌ c s)) default_value = String.◌∷◌ c s

unfoldable pub head_lines : ExecutionPacket → List Text
head_lines packet =
    (codes "# Codex Execution Packet — " ++ codes packet.task_id)
    ∷ []
    ∷ (codes "Schema version: `" ++ (codes schema_version ++ codes "`"))
    ∷ []
    ∷ codes "## Goal"
    ∷ []
    ∷ codes packet.goal
    ∷ []
    ∷ codes "## Repository / Branch"
    ∷ []
    ∷ (codes "- Repository: " ++ codes (value_or packet.repository "To be selected"))
    ∷ (codes "- Branch: " ++ codes (value_or packet.branch "Create a feature branch"))
    ∷ []
    ∷ []

-- the sections in the order in which they are added to the text
unfoldable pub sections : ExecutionPacket → List (String × List String)
sections packet =
    ("Constraints", packet.constraints)
    ∷ ("Frozen Decisions", packet.frozen_decisions)
    ∷ ("Requested Paths", packet.requested_paths)
    ∷ ("Required Changes", packet.required_changes)
    ∷ ("Non-goals", packet.non_goals)
    ∷ ("Acceptance Criteria", packet.acceptance_criteria)
    ∷ ("Tests to Run", packet.tests_to_run)
    ∷ ("Forbidden Changes", packet.forbidden_changes)
    ∷ ("Stop Conditions", packet.stop_conditions)
    ∷ ("Expected Return Report", packet.expected_return_report)
    ∷ []

unfoldable pub all_sections : List (String × List String) → Text
unfolding section
all_sections [] = []
all_sections ((title, values) ∷ rest) = section title values ++ all_sections rest

unfoldable pub render_packet_markdown : ExecutionPacket → Text
unfolding join_newlines head_lines sections value_or
render_packet_markdown packet =
    join_newlines (head_lines packet) ++ (codes "\n" ++ all_sections (sections packet))
