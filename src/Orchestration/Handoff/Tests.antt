-- ===== src/Orchestration/Handoff/Tests.antt =====
-- A task's packet, and what is read in it.
use soloscale_ai_os.Prelude.{◌≡◌, refl, true, false, none, some, [], ◌∷◌, map}
use soloscale_ai_os.Prelude.Text.{codes}
use soloscale_ai_os.Orchestration.Models.{TaskStatus, RiskLevel, TaskEnvelope}
use soloscale_ai_os.Orchestration.Handoff.{
  forbidden_changes, stop_conditions, expected_return_report, packet_from_task, items, value_or,
  head_lines, sections, render_packet_markdown,
}
use soloscale_ai_os.Orchestration.Handoff.Reading.{
  is_line, is_section_lines, is_single_lined, read_packet, read_packet-packet_from_task,
}

abbrev task : TaskEnvelope
task = record {
  id = "task-1";
  title = "Router";
  goal = "Route by capability";
  repository = none;
  requested_paths = "src/router.py" ∷ [];
  risk = RiskLevel.low;
  requires_local_files = true;
  requires_terminal = false;
  requires_realtime = false;
  requires_scheduled_execution = false;
  plugin_can_complete = false;
  plugin_name = none;
  high_risk_action = false;
  irreversible_action = false;
  public_action = false;
  constraints = "Keep the log append-only" ∷ "No network" ∷ [];
  frozen_decisions = [];
  required_changes = "Add a rule" ∷ [];
  acceptance_criteria = "Tests pass" ∷ [];
  tests_to_run = [];
  non_goals = [];
  branch = some "";
  status = TaskStatus.approved;
  created_at = 0;
}

single_lined : is_single_lined (packet_from_task task) ≡ true
unfolding is_single_lined packet_from_task head_lines sections is_line is_section_lines items
    value_or
single_lined = refl

read_packet-packet_from_task_example :
    read_packet (render_packet_markdown (packet_from_task task))
    ≡ some (record {
      task_id = codes "task-1";
      goal = codes "Route by capability";
      repository = codes "To be selected";
      branch = codes "Create a feature branch";
      sections =
          (codes "Constraints", map codes task.constraints)
          ∷ (codes "Frozen Decisions", [])
          ∷ (codes "Requested Paths", map codes task.requested_paths)
          ∷ (codes "Required Changes", map codes task.required_changes)
          ∷ (codes "Non-goals", [])
          ∷ (codes "Acceptance Criteria", map codes task.acceptance_criteria)
          ∷ (codes "Tests to Run", [])
          ∷ (codes "Forbidden Changes", map codes forbidden_changes)
          ∷ (codes "Stop Conditions", map codes stop_conditions)
          ∷ (codes "Expected Return Report", map codes expected_return_report)
          ∷ [];
    })
unfolding value_or
read_packet-packet_from_task_example = read_packet-packet_from_task task single_lined
