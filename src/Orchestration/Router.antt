-- ===== src/Orchestration/Router.antt =====
-- router.py: the smallest set of surfaces that can complete a task, and the human gate. The
-- rationale sentences are kept as the source writes them.
pub mod Surfaces
use soloscale_ai_os.Prelude.{
  ℕ, Bool, true, false, ◌||◌, ◌&&◌, Option, none, some, List, [], ◌∷◌, ◌++◌, any, ◌==◌, or_else,
  if◌then◌else◌,
}
use soloscale_ai_os.Prelude.Text.{Text, codes}
use soloscale_ai_os.Orchestration.Models.{
  Surface, surface_place, RiskLevel, TaskEnvelope, RouteDecision,
}

abbrev pub surface_eq : Surface → Surface → Bool
surface_eq a b = surface_place a == surface_place b

-- `list(dict.fromkeys(values))`: the first place of each member
abbrev pub dedupe_from : List Surface → List Surface → List Surface
dedupe_from seen [] = []
dedupe_from seen (x ∷ xs) =
    let kept = x ∷ dedupe_from (x ∷ seen) xs in
    let dropped = dedupe_from seen xs in if any (surface_eq x) seen then dropped else kept

-- the sentences of the rationale
pub realtime_sentence : Text
realtime_sentence =
    codes "The task requires realtime, scheduled, repeated, or unattended execution."

pub local_sentence : Text
local_sentence =
    codes "The task depends on local repository state, filesystem access, terminal commands, "
    ++ codes "tests, builds, or uncommitted changes."

pub plugin_sentence : Option Text → Text
plugin_sentence name =
    codes "The connected "
    ++ or_else name (codes "None")
    ++ codes " plugin can perform the required online action."

pub chat_sentence : Text
chat_sentence =
    codes "The task is primarily research, reasoning, planning, review, or communication and "
    ++ codes "does not require local execution."

pub gate_sentence : Text
gate_sentence =
    codes "Risk, public visibility, cost, or irreversibility requires an explicit human gate."

abbrev is_elevated : RiskLevel → Bool
is_elevated RiskLevel.high = true
is_elevated RiskLevel.critical = true
is_elevated _ = false

-- the condition of the human gate
unfoldable pub gate : TaskEnvelope → Bool
gate task =
    task.high_risk_action || task.irreversible_action || task.public_action || is_elevated task.risk

-- the `if`/`elif` ladder: the primary surface, the secondary ones and why
abbrev choose : TaskEnvelope → Surface × List Surface × List Text
choose task =
    if task.requires_realtime || task.requires_scheduled_execution
    then (
      Surface.runtime,
      (if task.requires_local_files || task.requires_terminal then Surface.codex ∷ [] else []),
      realtime_sentence ∷ [],
    )
    else if task.requires_local_files || task.requires_terminal
    then (Surface.codex, Surface.chat ∷ [], local_sentence ∷ [])
    else if task.plugin_can_complete
    then (Surface.plugin, Surface.chat ∷ [], plugin_sentence task.plugin_name ∷ [])
    else (Surface.chat, [], chat_sentence ∷ [])

unfoldable pub route_task : TaskEnvelope → RouteDecision
unfolding gate
route_task task =
    let (primary, secondary, rationale) = choose task in
    record {
      primary = primary;
      secondary = dedupe_from [] (if gate task then secondary ++ Surface.human ∷ [] else secondary);
      rationale = (if gate task then rationale ++ gate_sentence ∷ [] else rationale);
      human_gate_required = gate task;
    }
