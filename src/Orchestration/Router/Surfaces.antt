-- ===== src/Orchestration/Router/Surfaces.antt =====
-- The surfaces that a route names.
use soloscale_ai_os.Prelude.{◌≡◌, Bool, false, not, ◌&&◌, ◌||◌, any, arith, List}
use soloscale_ai_os.Orchestration.Models.{Surface, TaskEnvelope}
use soloscale_ai_os.Orchestration.Router.{surface_eq, gate, route_task}

abbrev pub names : Surface → List Surface → Bool
names s = any (surface_eq s)

-- A person is named exactly when the gate is required, and the gate is required exactly when the
-- task is risky, irreversible or public.
pub human-route_task :
    (task : TaskEnvelope)
    → ((route_task task).human_gate_required ≡ gate task)
      × (names Surface.human (route_task task).secondary ≡ gate task)
unfolding route_task
human-route_task task = ground arith

-- Whatever the flags, unattended work goes to the runtime, local work that is not unattended goes
-- to Codex, and the runtime is given Codex exactly where it needs local access.
pub capable-route_task :
    (task : TaskEnvelope)
    → let unattended = task.requires_realtime || task.requires_scheduled_execution in
      let local = task.requires_local_files || task.requires_terminal in
      let route = route_task task in
      (surface_eq route.primary Surface.runtime ≡ unattended)
      × (surface_eq route.primary Surface.codex ≡ not unattended && local)
      × (surface_eq route.primary Surface.plugin
          ≡ not unattended && not local && task.plugin_can_complete)
      × (names Surface.codex route.secondary ≡ unattended && local)
      × (names route.primary route.secondary ≡ false)
unfolding route_task
capable-route_task task = ground arith
