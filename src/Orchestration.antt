-- ===== src/Orchestration.antt =====
-- Task orchestration (src/soloscale/models.py, state_machine.py, router.py, orchestration.py,
-- event_store.py, handoff.py): the contracts, the task state machine, routing, the append-only run
-- log, and the service that records validated transitions in it.
pub mod Models
pub mod StateMachine
pub mod Router
pub mod EventStore
pub mod Handoff
pub mod Service
mod Tests
