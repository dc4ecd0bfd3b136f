-- ===== src/Lib.antt =====
-- soloscale (the repository's Python package src/soloscale) routes an owner's tasks to the
-- surfaces that can do them, records how they move along in an append-only log, hands tasks over
-- as packets, runs a worker service that rewrites résumés, keeps the costs of paid operations
-- inside a budget, records how its owner practises a solved case until it can be defended in an
-- interview, and routes requests to the Skills of a registry. This library models these parts and
-- proves what they promise.
--
--   Prelude                 Boolean tests, lists, results and text that the parts share
--   Orchestration           models.py, state_machine.py, router.py, event_store.py, orchestration.py,
--                           handoff.py
--   ResumeCloud             resume_cloud_models.py, resume_cloud_cache.py, resume_cloud_repository.py,
--                           resume_cloud_service.py
--   Casebook                casebook_models.py, casebook_store.py
--   MediaCost               media_cost.py, and the provider names of model_gateway.py
--   SkillOs                 skill_models.py, skill_os.py
--
-- Orchestration. Orchestration/Models holds TaskEnvelope, RouteDecision and RunEvent with their
-- validators. Orchestration/StateMachine is the table of allowed transitions and
-- validate_transition, Orchestration/Router is route_task. Orchestration/EventStore is
-- JsonlEventStore on the contents of its file; writing and parsing an event as JSON are
-- arguments, with the laws that Orchestration/EventStore/Replay names. Orchestration/Service is
-- OrchestrationService.transition over an interface of event logs, EventLog, which
-- Orchestration/Service/FileLog fills with the store of event_store.py. The service and the store
-- meet in the replayed events alone. Orchestration/Handoff is handoff.py, packet_from_task and
-- render_packet_markdown, and Orchestration/Handoff/Reading reads the Markdown of a packet back.
--
-- ResumeCloud. ResumeCloud/Models holds the rows of the tables that migrations/resume_cloud
-- creates. ResumeCloud/Table is what an UPDATE, a RETURNING, an ORDER BY and a LIMIT do to a list
-- of rows. ResumeCloud/Repository is resume_cloud_repository.py: one function for each method of
-- ResumeCloudRepository, from the database before its transaction to the result and the database
-- after it, and ready on the rows of its queries in ResumeCloud/Repository/Schema; the WHERE
-- conditions and SET lists of its statements are in ResumeCloud/Repository/Statements,
-- create_or_replay in ResumeCloud/Repository/Creation and recover_and_cleanup in
-- ResumeCloud/Repository/Sweeps. Transactions are taken one after another, since each is one
-- transaction in PostgreSQL and its statements lock the rows that they change; which rows another
-- transaction has locked when a worker looks for a candidate is an argument.
-- ResumeCloud/RateLimit is the token bucket, and ResumeCloud/Service is
-- ResumeCloudService.process_one with _cache_key: one run of a worker from its claim to its last
-- read, where the transactions that others make in between, the instants, and the two generation
-- pipelines are arguments, and where the calls of a model are counted.
--
-- MediaCost. MediaCost/Models holds the enums and models of media_cost.py with their validators,
-- MediaCost/Pricing the catalog, MediaCost/Estimates the estimates, MediaCost/Budget
-- evaluate_budget with its loop over the five limits, MediaCost/Authorization
-- authorize_paid_operation and validate_paid_authorization, and MediaCost/Receipts receipts and
-- summaries. They interact in values alone: an estimate is priced from the catalog, the guard
-- evaluates it against policy and spend, and an authorization is granted on the evaluation. The
-- digests of subjects and estimates are arguments.
--
-- Casebook. Casebook/Models holds stages, attempts, receipts and the mastery snapshot with their
-- validators, Casebook/Mastery is derive_mastery, Casebook/Store is CasebookStore.record_attempt
-- and mastery on what the store keeps of one case, and Casebook/Integrity is verify_integrity.
-- What archiving a file comes to, which writes fail and what the file system says of a path are
-- arguments.
--
-- SkillOs. SkillOs/Models holds the contracts of skill_models.py with their validators.
-- SkillOs/Registry is SkillRegistry: get, and validate_graph with its depth-first search for
-- cycles; SkillOs/Registry/Load is load_skill_registry, which takes the parsed registry and the
-- files that stand beside it as arguments. SkillOs/Order is _dependency_order. Both searches go
-- on fuel, one more than the number of Skills, which is enough since a search never enters a name
-- twice (Registry/Ends). SkillOs/Request reads a request: _contains, _publication_channels, the
-- intents, and in Request/Envelope _normalize_request; what the compiled patterns find in a text,
-- str.casefold and SHA-256 are the record TextTools. SkillOs/Route is route_skill_request, with
-- the choice of Skills in Route/Intents and _choose_model_route in Route/ModelRoute.
-- SkillOs/Receipt is SkillRunReceipt with its validator and persist_route_receipt on the files it
-- writes; whether the private directory is refused, the state of the repository, the JSON of a
-- route and which writes fail are arguments.
--
-- Numbers. An instant is a number of microseconds, a lifetime of hours or seconds is scaled to
-- it. The bucket counts in units of 10⁻¹² token where the database counts in double precision, so
-- the model is exact where the database rounds. Money is counted in 10⁻¹⁸ USD, rates in 10⁻⁹ USD
-- and quantities in 10⁻⁹ units, exactly, where the source has decimals of 28 digits. A UUID is a
-- number, and SHA-256 is an argument. Outside SkillOs no definition runs on fuel: every loop is a
-- recursion over a list.
--
-- Not modelled: the pydantic checks of field types, and most lengths and patterns of fields
-- outside media_cost.py, exceptions of a generation pipeline other than ResumeTemplateError and
-- RuntimeError, where the registry is found and how a route is rendered as text, JSON itself,
-- PostgreSQL beyond its statements, HTTP handlers, metrics and traces, the generation pipelines,
-- the user interfaces, and the other modules of the package, which are input and output or text
-- generation for the most part.
pub mod Casebook
pub mod MediaCost
pub mod Orchestration
pub mod Prelude
pub mod ResumeCloud
pub mod SkillOs
