-- ===== src/ResumeCloud/Service.antt =====
-- resume_cloud_service.py: `_cache_key` and `process_one`, with `gateway_cache_identity` of
-- resume_cloud_cache.py. The two pipelines, the pipeline's fingerprint and the digests are arguments. Other
-- workers, the heartbeat and the API act between the steps of a worker: a run says which transactions
-- came before each of its own, and at which instants those ran.
pub mod Calls
pub mod Effects
pub mod Once
use soloscale_ai_os.Prelude.{
  ℕ, Bool, true, false, not, ◌||◌, Option, none, some, List, [], ◌∷◌, ◌++◌, or_else, String,
  if◌then◌else◌,
}
use soloscale_ai_os.ResumeCloud.Models.{TaskMode, mode_value, Bytes, Task, ResultCacheKey, Database}
use soloscale_ai_os.ResumeCloud.Repository
use soloscale_ai_os.ResumeCloud.Repository.Life.{Op, apply_all}

-- what the cache key reads of a gateway's descriptor
pub record Gateway : Type 0 where
  pub provider : String
  pub model : Option String
  pub base_url : Option String

-- The code that a worker runs and does not own: `none` is a ResumeTemplateError or a RuntimeError.
pub record Pipelines : Type 0 where
  pub sha256 : Bytes → String
  pub sha256_text : String → String
  pub fingerprint : String
  pub tailor_resume_docx : Bytes → String → Option Bytes
  pub tailor_resume_docx_with_gateway : Gateway → Bytes → String → Option Bytes

-- One call of `process_one`: whether a model slot is free, the gateways, the settings, the drawn token, the
-- rows that are locked at the claim, whether the heartbeat loses the lease, and for each transaction
-- its instant and what others have done before it.
pub record Run : Type 0 where
  pub slot_free : Bool
  pub gateway : Option Gateway
  pub configured_gateway : Option Gateway
  pub lease_seconds : ℕ
  pub output_ttl_hours : ℕ
  pub token : ℕ
  pub locked : ℕ → Bool
  pub heartbeat_lost : Bool
  pub claim_at : ℕ
  pub before_cache : List Op
  pub cache_at : ℕ
  pub before_mark : List Op
  pub mark_at : ℕ
  pub before_end : List Op
  pub end_at : ℕ
  pub before_get : List Op
  pub get_at : ℕ

-- the database, and the ids of the tasks for which a model was called, the last one first
pub record World : Type 0 where
  pub database : Database
  pub model_calls : List ℕ

-- How the `try` block ends: by a cached result, by an exception that is caught, or with an output.
pub data Ending : Type 0 where
  cache_hit rejected : Ending
  produced : Bytes → Option ResultCacheKey → Ending

-- What `process_one` comes to; the `assert` may fail.
pub data Processed : Type 0 where
  returned : Option Task → Processed
  assertion_failed : Processed

-- `gateway or self.configured_gateway()`
abbrev pub selected_gateway : Run → Option Gateway
selected_gateway run = elim run.gateway [ some g ↦ some g | none ↦ run.configured_gateway ]

module _ (lib : Pipelines) where
  abbrev pub gateway_cache_identity : Option Gateway → String × String × String
  gateway_cache_identity none = ("template", "", lib.sha256_text "")
  gateway_cache_identity (some g) =
      (g.provider, or_else g.model "", lib.sha256_text (or_else g.base_url ""))

  abbrev key_of : Task → Option Gateway → String → String → String → ResultCacheKey
  key_of task gateway client_key raw job =
      let (provider, model, base_url_sha256) = gateway_cache_identity gateway in
      record {
        client_key = client_key;
        raw_resume_sha256 = raw;
        job_description_sha256 = job;
        mode = mode_value task.mode;
        provider = provider;
        model = model;
        base_url_sha256 = base_url_sha256;
        pipeline_sha256 = lib.fingerprint;
      }

  abbrev complete_key :
      Task → Option Gateway → Option String → Option String → Option String → Option ResultCacheKey
  complete_key task gateway (some client_key) (some raw) (some job) =
      some (key_of task gateway client_key raw job)
  complete_key task gateway client_key raw job = none

  -- `_cache_key`
  unfoldable pub cache_key : Task → Option Gateway → Option ResultCacheKey
  cache_key task gateway =
      complete_key task gateway task.client_key task.raw_resume_sha256 task.job_description_sha256

  abbrev others : List Op → Database → Database
  others = apply_all lib.sha256 lib.sha256_text

  -- the lookup of the result cache, where there is a key
  unfoldable pub try_cache : Run → Task → Option ResultCacheKey → Database → Bool × Database
  try_cache run task none db = (false, db)
  try_cache run task (some key) db =
      Repository.complete_from_cache run.cache_at task.id run.token key (others run.before_cache db)

  abbrev pub ending_of : Option Bytes → Option ResultCacheKey → Ending
  ending_of none key = rejected
  ending_of (some output) key = produced output key

  unfoldable pub template_branch : Run → Task → Bytes → String → World → Ending × World
  unfolding cache_key try_cache
  template_branch run task docx job world =
      let key = cache_key task none in
      let (hit, db) = try_cache run task key world.database in
      (
        (if hit then cache_hit else ending_of (lib.tailor_resume_docx docx job) key),
        record world { database = db },
      )

  -- the model is called once the call is marked in the database
  unfoldable pub model_branch : Run → Task → Bytes → String → Gateway → World → Ending × World
  unfolding cache_key try_cache
  model_branch run task docx job gateway world =
      let key = cache_key task (some gateway) in
      let (hit, db) = try_cache run task key world.database in
      let (marked, marked_db) =
        Repository.mark_model_call run.mark_at task.id run.token (others run.before_mark db) in
      if hit
      then (cache_hit, record world { database = db })
      else if not marked
      then (rejected, record world { database = marked_db })
      else (
        (if run.heartbeat_lost
            then rejected
            else ending_of (lib.tailor_resume_docx_with_gateway gateway docx job) key),
        record { database = marked_db; model_calls = task.id ∷ world.model_calls },
      )

  abbrev pub with_gateway : Option Gateway → Run → Task → Bytes → String → World → Ending × World
  with_gateway none run task docx job world = (rejected, world)
  with_gateway (some g) run task docx job world = model_branch run task docx job g world

  -- the two modes; an AI task needs its owner's approval of the call
  abbrev pub in_mode : TaskMode → Bool → Run → Task → Bytes → String → World → Ending × World
  in_mode TaskMode.template approved run task docx job world =
      template_branch run task docx job world
  in_mode TaskMode.ai false run task docx job world = (rejected, world)
  in_mode TaskMode.ai true run task docx job world =
      with_gateway (selected_gateway run) run task docx job world

  -- the body of the `try` block after the claim
  unfoldable pub execute : Run → Task → Bytes → String → World → Ending × World
  execute run task docx job world =
      in_mode task.mode task.approve_external_model_call run task docx job world

  -- `complete` for an output, `fail` for an exception, nothing for a cached result
  unfoldable pub settle : Run → Task → Ending → Database → Database
  settle run task cache_hit db = db
  settle run task rejected db =
      (Repository.fail run.end_at task.id run.token "PROCESSING_REJECTED"
        (others run.before_end db)).1
  settle run task (produced output key) db =
      (Repository.complete lib.sha256 run.end_at task.id run.token output run.output_ttl_hours key
        (others run.before_end db)).1

  unfoldable pub process_claimed :
      Run → Task → Option Bytes → Option String → World → Processed × World
  unfolding execute settle
  process_claimed run task (some docx) (some job) world =
      let (ending, after) = execute run task docx job world in
      let (found, db) =
        Repository.get run.get_at task.id
          (others run.before_get (settle run task ending after.database)) in
      (returned found, record after { database = db })
  process_claimed run task docx job world = (assertion_failed, world)

  abbrev pub with_task : Option Task → Run → World → Processed × World
  with_task none run world = (returned none, world)
  with_task (some task) run world =
      process_claimed run task task.resume_docx task.job_description world

  unfoldable pub process_one : Run → World → Processed × World
  unfolding process_claimed
  process_one run world =
      let (claimed, db) =
        Repository.claim run.claim_at run.token run.locked run.lease_seconds world.database in
      if run.slot_free
      then with_task claimed run (record world { database = db })
      else (returned none, world)
