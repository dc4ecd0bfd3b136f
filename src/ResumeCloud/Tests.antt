-- ===== src/ResumeCloud/Tests.antt =====
-- Runs of the résumé service at concrete inputs, and the theorems applied there.
use soloscale_ai_os.Prelude.{
  All, ◌++◌, leb, ℕ, ◌+◌, ◌*◌, ◌≡◌, ◌≢◌, ◌≤◌, ◌<◌, refl, Bool, true, false, none, some, List, [],
  ◌∷◌, String, ok, err, arith,
}
use soloscale_ai_os.ResumeCloud.Models.{
  TaskState, TaskMode, Bytes, Task, ResultCacheKey, key_eq, CachedResult, RateLimit, Database,
  empty_database,
}
use soloscale_ai_os.ResumeCloud.RateLimit.{
  row_of, token, RatePolicy, available, spend, consume_rate_limit,
}
use soloscale_ai_os.ResumeCloud.RateLimit.Bound.{spend_all, allowed-spend_all}
use soloscale_ai_os.ResumeCloud.RateLimit.Retry.{held, consume-retry}
use soloscale_ai_os.ResumeCloud.Repository
use soloscale_ai_os.ResumeCloud.Repository.{
  NewTask, RepositoryError, rate_limit_exceeded, inserted, cached, store_result, candidate,
}
use soloscale_ai_os.ResumeCloud.Repository.Statements.{is_candidate, may_claim, set_claimed, fenced}
use soloscale_ai_os.ResumeCloud.Repository.RowSteps.{is_sound}
use soloscale_ai_os.ResumeCloud.Repository.TableSteps.{IsSoundTable, Continues}
use soloscale_ai_os.ResumeCloud.Repository.Life.{Op, apply_all, apply_all-Continues}
use soloscale_ai_os.ResumeCloud.Repository.Fence.{Holds, stale_worker}
use soloscale_ai_os.ResumeCloud.Repository.Claims.{claimed_once}
use soloscale_ai_os.ResumeCloud.Repository.Retries.{create-retry}
use soloscale_ai_os.ResumeCloud.Repository.Cache.{after_store, cached_lem, cached-store_result}
use soloscale_ai_os.ResumeCloud.Service.{
  Pipelines, Run, World, cache_key, try_cache, model_branch, execute, settle, process_claimed,
  process_one,
}
use soloscale_ai_os.ResumeCloud.Service.Once.{process_all, IsSoundWorld, process_all-IsSoundWorld}

abbrev one_token : RatePolicy
one_token = record { capacity = 1; refill_per_second = 500000 }

abbrev full : RateLimit
full = record { client_id = "client"; tokens = token; updated_at = 0; last_allowed = false }

-- Three calls at once and one two seconds later: the first and the last are allowed.
two_allowed : (spend_all one_token full (0 ∷ 0 ∷ 0 ∷ 2000000 ∷ [])).1 ≡ 2
unfolding spend_all spend available
two_allowed = refl

allowed-spend_all_example :
    let (last, count) = spend_all one_token full (0 ∷ 0 ∷ 0 ∷ 2000000 ∷ []) in
    count * token + full.updated_at * one_token.refill_per_second
    ≤ one_token.capacity * token + last.updated_at * one_token.refill_per_second
allowed-spend_all_example =
    allowed-spend_all one_token full (0 ∷ 0 ∷ 0 ∷ 2000000 ∷ []) (omega arith)

abbrev spent_bucket : ℕ → ℕ → RateLimit
spent_bucket tokens updated_at = record {
  client_id = "client";
  tokens = tokens;
  updated_at = updated_at;
  last_allowed = false;
}

-- Five microseconds have refilled 2500000 units, and the rest takes 1999995 microseconds.
refused_call :
    consume_rate_limit one_token 5 "client" (spent_bucket 0 0 ∷ [])
    ≡ ((false, 1999995), spent_bucket 2500000 5 ∷ [])
unfolding consume_rate_limit spend available
refused_call = refl

consume-retry_example :
    let ((allowed, wait), after) =
      consume_rate_limit one_token 5 "client" (spent_bucket 0 0 ∷ []) in
    (allowed ≡ leb token (held one_token 5 (some (spent_bucket 0 0))))
    × (held one_token 5 (some (spent_bucket 0 0)) < token
        → (5 + wait < 2000001 → (consume_rate_limit one_token 2000001 "client" after).0.0 ≡ true)
          × (5 ≤ 2000001
              → 2000001 < 5 + wait
              → (consume_rate_limit one_token 2000001 "client" after).0.0 ≡ false))
consume-retry_example =
    consume-retry one_token 5 2000001 "client" (spent_bucket 0 0 ∷ []) (omega arith) (omega arith)
      (omega arith, tt)

abbrev new_task : ℕ → String → NewTask
new_task id key = record {
  task_id = id;
  idempotency_key = key;
  payload_hash = "payload";
  resume_docx = 80 ∷ 75 ∷ [];
  job_description = "a job";
  mode = TaskMode.template;
  approved = false;
  raw_resume_sha256 = "resume";
  job_description_sha256 = "job";
  input_ttl_hours = 24;
  client_id = "client";
  policy = one_token;
  rate_limit_now = 10;
  traceparent = none;
}

abbrev digest_text : String → String
digest_text s = s

abbrev digest : Bytes → String
digest b = "digest"

abbrev queued_row : ℕ → String → Task
queued_row id key = record (inserted digest_text 10 10 (new_task id key)) {
  state = TaskState.queued;
}

abbrev two_queued : Database
two_queued = record empty_database { tasks = queued_row 1 "a" ∷ queued_row 2 "b" ∷ [] }

two_queued-IsSoundTable : IsSoundTable two_queued.tasks
unfolding is_sound
two_queued-IsSoundTable = record { rows = (refl, (refl, tt)); ids = (refl, (refl, tt)) }

abbrev nobody : ℕ → Bool
nobody id = false

abbrev claimed_row : ℕ → String → ℕ → Task
unfolding set_claimed
claimed_row id key now = set_claimed now 7 60 (queued_row id key)

abbrev after_claim : Database
after_claim = record empty_database { tasks = claimed_row 1 "a" 20 ∷ queued_row 2 "b" ∷ [] }

abbrev after_both : Database
after_both = record empty_database { tasks = claimed_row 1 "a" 20 ∷ claimed_row 2 "b" 30 ∷ [] }

first_claim :
    Repository.claim 20 7 nobody 60 two_queued ≡ (some (claimed_row 1 "a" 20), after_claim)
unfolding Repository.claim candidate is_candidate may_claim set_claimed
first_claim = refl

second_claim :
    Repository.claim 30 7 nobody 60 (apply_all digest digest_text [] after_claim)
    ≡ (some (claimed_row 2 "b" 30), after_both)
unfolding Repository.claim candidate is_candidate may_claim set_claimed apply_all
second_claim = refl

claimed_once_example : (claimed_row 2 "b" 30).id ≢ (claimed_row 1 "a" 20).id
claimed_once_example =
    claimed_once digest digest_text 20 7 60 nobody 30 7 60 nobody two_queued after_claim after_both
      (claimed_row 1 "a" 20) (claimed_row 2 "b" 30) [] two_queued-IsSoundTable first_claim
      second_claim

abbrev some_ops : List Op
some_ops =
    Op.claim 20 7 nobody 60
    ∷ Op.mark_model_call 21 1 7
    ∷ Op.complete 22 1 7 (1 ∷ []) 24 none
    ∷ Op.recover_and_cleanup 999999999999
    ∷ []

apply_all-Continues_example :
    Continues two_queued.tasks (apply_all digest digest_text some_ops two_queued).tasks
apply_all-Continues_example =
    apply_all-Continues digest digest_text some_ops two_queued two_queued-IsSoundTable

not_held : All (λ t. ¬ Holds 20 1 8 t) after_claim.tasks
unfolding set_claimed
not_held = (λ h. ground (arith, h.same_token), (λ h. ground (arith, h.same_token), tt))

abbrev key : ResultCacheKey
key = record {
  client_key = "client";
  raw_resume_sha256 = "resume";
  job_description_sha256 = "job";
  mode = "template";
  provider = "p";
  model = "m";
  base_url_sha256 = "u";
  pipeline_sha256 = "v1";
}

abbrev other_key : ResultCacheKey
other_key = record key { client_key = "someone" }

abbrev result_at : ℕ → CachedResult
result_at expires = record {
  key = key;
  output_docx = 1 ∷ [];
  output_sha256 = "digest";
  output_expires_at = expires;
}

stale_worker_example :
    (Repository.complete digest 20 1 8 (1 ∷ []) 24 (some key) after_claim ≡ (false, after_claim))
    × (Repository.complete_from_cache 20 1 8 key after_claim ≡ (false, after_claim))
    × (Repository.fail 20 1 8 "PIPELINE" after_claim ≡ (false, after_claim))
    × (Repository.mark_model_call 20 1 8 after_claim ≡ (false, after_claim))
    × (Repository.renew_lease 20 1 8 60 after_claim ≡ (false, after_claim))
stale_worker_example =
    stale_worker digest 20 1 8 (1 ∷ []) 24 60 key (some key) "PIPELINE" after_claim not_held

abbrev created_row : Task
created_row = inserted digest_text 10 10 (new_task 1 "a")

abbrev after_create : Database
after_create = record {
  tasks = created_row ∷ [];
  rate_limits =
      record { client_id = "client"; tokens = 0; updated_at = 10; last_allowed = true } ∷ [];
  result_cache = [];
}

over_the_limit :
    Repository.create_or_replay digest_text 11 11 (new_task 2 "b") after_create
    ≡ (err (rate_limit_exceeded 2000000), after_create)
unfolding Repository.create_or_replay consume_rate_limit spend available
over_the_limit = refl

create-retry_example :
    let new = new_task 2 "b" in
    let balance = held new.policy 10 (row_of "client" after_create.rate_limits) in
    let request = Repository.create_or_replay digest_text 11 11 new after_create in
    let again =
      Repository.create_or_replay digest_text 90 90
        (record new { rate_limit_now = 3000000 })
        after_create in
    (token ≤ balance
      → (request.0 ≡ ok (inserted digest_text 11 11 new, false))
        × (request.1.tasks ≡ after_create.tasks ++ inserted digest_text 11 11 new ∷ []))
    × (balance < token
        → (wait : ℕ) × (request ≡ (err (rate_limit_exceeded wait), after_create))
          × (10 + wait < 3000000
              → (again.0 ≡ ok (inserted digest_text 90 90 new, false))
                × (again.1.tasks ≡ after_create.tasks ++ inserted digest_text 90 90 new ∷ []))
          × (10 ≤ 3000000
              → 3000000 < 10 + wait
              → (left : ℕ) × (again ≡ (err (rate_limit_exceeded left), after_create))))
create-retry_example =
    create-retry digest_text 11 11 90 90 3000000 (new_task 2 "b") after_create (omega arith)
      (omega arith) (omega arith, tt) refl refl

hit : cached 40 key (result_at 50 ∷ []) ≡ some (result_at 50)
unfolding cached key_eq
hit = refl

cached_lem_example : ((result_at 50).key ≡ key) × (40 < (result_at 50).output_expires_at)
cached_lem_example = cached_lem 40 key (result_at 50 ∷ []) (result_at 50) hit

cached-store_result_example :
    cached 40 key (store_result 40 (result_at 60) (result_at 30 ∷ []))
    ≡ after_store 40 (result_at 60) (cached 40 key (result_at 30 ∷ []))
cached-store_result_example = cached-store_result 40 (result_at 60) (result_at 30 ∷ []) (refl, tt)

abbrev lib : Pipelines
lib = record {
  sha256 = digest;
  sha256_text = digest_text;
  fingerprint = "v1";
  tailor_resume_docx = λ docx job. some docx;
  tailor_resume_docx_with_gateway = λ g docx job. some docx;
}

abbrev worker_run : Run
worker_run = record {
  slot_free = true;
  gateway = some (record { provider = "deepseek"; model = some "chat"; base_url = none });
  configured_gateway = none;
  lease_seconds = 60;
  output_ttl_hours = 24;
  token = 7;
  locked = nobody;
  heartbeat_lost = false;
  claim_at = 20;
  before_cache = [];
  cache_at = 21;
  before_mark = [];
  mark_at = 22;
  before_end = [];
  end_at = 23;
  before_get = [];
  get_at = 24;
}

abbrev ai_row : Task
ai_row = record (queued_row 1 "a") { mode = TaskMode.ai; approve_external_model_call = true }

abbrev one_ai_task : World
one_ai_task = record { database = record empty_database { tasks = ai_row ∷ [] }; model_calls = [] }

called_once : (process_one lib worker_run one_ai_task).1.model_calls ≡ 1 ∷ []
unfolding process_one process_claimed execute model_branch cache_key try_cache settle
    Repository.claim candidate is_candidate may_claim set_claimed Repository.complete_from_cache
    cached fenced Repository.mark_model_call Repository.fenced_update apply_all
called_once = refl

one_ai_task-IsSoundWorld : IsSoundWorld one_ai_task
unfolding is_sound
one_ai_task-IsSoundWorld = record {
  table = record { rows = (refl, tt); ids = (refl, tt) };
  started = tt;
  distinct = refl;
}

abbrev two_runs : List (List Op × Run)
two_runs = ([], worker_run) ∷ (Op.recover_and_cleanup 50 ∷ [], worker_run) ∷ []

process_all-IsSoundWorld_example : IsSoundWorld (process_all lib two_runs one_ai_task)
process_all-IsSoundWorld_example =
    process_all-IsSoundWorld lib two_runs one_ai_task one_ai_task-IsSoundWorld
