-- ===== src/ResumeCloud/Repository.antt =====
-- resume_cloud_repository.py: each method is one transaction at an instant `now`, the value of SQL's
-- now(). UUIDs that a method draws, the application's own clock and the rows that other transactions
-- have locked are arguments, and so are the two SHA-256 functions.
pub mod Statements
pub mod Creation
pub mod Sweeps
pub mod Rows
pub mod RowSteps
pub mod TableSteps
pub mod Candidates
pub mod Life
pub mod Fence
pub mod Claims
pub mod Replays
pub mod Retries
pub mod Cache
pub mod Schema
unfoldable pub use Creation.*
unfoldable pub use Sweeps.*
use soloscale_ai_os.Prelude.{
  ℕ, ◌+◌, ◌*◌, min, Bool, true, false, not, ◌&&◌, ◌||◌, Option, none, some, List, [], ◌∷◌, ◌++◌,
  map, any, filter_by, length, or_else, is_some, ◌==◌, ltb, leb, String, str_eq, Result, ok, err,
  if◌then◌else◌,
}
use soloscale_ai_os.ResumeCloud.Models.{
  TaskState, TaskMode, Bytes, Task, ResultCacheKey, key_eq, CachedResult, Database,
}
use soloscale_ai_os.ResumeCloud.Table.{update_where, returning, first, order_by, take}
use soloscale_ai_os.ResumeCloud.RateLimit.{RatePolicy, consume_rate_limit}
use soloscale_ai_os.ResumeCloud.Repository.Statements.{
  hour, has_id, fenced, may_queue, set_queued, is_candidate, may_claim, set_claimed, set_succeeded,
  set_failed, set_model_call, set_lease, lease_lapsed, set_needs_review, input_lapsed,
  output_lapsed, erase_output,
}

-- `_expire_one`
unfoldable pub expire_one : ℕ → ℕ → List Task → List Task
expire_one now id tasks =
    update_where (λ t. has_id id t && output_lapsed now t) (erase_output now)
      (update_where (λ t. has_id id t && input_lapsed now t) (set_failed now "INPUT_EXPIRED") tasks)

unfoldable pub get : ℕ → ℕ → Database → Option Task × Database
unfolding expire_one
get now id db =
    let tasks = expire_one now id db.tasks in
    (first (filter_by (has_id id) tasks), record db { tasks = tasks })

-- The `get` that follows a refused UPDATE runs at an instant of its own.
unfoldable pub queue : ℕ → ℕ → ℕ → Database → Option Task × Database
queue now later id db = elim (first (returning (may_queue now id) (set_queued now) db.tasks)) [
  | some row ↦
      (some row, record db { tasks = update_where (may_queue now id) (set_queued now) db.tasks })
  | none ↦ get later id db
]

-- `candidate`: the oldest claimable row that no other transaction has locked
unfoldable pub candidate : ℕ → (ℕ → Bool) → List Task → Option Task
candidate now locked tasks =
    first (
      order_by (λ t. t.created_at) (filter_by (λ t. is_candidate now t && not (locked t.id)) tasks))

unfoldable pub claim : ℕ → ℕ → (ℕ → Bool) → ℕ → Database → Option Task × Database
claim now token locked lease_seconds db = elim (candidate now locked db.tasks) [
  | none ↦ (none, db)
  | some c ↦
      let may = may_claim c.id in
      let set = set_claimed now token lease_seconds in
      (first (returning may set db.tasks), record db { tasks = update_where may set db.tasks })
]

-- the INSERT … ON CONFLICT DO UPDATE … WHERE of the result cache
unfoldable pub store_result : ℕ → CachedResult → List CachedResult → List CachedResult
store_result now new cache =
    if any (λ c. key_eq c.key new.key) cache
    then update_where (λ c. key_eq c.key new.key && leb c.output_expires_at now) (λ _. new) cache
    else cache ++ new ∷ []

abbrev cache_output :
    ℕ → Option ResultCacheKey → Bytes → String → Option ℕ → List CachedResult → List CachedResult
cache_output now (some key) output digest (some expires) cache =
    store_result now
      (record {
        key = key;
        output_docx = output;
        output_sha256 = digest;
        output_expires_at = expires;
      })
      cache
cache_output now key output digest expires cache = cache

-- the SET of `complete`: the output expires with its own lifetime, or with the input if that is earlier
unfoldable pub set_completed : ℕ → Bytes → String → ℕ → Task → Task
unfolding set_succeeded
set_completed now output digest output_ttl_hours t =
    set_succeeded now output digest (min t.input_expires_at (now + output_ttl_hours * hour)) t

unfoldable pub complete :
    (Bytes → String) → ℕ → ℕ → ℕ → Bytes → ℕ → Option ResultCacheKey → Database → Bool × Database
complete sha256 now id token output output_ttl_hours key db =
    let digest = sha256 output in
    let set = set_completed now output digest output_ttl_hours in
    elim (first (returning (fenced now id token) set db.tasks)) [
      | none ↦ (false, db)
      | some row ↦ (
        true,
        record db {
          tasks = update_where (fenced now id token) set db.tasks;
          result_cache = cache_output now key output digest row.output_expires_at db.result_cache;
        },
      )
    ]

-- `cached`: the row of the key, unless it has expired
unfoldable pub cached : ℕ → ResultCacheKey → List CachedResult → Option CachedResult
cached now key cache =
    first (filter_by (λ c. key_eq c.key key && ltb now c.output_expires_at) cache)

unfoldable pub complete_from_cache : ℕ → ℕ → ℕ → ResultCacheKey → Database → Bool × Database
complete_from_cache now id token key db = elim (cached now key db.result_cache) [
  | none ↦ (false, db)
  | some c ↦ (
    any (fenced now id token) db.tasks,
    record db {
      tasks =
          update_where (fenced now id token)
            (set_succeeded now c.output_docx c.output_sha256 c.output_expires_at) db.tasks;
    },
  )
]

-- `fail`, `mark_model_call` and `renew_lease`: one fenced UPDATE, and whether it met a row
unfoldable pub fenced_update : ℕ → ℕ → ℕ → (Task → Task) → Database → Bool × Database
fenced_update now id token set db = (
  any (fenced now id token) db.tasks,
  record db { tasks = update_where (fenced now id token) set db.tasks },
)

unfoldable pub fail : ℕ → ℕ → ℕ → String → Database → Bool × Database
unfolding fenced_update
fail now id token code = fenced_update now id token (set_failed now code)

unfoldable pub mark_model_call : ℕ → ℕ → ℕ → Database → Bool × Database
unfolding fenced_update
mark_model_call now id token = fenced_update now id token (set_model_call now)

unfoldable pub renew_lease : ℕ → ℕ → ℕ → ℕ → Database → Bool × Database
unfolding fenced_update
renew_lease now id token lease_seconds = fenced_update now id token (set_lease now lease_seconds)
