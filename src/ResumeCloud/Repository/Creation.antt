-- ===== src/ResumeCloud/Repository/Creation.antt =====
-- `create_or_replay` of resume_cloud_repository.py, and the transaction around it.
use soloscale_ai_os.Prelude.{
  ℕ, ◌+◌, ◌*◌, Bool, true, false, not, ◌||◌, Option, none, some, [], ◌∷◌, ◌++◌, any, filter_by,
  String, str_eq, Result, ok, err, if◌then◌else◌,
}
use soloscale_ai_os.ResumeCloud.Models.{TaskState, TaskMode, Bytes, Task, Database}
use soloscale_ai_os.ResumeCloud.Table.{first}
use soloscale_ai_os.ResumeCloud.RateLimit.{RatePolicy, consume_rate_limit}
use soloscale_ai_os.ResumeCloud.Repository.Statements.{hour, has_id}

pub data RepositoryError : Type 0 where
  rate_limit_exceeded : ℕ → RepositoryError
  idempotency_conflict duplicate_id : RepositoryError

-- `with self._connect() as conn`: an exception rolls the transaction back.
abbrev pub transaction {ℓ} :
    {A : Type ℓ}
    → (Database → Result RepositoryError A × Database)
    → Database
    → Result RepositoryError A × Database
transaction body db =
    let (result, after) = body db in elim result [ ok a ↦ (ok a, after) | err e ↦ (err e, db) ]

-- The arguments of `create_or_replay`, with the id that it draws.
pub record NewTask : Type 0 where
  pub task_id : ℕ
  pub idempotency_key : String
  pub payload_hash : String
  pub resume_docx : Bytes
  pub job_description : String
  pub mode : TaskMode
  pub approved : Bool
  pub raw_resume_sha256 : String
  pub job_description_sha256 : String
  pub input_ttl_hours : ℕ
  pub client_id : String
  pub policy : RatePolicy
  pub rate_limit_now : ℕ
  pub traceparent : Option String

-- the row of the INSERT, the other columns at their defaults; `clock` is the application's
abbrev pub inserted : (String → String) → ℕ → ℕ → NewTask → Task
inserted sha256_text now clock new = record {
  id = new.task_id;
  idempotency_key = new.idempotency_key;
  payload_sha256 = new.payload_hash;
  state = TaskState.prepared;
  mode = new.mode;
  approve_external_model_call = new.approved;
  resume_docx = some new.resume_docx;
  job_description = some new.job_description;
  input_expires_at = clock + new.input_ttl_hours * hour;
  output_docx = none;
  output_sha256 = none;
  output_expires_at = none;
  attempt_count = 0;
  model_call_attempted = false;
  worker_token = none;
  lease_expires_at = none;
  started_at = none;
  completed_at = none;
  failure_code = none;
  created_at = now;
  updated_at = now;
  client_key = some (sha256_text new.client_id);
  raw_resume_sha256 = some new.raw_resume_sha256;
  job_description_sha256 = some new.job_description_sha256;
  traceparent = new.traceparent;
  queued_at = none;
}

abbrev pub has_key : String → Task → Bool
has_key key t = str_eq t.idempotency_key key

-- a replay must carry the payload of the stored task, and come from its client
abbrev pub is_conflict : (String → String) → NewTask → Task → Bool
is_conflict sha256_text new t =
    not (str_eq t.payload_sha256 new.payload_hash)
    || elim t.client_key [ none ↦ false | some k ↦ not (str_eq k (sha256_text new.client_id)) ]

-- the INSERT … DO NOTHING RETURNING and what follows it; the flag says that the task is replayed
abbrev create_body :
    (String → String) → ℕ → ℕ → NewTask → Database → Result RepositoryError (Task × Bool) × Database
create_body sha256_text now clock new db =
    let row = inserted sha256_text now clock new in
    let ((allowed, retry_after), limits) =
      consume_rate_limit new.policy new.rate_limit_now new.client_id db.rate_limits in
    elim (first (filter_by (has_key new.idempotency_key) db.tasks)) [
      | some existing ↦ (
        (if is_conflict sha256_text new existing
            then err idempotency_conflict
            else ok (existing, true)),
        db,
      )
      | none ↦ if any (has_id new.task_id) db.tasks then (err duplicate_id, db) else (
        (if allowed then ok (row, false) else err (rate_limit_exceeded retry_after)),
        record db { tasks = db.tasks ++ row ∷ []; rate_limits = limits },
      )
    ]

unfoldable pub create_or_replay :
    (String → String) → ℕ → ℕ → NewTask → Database → Result RepositoryError (Task × Bool) × Database
create_or_replay sha256_text now clock new = transaction (create_body sha256_text now clock new)
