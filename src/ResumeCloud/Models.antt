-- ===== src/ResumeCloud/Models.antt =====
-- resume_cloud_models.py, resume_cloud_cache.py and the tables of migrations/resume_cloud: a row of
-- each table, and the database. A UUID is a number, an instant a number of microseconds, a document
-- the list of its bytes.
use soloscale_ai_os.Prelude.{ℕ, ◌≡◌, Bool, true, ◌&&◌, Option, List, ◌==◌, String, str_eq, arith}

pub data TaskState : Type 0 where
  prepared queued running succeeded failed needs_review : TaskState

pub data TaskMode : Type 0 where
  template ai : TaskMode

abbrev pub state_place : TaskState → ℕ
state_place TaskState.prepared = 0
state_place TaskState.queued = 1
state_place TaskState.running = 2
state_place TaskState.succeeded = 3
state_place TaskState.failed = 4
state_place TaskState.needs_review = 5

abbrev pub state_eq : TaskState → TaskState → Bool
state_eq a b = state_place a == state_place b

pub state_eq_sound : (a b : TaskState) → state_eq a b ≡ true → a ≡ b
state_eq_sound a b h = ground arith

abbrev pub mode_value : TaskMode → String
mode_value TaskMode.template = "template"
mode_value TaskMode.ai = "ai"

abbrev pub Bytes : Type 0
Bytes = List ℕ

-- a row of resume_cloud_tasks
pub record Task : Type 0 where
  pub id : ℕ
  pub idempotency_key : String
  pub payload_sha256 : String
  pub state : TaskState
  pub mode : TaskMode
  pub approve_external_model_call : Bool
  pub resume_docx : Option Bytes
  pub job_description : Option String
  pub input_expires_at : ℕ
  pub output_docx : Option Bytes
  pub output_sha256 : Option String
  pub output_expires_at : Option ℕ
  pub attempt_count : ℕ
  pub model_call_attempted : Bool
  pub worker_token : Option ℕ
  pub lease_expires_at : Option ℕ
  pub started_at : Option ℕ
  pub completed_at : Option ℕ
  pub failure_code : Option String
  pub created_at : ℕ
  pub updated_at : ℕ
  pub client_key : Option String
  pub raw_resume_sha256 : Option String
  pub job_description_sha256 : Option String
  pub traceparent : Option String
  pub queued_at : Option ℕ

-- `ResultCacheKey`, the primary key of resume_cloud_result_cache
pub record ResultCacheKey : Type 0 where
  pub client_key : String
  pub raw_resume_sha256 : String
  pub job_description_sha256 : String
  pub mode : String
  pub provider : String
  pub model : String
  pub base_url_sha256 : String
  pub pipeline_sha256 : String

unfoldable pub key_eq : ResultCacheKey → ResultCacheKey → Bool
key_eq a b =
    str_eq a.client_key b.client_key
    && str_eq a.raw_resume_sha256 b.raw_resume_sha256
    && str_eq a.job_description_sha256 b.job_description_sha256
    && str_eq a.mode b.mode
    && str_eq a.provider b.provider
    && str_eq a.model b.model
    && str_eq a.base_url_sha256 b.base_url_sha256
    && str_eq a.pipeline_sha256 b.pipeline_sha256

-- a row of resume_cloud_result_cache
pub record CachedResult : Type 0 where
  pub key : ResultCacheKey
  pub output_docx : Bytes
  pub output_sha256 : String
  pub output_expires_at : ℕ

-- a row of resume_cloud_rate_limits; tokens in units of 10⁻¹² token
pub record RateLimit : Type 0 where
  pub client_id : String
  pub tokens : ℕ
  pub updated_at : ℕ
  pub last_allowed : Bool

pub record Database : Type 0 where
  pub tasks : List Task
  pub rate_limits : List RateLimit
  pub result_cache : List CachedResult

abbrev pub empty_database : Database
empty_database = record { tasks = List.[]; rate_limits = List.[]; result_cache = List.[] }
