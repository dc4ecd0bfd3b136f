-- ===== src/ResumeCloud/Repository/Statements.antt =====
-- The WHERE conditions and SET lists of the statements on resume_cloud_tasks.
use soloscale_ai_os.Prelude.{
  ℕ, ◌+◌, ◌*◌, Bool, true, false, ◌&&◌, ◌||◌, Option, none, some, ◌==◌, ltb, leb, is_some, String,
}
use soloscale_ai_os.ResumeCloud.Models.{TaskState, state_eq, Bytes, Task}

abbrev pub second : ℕ
second = 1000000

abbrev pub hour : ℕ
hour = 3600 * second

-- a comparison with NULL does not hold
abbrev pub is_token : Option ℕ → ℕ → Bool
is_token none token = false
is_token (some t) token = t == token

abbrev pub is_after : Option ℕ → ℕ → Bool
is_after none now = false
is_after (some t) now = ltb now t

abbrev pub is_before : Option ℕ → ℕ → Bool
is_before none now = false
is_before (some t) now = ltb t now

abbrev pub has_id : ℕ → Task → Bool
has_id id t = t.id == id

-- state IN ('PREPARED','QUEUED')
abbrev pub is_waiting : Task → Bool
is_waiting t = state_eq t.state TaskState.prepared || state_eq t.state TaskState.queued

-- the fence: id, state, token and an unexpired lease
unfoldable pub fenced : ℕ → ℕ → ℕ → Task → Bool
fenced now id token t =
    has_id id t
    && state_eq t.state TaskState.running
    && is_token t.worker_token token
    && is_after t.lease_expires_at now

unfoldable pub may_queue : ℕ → ℕ → Task → Bool
may_queue now id t =
    has_id id t
    && state_eq t.state TaskState.prepared
    && leb now t.input_expires_at
    && is_some t.resume_docx
    && is_some t.job_description

unfoldable pub set_queued : ℕ → Task → Task
set_queued now t = record t { state = TaskState.queued; queued_at = some now; updated_at = now }

-- the WHERE of `candidate`; the lock of `FOR UPDATE SKIP LOCKED` is tested where it is used
unfoldable pub is_candidate : ℕ → Task → Bool
is_candidate now t =
    state_eq t.state TaskState.queued
    && leb now t.input_expires_at
    && is_some t.resume_docx
    && is_some t.job_description

unfoldable pub may_claim : ℕ → Task → Bool
may_claim id t = has_id id t && t.attempt_count == 0

unfoldable pub set_claimed : ℕ → ℕ → ℕ → Task → Task
set_claimed now token lease_seconds t = record t {
  state = TaskState.running;
  attempt_count = t.attempt_count + 1;
  worker_token = some token;
  started_at = some now;
  lease_expires_at = some (now + lease_seconds * second);
  updated_at = now;
}

unfoldable pub set_succeeded : ℕ → Bytes → String → ℕ → Task → Task
set_succeeded now output digest expires t = record t {
  state = TaskState.succeeded;
  output_docx = some output;
  output_sha256 = some digest;
  output_expires_at = some expires;
  resume_docx = none;
  job_description = none;
  completed_at = some now;
  updated_at = now;
}

unfoldable pub set_failed : ℕ → String → Task → Task
set_failed now code t = record t {
  state = TaskState.failed;
  failure_code = some code;
  resume_docx = none;
  job_description = none;
  completed_at = some now;
  updated_at = now;
}

unfoldable pub set_model_call : ℕ → Task → Task
set_model_call now t = record t { model_call_attempted = true; updated_at = now }

unfoldable pub set_lease : ℕ → ℕ → Task → Task
set_lease now lease_seconds t = record t {
  lease_expires_at = some (now + lease_seconds * second);
  updated_at = now;
}

unfoldable pub lease_lapsed : ℕ → Task → Bool
lease_lapsed now t = state_eq t.state TaskState.running && is_before t.lease_expires_at now

unfoldable pub set_needs_review : ℕ → Task → Task
set_needs_review now t = record t {
  state = TaskState.needs_review;
  failure_code = some "LEASE_EXPIRED";
  resume_docx = none;
  job_description = none;
  updated_at = now;
}

unfoldable pub input_lapsed : ℕ → Task → Bool
input_lapsed now t = is_waiting t && ltb t.input_expires_at now

unfoldable pub output_lapsed : ℕ → Task → Bool
output_lapsed now t = state_eq t.state TaskState.succeeded && is_before t.output_expires_at now

unfoldable pub erase_output : ℕ → Task → Task
erase_output now t = record t { output_docx = none; output_sha256 = none; updated_at = now }
