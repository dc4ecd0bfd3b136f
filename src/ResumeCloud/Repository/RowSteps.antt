-- ===== src/ResumeCloud/Repository/RowSteps.antt =====
-- What each statement does to one row: it keeps the row sound, and the row follows its life.
use soloscale_ai_os.Prelude.{
  ℕ, ◌≤◌, ◌≡◌, refl, Bool, true, false, not, ◌&&◌, ◌||◌, ◌==◌, leb, is_some, is_none, String, arith,
}
use soloscale_ai_os.ResumeCloud.Models.{TaskState, state_eq, Bytes, Task}
use soloscale_ai_os.ResumeCloud.Repository.Statements.{
  fenced, may_queue, set_queued, is_candidate, set_claimed, set_succeeded, set_failed,
  set_model_call, set_lease, lease_lapsed, set_needs_review, input_lapsed, output_lapsed,
  erase_output,
}
use soloscale_ai_os.ResumeCloud.Repository.{set_completed}

abbrev has_input : Task → Bool
has_input t = is_some t.resume_docx && is_some t.job_description

abbrev no_input : Task → Bool
no_input t = is_none t.resume_docx && is_none t.job_description

abbrev no_output : Task → Bool
no_output t = is_none t.output_docx && is_none t.output_sha256

abbrev unclaimed : Task → Bool
unclaimed t = t.attempt_count == 0 && is_none t.worker_token && not t.model_call_attempted

-- What the columns hold in each state.
abbrev columns : TaskState → Task → Bool
columns TaskState.prepared t = has_input t && no_output t && unclaimed t
columns TaskState.queued t = has_input t && no_output t && unclaimed t
columns TaskState.running t =
    has_input t
    && no_output t
    && t.attempt_count == 1
    && is_some t.worker_token
    && is_some t.lease_expires_at
columns TaskState.succeeded t = no_input t && t.attempt_count == 1 && is_some t.output_expires_at
columns TaskState.failed t = no_input t && no_output t && leb t.attempt_count 1
columns TaskState.needs_review t = no_input t && no_output t && t.attempt_count == 1

unfoldable pub is_sound : Task → Bool
is_sound t = columns t.state t

abbrev pub IsSound : Task → Type 0
IsSound t = is_sound t ≡ true

-- The states that a task may still come to.
abbrev pub may_become : TaskState → TaskState → Bool
may_become TaskState.prepared s = true
may_become TaskState.queued TaskState.prepared = false
may_become TaskState.queued s = true
may_become TaskState.running TaskState.prepared = false
may_become TaskState.running TaskState.queued = false
may_become TaskState.running s = true
may_become s t = state_eq s t

-- A row keeps its identity, moves on through its states, is attempted and called no less than before,
-- and an input document that was erased does not come back.
pub record Follows (t u : Task) : Type 0 where
  pub same_id : u.id ≡ t.id
  pub same_key : u.idempotency_key ≡ t.idempotency_key
  pub same_payload : u.payload_sha256 ≡ t.payload_sha256
  pub same_client : u.client_key ≡ t.client_key
  pub same_mode : u.mode ≡ t.mode
  pub state : may_become t.state u.state ≡ true
  pub attempts : t.attempt_count ≤ u.attempt_count
  pub called : not t.model_call_attempted || u.model_call_attempted ≡ true
  pub erased : not (is_none t.resume_docx) || is_none u.resume_docx ≡ true

may_become_refl : (s : TaskState) → may_become s s ≡ true
may_become_refl s = ground arith

pub may_become_trans :
    (s t u : TaskState) → may_become s t ≡ true → may_become t u ≡ true → may_become s u ≡ true
may_become_trans s t u p q = ground arith

pub Follows-refl : (t : Task) → Follows t t
Follows-refl t = record {
  same_id = refl;
  same_key = refl;
  same_payload = refl;
  same_client = refl;
  same_mode = refl;
  state = may_become_refl t.state;
  attempts = omega arith;
  called = ground arith;
  erased = ground arith;
}

pub Follows-trans : (t u v : Task) → Follows t u → Follows u v → Follows t v
Follows-trans t u v p q = record {
  same_id = cc (p.same_id, q.same_id);
  same_key = cc (p.same_key, q.same_key);
  same_payload = cc (p.same_payload, q.same_payload);
  same_client = cc (p.same_client, q.same_client);
  same_mode = cc (p.same_mode, q.same_mode);
  state = may_become_trans t.state u.state v.state p.state q.state;
  attempts = omega (arith, p.attempts, q.attempts);
  called =
      either t.model_call_attempted u.model_call_attempted v.model_call_attempted p.called q.called;
  erased =
      either (is_none t.resume_docx) (is_none u.resume_docx) (is_none v.resume_docx) p.erased
        q.erased;
}
  where
    either : (a b c : Bool) → not a || b ≡ true → not b || c ≡ true → not a || c ≡ true
    either a b c h k = ground arith

-- What a statement does to a row that meets its condition.
pub record Keeps (guard : Task → Bool) (set : Task → Task) : Type 0 where
  pub sound : (t : Task) → guard t ≡ true → IsSound t → IsSound (set t)
  pub follows : (t : Task) → guard t ≡ true → IsSound t → Follows t (set t)

pub Keeps-queue : (now id : ℕ) → Keeps (may_queue now id) (set_queued now)
unfolding may_queue set_queued is_sound
Keeps-queue now id = record { sound = λ t g h. ground arith; follows = λ t g h. ground arith }

pub Keeps-claim :
    (now token lease_seconds : ℕ) → Keeps (is_candidate now) (set_claimed now token lease_seconds)
unfolding is_candidate set_claimed is_sound
Keeps-claim now token lease_seconds = record {
  sound = λ t g h. ground arith;
  follows = λ t g h. ground arith;
}

pub Keeps-complete :
    (now id token : ℕ) (output : Bytes) (digest : String) (ttl : ℕ)
    → Keeps (fenced now id token) (set_completed now output digest ttl)
unfolding fenced set_completed is_sound
Keeps-complete now id token output digest ttl = record {
  sound = λ t g h. ground arith;
  follows = λ t g h. ground arith;
}

pub Keeps-complete_from_cache :
    (now id token : ℕ) (output : Bytes) (digest : String) (expires : ℕ)
    → Keeps (fenced now id token) (set_succeeded now output digest expires)
unfolding fenced set_succeeded is_sound
Keeps-complete_from_cache now id token output digest expires = record {
  sound = λ t g h. ground arith;
  follows = λ t g h. ground arith;
}

pub Keeps-fail :
    (now id token : ℕ) (code : String) → Keeps (fenced now id token) (set_failed now code)
unfolding fenced set_failed is_sound
Keeps-fail now id token code = record {
  sound = λ t g h. ground arith;
  follows = λ t g h. ground arith;
}

pub Keeps-model_call : (now id token : ℕ) → Keeps (fenced now id token) (set_model_call now)
unfolding fenced set_model_call is_sound
Keeps-model_call now id token = record {
  sound = λ t g h. ground arith;
  follows = λ t g h. ground arith;
}

pub Keeps-lease :
    (now id token lease_seconds : ℕ) → Keeps (fenced now id token) (set_lease now lease_seconds)
unfolding fenced set_lease is_sound
Keeps-lease now id token lease_seconds = record {
  sound = λ t g h. ground arith;
  follows = λ t g h. ground arith;
}

pub Keeps-review : (now : ℕ) → Keeps (lease_lapsed now) (set_needs_review now)
unfolding lease_lapsed set_needs_review is_sound
Keeps-review now = record { sound = λ t g h. ground arith; follows = λ t g h. ground arith }

pub Keeps-expire : (now : ℕ) (code : String) → Keeps (input_lapsed now) (set_failed now code)
unfolding input_lapsed set_failed is_sound
Keeps-expire now code = record { sound = λ t g h. ground arith; follows = λ t g h. ground arith }

pub Keeps-erase : (now : ℕ) → Keeps (output_lapsed now) (erase_output now)
unfolding output_lapsed erase_output is_sound
Keeps-erase now = record { sound = λ t g h. ground arith; follows = λ t g h. ground arith }

-- A narrower condition does no more.
pub Keeps-narrow :
    (guard narrow : Task → Bool) (set : Task → Task)
    → ((t : Task) → narrow t ≡ true → guard t ≡ true)
    → Keeps guard set
    → Keeps narrow set
Keeps-narrow guard narrow set implies k = record {
  sound = λ t g h. k.sound t (implies t g) h;
  follows = λ t g h. k.follows t (implies t g) h;
}
