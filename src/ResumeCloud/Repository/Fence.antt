-- ===== src/ResumeCloud/Repository/Fence.antt =====
-- The fence of a worker's writes: the id, the RUNNING state, the worker's token and a lease that has
-- not ended.
use soloscale_ai_os.Prelude.{
  ℕ, ◌≡◌, refl, ap, ap₂, Bool, true, false, ◌<◌, All, Bool-cases, inl, inr, Option, none, some,
  List, [], ◌∷◌, any, String, arith,
}
use soloscale_ai_os.ResumeCloud.Models.{
  TaskState, state_eq_sound, Bytes, Task, ResultCacheKey, Database,
}
use soloscale_ai_os.ResumeCloud.Table.{update_where, first, returning}
use soloscale_ai_os.ResumeCloud.Repository
use soloscale_ai_os.ResumeCloud.Repository.Statements.{
  is_token, is_after, fenced, set_failed, set_model_call, set_lease, set_succeeded,
}
use soloscale_ai_os.ResumeCloud.Repository.{set_completed}
use soloscale_ai_os.ResumeCloud.Repository.Rows.{Member, update_where-none}

returning-none :
    (p : Task → Bool) (f : Task → Task) (ts : List Task)
    → any p ts ≡ false
    → first (returning p f ts) ≡ none
returning-none p f [] h = refl
returning-none p f (t ∷ ts) h = ground (arith, returning-none p f ts)

unchanged :
    (p : Task → Bool) (f : Task → Task) (db : Database)
    → any p db.tasks ≡ false
    → record db { tasks = update_where p f db.tasks } ≡ db
unchanged p f db h = ap (λ ts. record db { tasks = ts }) (update_where-none p f db.tasks h)

-- A worker holds a task by its lease: the task is RUNNING with the worker's token, and its lease ends
-- later than the instant.
pub record Holds (now id token : ℕ) (t : Task) : Type 0 where
  pub same_id : t.id ≡ id
  pub running : t.state ≡ TaskState.running
  pub same_token : t.worker_token ≡ some token
  pub lease_end : ℕ
  pub leased : t.lease_expires_at ≡ some lease_end
  pub unexpired : now < lease_end

token_eq : (o : Option ℕ) (token : ℕ) → is_token o token ≡ true → o ≡ some token
token_eq none token h = ground arith
token_eq (some t) token h = ap some (ground arith)

lease_after : (o : Option ℕ) (now : ℕ) → is_after o now ≡ true → (l : ℕ) × (o ≡ some l) × (now < l)
lease_after none now h = absurd (ground arith)
lease_after (some l) now h = (l, refl, ground arith)

fenced-Holds : (now id token : ℕ) (t : Task) → fenced now id token t ≡ true → Holds now id token t
unfolding fenced
fenced-Holds now id token t h =
    let (l, leased, unexpired) = lease_after t.lease_expires_at now (ground arith) in
    record {
      same_id = ground arith;
      running = state_eq_sound t.state TaskState.running (ground arith);
      same_token = token_eq t.worker_token token (ground arith);
      lease_end = l;
      leased = leased;
      unexpired = unexpired;
    }

-- one of the rows is held
abbrev pub Holding : ℕ → ℕ → ℕ → List Task → Type 0
Holding now id token ts = (t : Task) × Member t ts × Holds now id token t

pub any-Holding :
    (now id token : ℕ) (ts : List Task)
    → any (fenced now id token) ts ≡ true
    → Holding now id token ts
any-Holding now id token [] h = absurd (ground arith)
any-Holding now id token (t ∷ ts) h = elim (Bool-cases (fenced now id token t)) [
  | inl held ↦ (t, inl refl, fenced-Holds now id token t held)
  | inr free ↦ let (u, m, held) = any-Holding now id token ts (ground arith) in (u, inr m, held)
]

none_fenced :
    (now id token : ℕ) (ts : List Task)
    → All (λ t. ¬ Holds now id token t) ts
    → any (fenced now id token) ts ≡ false
none_fenced now id token [] h = refl
none_fenced now id token (t ∷ ts) (lost, rest) = elim (Bool-cases (fenced now id token t)) [
  | inl held ↦ absurd (lost (fenced-Holds now id token t held))
  | inr free ↦ ground (arith, none_fenced now id token ts rest)
]

unfenced :
    (sha256 : Bytes → String) (now id token : ℕ) (output : Bytes) (ttl lease_seconds : ℕ)
    (key : ResultCacheKey) (cache_key : Option ResultCacheKey) (code : String) (db : Database)
    → any (fenced now id token) db.tasks ≡ false
    → (Repository.complete sha256 now id token output ttl cache_key db ≡ (false, db))
      × (Repository.complete_from_cache now id token key db ≡ (false, db))
      × (Repository.fail now id token code db ≡ (false, db))
      × (Repository.mark_model_call now id token db ≡ (false, db))
      × (Repository.renew_lease now id token lease_seconds db ≡ (false, db))
unfolding Repository.complete Repository.complete_from_cache
unfenced sha256 now id token output ttl lease_seconds key cache_key code db h = (
  rw
      (
        returning-none (fenced now id token) (set_completed now output (sha256 output) ttl) db.tasks
            h,
        Repository.complete,
      )
      refl,
  from_cache (Repository.cached now key db.result_cache) refl,
  unfold Repository.fail in
      ap₂ (λ b d. (b, d)) h (unchanged (fenced now id token) (set_failed now code) db h),
  unfold Repository.mark_model_call in
      ap₂ (λ b d. (b, d)) h (unchanged (fenced now id token) (set_model_call now) db h),
  unfold Repository.renew_lease in
      ap₂ (λ b d. (b, d)) h (unchanged (fenced now id token) (set_lease now lease_seconds) db h),
)
  where
    from_cache :
        (o : Option Repository.CachedResult)
        → Repository.cached now key db.result_cache ≡ o
        → Repository.complete_from_cache now id token key db ≡ (false, db)
    from_cache none e = rw (e, Repository.complete_from_cache) refl
    from_cache (some c) e =
        rw (e, Repository.complete_from_cache)
          (ap₂ (λ b d. (b, d)) h
            (unchanged (fenced now id token)
              (set_succeeded now c.output_docx c.output_sha256 c.output_expires_at) db h))

-- A worker that does not hold the task, since its token is not the row's, the task is not RUNNING, or the
-- lease has ended, writes nothing: each of its five writes reports `false` and leaves the whole
-- database, the result cache included, as it was.
pub stale_worker :
    (sha256 : Bytes → String) (now id token : ℕ) (output : Bytes) (ttl lease_seconds : ℕ)
    (key : ResultCacheKey) (cache_key : Option ResultCacheKey) (code : String) (db : Database)
    → All (λ t. ¬ Holds now id token t) db.tasks
    → (Repository.complete sha256 now id token output ttl cache_key db ≡ (false, db))
      × (Repository.complete_from_cache now id token key db ≡ (false, db))
      × (Repository.fail now id token code db ≡ (false, db))
      × (Repository.mark_model_call now id token db ≡ (false, db))
      × (Repository.renew_lease now id token lease_seconds db ≡ (false, db))
stale_worker sha256 now id token output ttl lease_seconds key cache_key code db lost =
    unfenced sha256 now id token output ttl lease_seconds key cache_key code db
      (none_fenced now id token db.tasks lost)
