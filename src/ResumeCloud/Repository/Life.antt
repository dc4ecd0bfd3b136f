-- ===== src/ResumeCloud/Repository/Life.antt =====
-- The life of the tasks table under any sequence of the repository's transactions.
use soloscale_ai_os.Prelude.{
  ℕ, ◌≡◌, refl, sym, subst, ◌∙◌, ◌⊎◌, inl, inr, Bool, false, Option, List, [], ◌∷◌, ◌++◌,
  All-append, any, String, Option-cases, arith,
}
use soloscale_ai_os.ResumeCloud.Models.{Bytes, ResultCacheKey, Database}
use soloscale_ai_os.ResumeCloud.Table.{update_where, first, returning}
use soloscale_ai_os.ResumeCloud.Repository
use soloscale_ai_os.ResumeCloud.Repository.{NewTask, inserted, set_completed}
use soloscale_ai_os.ResumeCloud.Repository.Statements.{
  has_id, fenced, may_queue, set_queued, may_claim, set_claimed, set_succeeded,
}
use soloscale_ai_os.ResumeCloud.Repository.Rows.{Grows-append}
use soloscale_ai_os.ResumeCloud.Repository.RowSteps.{
  is_sound, IsSound, Follows, Follows-refl, Keeps-queue, Keeps-complete, Keeps-complete_from_cache,
  Keeps-fail, Keeps-model_call, Keeps-lease, Keeps-review, Keeps-expire, Keeps-erase,
}
use soloscale_ai_os.ResumeCloud.Repository.TableSteps.{
  IsSoundTable, Continues, update-Continues, Continues-refl, Continues-trans, then-update,
  expire_one-Continues, selected-Keeps,
}
use soloscale_ai_os.ResumeCloud.Repository.Candidates.{
  and_left, candidate_lem, claim_update, claim_row-Keeps, UniqueIds-append,
}

-- A transaction of the repository, with the instants and draws that it meets.
pub data Op : Type 0 where
  create_or_replay : (now clock : ℕ) → NewTask → Op
  get : (now id : ℕ) → Op
  queue : (now later id : ℕ) → Op
  claim : (now token : ℕ) → (ℕ → Bool) → (lease_seconds : ℕ) → Op
  complete : (now id token : ℕ) → Bytes → (ttl : ℕ) → Option ResultCacheKey → Op
  complete_from_cache : (now id token : ℕ) → ResultCacheKey → Op
  fail : (now id token : ℕ) → String → Op
  mark_model_call : (now id token : ℕ) → Op
  renew_lease : (now id token lease_seconds : ℕ) → Op
  recover_and_cleanup : (now : ℕ) → Op

module _ (sha256 : Bytes → String) (sha256_text : String → String) where
  -- The database after a transaction.
  unfoldable pub apply : Op → Database → Database
  apply (create_or_replay now clock new) db =
      (Repository.create_or_replay sha256_text now clock new db).1
  apply (get now id) db = (Repository.get now id db).1
  apply (queue now later id) db = (Repository.queue now later id db).1
  apply (claim now token locked lease_seconds) db =
      (Repository.claim now token locked lease_seconds db).1
  apply (complete now id token output ttl key) db =
      (Repository.complete sha256 now id token output ttl key db).1
  apply (complete_from_cache now id token key) db =
      (Repository.complete_from_cache now id token key db).1
  apply (fail now id token code) db = (Repository.fail now id token code db).1
  apply (mark_model_call now id token) db = (Repository.mark_model_call now id token db).1
  apply (renew_lease now id token lease_seconds) db =
      (Repository.renew_lease now id token lease_seconds db).1
  apply (recover_and_cleanup now) db = (Repository.recover_and_cleanup now db).1

  unfoldable pub apply_all : List Op → Database → Database
  apply_all [] db = db
  apply_all (op ∷ ops) db = apply_all ops (apply op db)

  create_tasks :
      (now clock : ℕ) (new : NewTask) (db : Database)
      → ((Repository.create_or_replay sha256_text now clock new db).1.tasks ≡ db.tasks)
        ⊎ ((any (has_id new.task_id) db.tasks ≡ false)
            × ((Repository.create_or_replay sha256_text now clock new db).1.tasks
                ≡ db.tasks ++ inserted sha256_text now clock new ∷ []))
  unfolding Repository.create_or_replay
  create_tasks now clock new db = ground arith

  apply_create :
      (now clock : ℕ) (new : NewTask) (db : Database)
      → IsSoundTable db.tasks
      → Continues db.tasks (Repository.create_or_replay sha256_text now clock new db).1.tasks
  apply_create now clock new db h = elim (create_tasks now clock new db) [
    | inl same ↦ subst (Continues db.tasks) (sym same) (Continues-refl db.tasks h)
    | inr (fresh, more) ↦
        let row = inserted sha256_text now clock new in
        subst (Continues db.tasks) (sym more) (record {
          sound = record {
            rows = All-append IsSound db.tasks (row ∷ []) h.rows (unfold is_sound in refl, tt);
            ids = UniqueIds-append row db.tasks fresh h.ids;
          };
          grows = Grows-append Follows Follows-refl db.tasks (row ∷ []);
        })
  ]

  apply_queue :
      (now later id : ℕ) (db : Database)
      → IsSoundTable db.tasks
      → Continues db.tasks (Repository.queue now later id db).1.tasks
  unfolding Repository.queue Repository.get Repository.expire_one
  apply_queue now later id db h =
      elim (Option-cases (first (returning (may_queue now id) (set_queued now) db.tasks))) [
        | inl nothing ↦
            let e : (Repository.queue now later id db).1.tasks
                ≡ Repository.expire_one later id db.tasks =
              rw (nothing, Repository.queue) refl in
            subst (Continues db.tasks) (sym e) (expire_one-Continues later id db.tasks h)
        | inr (row, found) ↦
            let e : (Repository.queue now later id db).1.tasks
                ≡ update_where (may_queue now id) (set_queued now) db.tasks =
              rw (found, Repository.queue) in
            subst (Continues db.tasks) (sym e) (update-Continues db.tasks (Keeps-queue now id) h)
      ]

  apply_claim :
      (now token : ℕ) (locked : ℕ → Bool) (lease_seconds : ℕ) (db : Database)
      → IsSoundTable db.tasks
      → Continues db.tasks (Repository.claim now token locked lease_seconds db).1.tasks
  unfolding Repository.claim
  apply_claim now token locked lease_seconds db h =
      elim (Option-cases (Repository.candidate now locked db.tasks)) [
        | inl nothing ↦
            let e : (Repository.claim now token locked lease_seconds db).1.tasks ≡ db.tasks =
              rw (nothing, Repository.claim) in
            subst (Continues db.tasks) (sym e) (Continues-refl db.tasks h)
        | inr (c, found) ↦
            let set = set_claimed now token lease_seconds in
            let e : (Repository.claim now token locked lease_seconds db).1.tasks
                ≡ update_where (may_claim c.id) set db.tasks =
              rw (found, Repository.claim) in
            let (stored, waits) = candidate_lem now locked db.tasks c found in
            subst (Continues db.tasks)
              (sym (e ∙ claim_update now set db.tasks c h.ids stored (and_left _ _ waits)))
              (update-Continues db.tasks (claim_row-Keeps now token lease_seconds c.id) h)
      ]

  apply_complete :
      (now id token : ℕ) (output : Bytes) (ttl : ℕ) (key : Option ResultCacheKey) (db : Database)
      → IsSoundTable db.tasks
      → Continues db.tasks (Repository.complete sha256 now id token output ttl key db).1.tasks
  unfolding Repository.complete
  apply_complete now id token output ttl key db h =
      let set = set_completed now output (sha256 output) ttl in
      elim (Option-cases (first (returning (fenced now id token) set db.tasks))) [
        | inl nothing ↦
            let e : (Repository.complete sha256 now id token output ttl key db).1.tasks ≡ db.tasks =
              rw (nothing, Repository.complete) in
            subst (Continues db.tasks) (sym e) (Continues-refl db.tasks h)
        | inr (row, found) ↦
            let e : (Repository.complete sha256 now id token output ttl key db).1.tasks
                ≡ update_where (fenced now id token) set db.tasks =
              rw (found, Repository.complete) in
            subst (Continues db.tasks) (sym e)
              (update-Continues db.tasks (Keeps-complete now id token output (sha256 output) ttl) h)
      ]

  apply_complete_from_cache :
      (now id token : ℕ) (key : ResultCacheKey) (db : Database)
      → IsSoundTable db.tasks
      → Continues db.tasks (Repository.complete_from_cache now id token key db).1.tasks
  unfolding Repository.complete_from_cache
  apply_complete_from_cache now id token key db h =
      elim (Option-cases (Repository.cached now key db.result_cache)) [
        | inl nothing ↦
            let e : (Repository.complete_from_cache now id token key db).1.tasks ≡ db.tasks =
              rw (nothing, Repository.complete_from_cache) in
            subst (Continues db.tasks) (sym e) (Continues-refl db.tasks h)
        | inr (c, found) ↦
            let set = set_succeeded now c.output_docx c.output_sha256 c.output_expires_at in
            let e : (Repository.complete_from_cache now id token key db).1.tasks
                ≡ update_where (fenced now id token) set db.tasks =
              rw (found, Repository.complete_from_cache) in
            subst (Continues db.tasks) (sym e) (
              update-Continues db.tasks
                (Keeps-complete_from_cache now id token c.output_docx c.output_sha256
                  c.output_expires_at)
                h)
      ]

  -- Every transaction keeps the table sound, and takes each row on in its life.
  pub apply-Continues :
      (op : Op) (db : Database) → IsSoundTable db.tasks → Continues db.tasks (apply op db).tasks
  unfolding apply
  apply-Continues (create_or_replay now clock new) db h = apply_create now clock new db h
  apply-Continues (get now id) db h =
      unfold Repository.get in expire_one-Continues now id db.tasks h
  apply-Continues (queue now later id) db h = apply_queue now later id db h
  apply-Continues (claim now token locked lease_seconds) db h =
      apply_claim now token locked lease_seconds db h
  apply-Continues (complete now id token output ttl key) db h =
      apply_complete now id token output ttl key db h
  apply-Continues (complete_from_cache now id token key) db h =
      apply_complete_from_cache now id token key db h
  apply-Continues (fail now id token code) db h =
      unfold Repository.fail in update-Continues db.tasks (Keeps-fail now id token code) h
  apply-Continues (mark_model_call now id token) db h =
      unfold Repository.mark_model_call in
      update-Continues db.tasks (Keeps-model_call now id token) h
  apply-Continues (renew_lease now id token lease_seconds) db h =
      unfold Repository.renew_lease in
      update-Continues db.tasks (Keeps-lease now id token lease_seconds) h
  apply-Continues (recover_and_cleanup now) db h =
      unfold Repository.recover_and_cleanup in
      then-update (selected-Keeps _ _ (Keeps-erase now)) (
        then-update (selected-Keeps _ _ (Keeps-expire now "INPUT_EXPIRED"))
          (update-Continues db.tasks (selected-Keeps _ _ (Keeps-review now)) h))

  -- From a table whose rows are sound and whose ids differ, after any transactions in any order, each
  -- at any instant and with any draws and locks: every row is sound, no two share an id, none is gone,
  -- and each has kept what a row keeps and has moved along the state machine.
  pub apply_all-Continues :
      (ops : List Op) (db : Database)
      → IsSoundTable db.tasks
      → Continues db.tasks (apply_all ops db).tasks
  unfolding apply_all
  apply_all-Continues [] db h = Continues-refl db.tasks h
  apply_all-Continues (op ∷ ops) db h =
      let first_step = apply-Continues op db h in
      Continues-trans db.tasks (apply op db).tasks (apply_all ops (apply op db)).tasks first_step
        (apply_all-Continues ops (apply op db) first_step.sound)
