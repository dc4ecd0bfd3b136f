-- ===== src/ResumeCloud/Service/Calls.antt =====
-- When a worker calls a model.
use soloscale_ai_os.Prelude.{
  ◌≡◌, ◌⊎◌, inl, inr, refl, sym, ap, subst, ◌∙◌, Bool, true, false, Option, none, some, List, [],
  ◌∷◌, ◌++◌, String, Bool-cases, arith,
}
use soloscale_ai_os.ResumeCloud.Models.{TaskMode, Bytes, Task, ResultCacheKey, Database}
use soloscale_ai_os.ResumeCloud.Repository
use soloscale_ai_os.ResumeCloud.Repository.Life.{Op, apply, apply_all}
use soloscale_ai_os.ResumeCloud.Service.{
  Gateway, Pipelines, Run, World, cache_key, others, try_cache, template_branch, model_branch,
  selected_gateway, with_gateway, in_mode, execute, process_claimed, with_task,
}
use soloscale_ai_os.ResumeCloud.Service.Effects.{append-apply}
use soloscale_ai_os.ResumeCloud.Repository.Fence.{Holding, any-Holding}

module _ (lib : Pipelines) where
  -- The transactions of a lookup of the cache: what others do before it, and the lookup.
  abbrev pub lookup : Run → Task → Option ResultCacheKey → List Op
  lookup run task none = []
  lookup run task (some key) =
      run.before_cache ++ Op.complete_from_cache run.cache_at task.id run.token key ∷ []

  looked_up :
      (run : Run) (task : Task) (key : Option ResultCacheKey) (db : Database)
      → (try_cache lib run task key db).1
        ≡ apply_all lib.sha256 lib.sha256_text (lookup run task key) db
  unfolding try_cache apply_all apply
  looked_up run task none db = refl
  looked_up run task (some key) db = sym (
      append-apply lib run.before_cache
        (Op.complete_from_cache run.cache_at task.id run.token key ∷ []) db)

  -- What has been done to the database since the claim when the worker marks its call: the lookup of the
  -- cache, and what others have done up to the mark.
  abbrev pub until_mark : Run → Task → Option Gateway → List Op
  until_mark run task gateway = lookup run task (cache_key lib task gateway) ++ run.before_mark

  -- A model call: the task that the worker has claimed, an AI task whose owner has approved the call, and
  -- that the worker holds by an unexpired lease when it marks the call in the database that it meets.
  pub record IsCalled (run : Run) (world after : World) : Type 0 where
    pub task : Task
    pub claimed : Database
    pub is_claimed :
        Repository.claim run.claim_at run.token run.locked run.lease_seconds world.database
        ≡ (some task, claimed)
    pub mode : task.mode ≡ TaskMode.ai
    pub approved : task.approve_external_model_call ≡ true
    pub held :
        Holding run.mark_at task.id run.token
          (apply_all lib.sha256 lib.sha256_text
            (until_mark run task (selected_gateway run))
            claimed).tasks
    pub missed :
        (try_cache lib run task (cache_key lib task (selected_gateway run)) claimed).0 ≡ false
    pub once : after.model_calls ≡ task.id ∷ world.model_calls

  -- what the body of a run does to the calls
  abbrev Branch : Option Gateway → Run → Task → World → World → Type 0
  Branch gateway run task world after =
      (after.model_calls ≡ world.model_calls)
      ⊎ (Holding run.mark_at task.id run.token
            (apply_all lib.sha256 lib.sha256_text (until_mark run task gateway)
              world.database).tasks
          × ((try_cache lib run task (cache_key lib task gateway) world.database).0 ≡ false)
          × (after.model_calls ≡ task.id ∷ world.model_calls))

  model_branch-Branch :
      (run : Run) (task : Task) (docx : Bytes) (job : String) (g : Gateway) (world : World)
      → Branch (some g) run task world (model_branch lib run task docx job g world).1
  unfolding model_branch Repository.mark_model_call
  model_branch-Branch run task docx job g world =
      let looked = try_cache lib run task (cache_key lib task (some g)) world.database in
      let key = cache_key lib task (some g) in
      let at = looked_up run task key world.database in
      let held = others lib run.before_mark looked.1 in
      let same : held
          ≡ apply_all lib.sha256 lib.sha256_text (until_mark run task (some g)) world.database =
        ap (others lib run.before_mark) at
        ∙ sym (append-apply lib (lookup run task key) run.before_mark world.database) in
      let mark = Repository.mark_model_call run.mark_at task.id run.token held in
      elim (Bool-cases looked.0) [
        | inl hit ↦ inl (ground arith)
        | inr miss ↦ elim (Bool-cases mark.0) [
          | inl marked ↦ inr (
            subst (λ (d : Database). Holding run.mark_at task.id run.token d.tasks) same
                (any-Holding run.mark_at task.id run.token held.tasks marked),
            miss,
            ground arith,
          )
          | inr unmarked ↦ inl (ground arith)
        ]
      ]

  template_branch-calls :
      (run : Run) (task : Task) (docx : Bytes) (job : String) (world : World)
      → (template_branch lib run task docx job world).1.model_calls ≡ world.model_calls
  unfolding template_branch
  template_branch-calls run task docx job world = refl

  with_gateway-Branch :
      (gateway : Option Gateway) (run : Run) (task : Task) (docx : Bytes) (job : String)
      (world : World)
      → Branch gateway run task world (with_gateway lib gateway run task docx job world).1
  with_gateway-Branch none run task docx job world = inl refl
  with_gateway-Branch (some g) run task docx job world =
      model_branch-Branch run task docx job g world

  -- the body, with what it asks of the task before it comes to a model
  execute-Branch :
      (run : Run) (task : Task) (docx : Bytes) (job : String) (world : World)
      → let after = (execute lib run task docx job world).1 in
        (after.model_calls ≡ world.model_calls)
        ⊎ ((task.mode ≡ TaskMode.ai)
            × (task.approve_external_model_call ≡ true)
            × Branch (selected_gateway run) run task world after)
  unfolding execute
  execute-Branch run task docx job world =
      by_mode task.mode refl task.approve_external_model_call refl
    where
      by_mode :
          (mode : TaskMode)
          → task.mode ≡ mode
          → (approved : Bool) → task.approve_external_model_call ≡ approved
          → let after = (in_mode lib mode approved run task docx job world).1 in
            (after.model_calls ≡ world.model_calls)
            ⊎ ((task.mode ≡ TaskMode.ai)
                × (task.approve_external_model_call ≡ true)
                × Branch (selected_gateway run) run task world after)
      by_mode TaskMode.template m approved a = inl (template_branch-calls run task docx job world)
      by_mode TaskMode.ai m false a = inl refl
      by_mode TaskMode.ai m true a =
          inr (m, a, with_gateway-Branch (selected_gateway run) run task docx job world)

  abbrev Outcome : Run → Task → World → World → Type 0
  Outcome run task world after =
      (after.model_calls ≡ world.model_calls)
      ⊎ ((task.mode ≡ TaskMode.ai)
          × (task.approve_external_model_call ≡ true)
          × Branch (selected_gateway run) run task world after)

  process_claimed-Outcome :
      (run : Run) (task : Task) (docx : Option Bytes) (job : Option String) (world : World)
      → Outcome run task world (process_claimed lib run task docx job world).1
  unfolding process_claimed
  process_claimed-Outcome run task none job world = inl refl
  process_claimed-Outcome run task (some docx) none world = inl refl
  process_claimed-Outcome run task (some docx) (some job) world =
      execute-Branch run task docx job world

  pub with_task-IsCalled :
      (run : Run) (world : World) (found : Option Task) (db : Database)
      → Repository.claim run.claim_at run.token run.locked run.lease_seconds world.database
        ≡ (found, db)
      → let after = (with_task lib found run (record world { database = db })).1 in
        (after.model_calls ≡ world.model_calls) ⊎ IsCalled run world after
  with_task-IsCalled run world none db h = inl refl
  with_task-IsCalled run world (some task) db h =
      elim (process_claimed-Outcome run task task.resume_docx task.job_description
        (record world { database = db })) [
          | inl same ↦ inl same
          | inr (ai, approved, inl same) ↦ inl same
          | inr (ai, approved, inr (held, missed, once)) ↦ inr (record {
            task = task;
            claimed = db;
            is_claimed = h;
            mode = ai;
            approved = approved;
            held = held;
            missed = missed;
            once = once;
          })
        ]
