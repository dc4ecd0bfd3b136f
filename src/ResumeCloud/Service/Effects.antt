-- ===== src/ResumeCloud/Service/Effects.antt =====
-- A run of a worker changes the database by transactions of the repository and by nothing else.
use soloscale_ai_os.Prelude.{
  ◌≡◌, refl, sym, ap, ◌∙◌, subst, Bool, true, false, not, Option, none, some, List, [], ◌∷◌, String,
  ◌++◌, if◌then◌else◌,
}
use soloscale_ai_os.ResumeCloud.Models.{TaskMode, Bytes, Task, ResultCacheKey, Database}
use soloscale_ai_os.ResumeCloud.Repository
use soloscale_ai_os.ResumeCloud.Repository.TableSteps.{IsSoundTable, Continues}
use soloscale_ai_os.ResumeCloud.Repository.Life.{Op, apply, apply_all, apply_all-Continues}
use soloscale_ai_os.ResumeCloud.Service.{
  Gateway, Pipelines, Run, World, Ending, cache_key, others, try_cache, template_branch,
  model_branch, selected_gateway, with_gateway, in_mode, execute, settle, process_claimed,
  with_task,
}

module _ (lib : Pipelines) where
  -- What the database after a run may be: one that transactions lead to.
  abbrev pub Led : Database → Database → Type 0
  Led db after = (ops : List Op) × (after ≡ apply_all lib.sha256 lib.sha256_text ops db)

  pub Led-refl : (db : Database) → Led db db
  unfolding apply_all
  Led-refl db = ([], refl)

  pub append-apply :
      (xs ys : List Op) (db : Database)
      → apply_all lib.sha256 lib.sha256_text (xs ++ ys) db
        ≡ apply_all lib.sha256 lib.sha256_text ys (apply_all lib.sha256 lib.sha256_text xs db)
  unfolding apply_all
  append-apply [] ys db = refl
  append-apply (x ∷ xs) ys db = append-apply xs ys (apply lib.sha256 lib.sha256_text x db)

  pub Led-trans : (a b c : Database) → Led a b → Led b c → Led a c
  Led-trans a b c (xs, p) (ys, q) =
      (xs ++ ys, q ∙ ap (apply_all lib.sha256 lib.sha256_text ys) p ∙ sym (append-apply xs ys a))

  pub Led-others : (ops : List Op) (db : Database) → Led db (others lib ops db)
  Led-others ops db = (ops, refl)

  pub Led-op : (op : Op) (db : Database) → Led db (apply lib.sha256 lib.sha256_text op db)
  unfolding apply_all
  Led-op op db = (op ∷ [], refl)

  pub Led-cache :
      (run : Run) (task : Task) (key : Option ResultCacheKey) (db : Database)
      → Led db (try_cache lib run task key db).1
  unfolding try_cache apply
  Led-cache run task none db = Led-refl db
  Led-cache run task (some key) db =
      Led-trans db (others lib run.before_cache db) _ (Led-others run.before_cache db) (
        Led-op (Op.complete_from_cache run.cache_at task.id run.token key)
          (others lib run.before_cache db))

  pub Led-settle :
      (run : Run) (task : Task) (ending : Ending) (db : Database)
      → Led db (settle lib run task ending db)
  unfolding settle apply
  Led-settle run task Ending.cache_hit db = Led-refl db
  Led-settle run task Ending.rejected db =
      Led-trans db (others lib run.before_end db) _ (Led-others run.before_end db) (
        Led-op (Op.fail run.end_at task.id run.token "PROCESSING_REJECTED")
          (others lib run.before_end db))
  Led-settle run task (Ending.produced output key) db =
      Led-trans db (others lib run.before_end db) _ (Led-others run.before_end db) (
        Led-op (Op.complete run.end_at task.id run.token output run.output_ttl_hours key)
          (others lib run.before_end db))

  pub Led-model :
      (run : Run) (task : Task) (docx : Bytes) (job : String) (g : Gateway) (world : World)
      → Led world.database (model_branch lib run task docx job g world).1.database
  unfolding model_branch apply
  Led-model run task docx job g world =
      let looked = try_cache lib run task (cache_key lib task (some g)) world.database in
      let held = others lib run.before_mark looked.1 in
      let mark = Repository.mark_model_call run.mark_at task.id run.token held in
      let to_look = Led-cache run task (cache_key lib task (some g)) world.database in
      let to_mark : Led world.database mark.1 = Led-trans world.database looked.1 mark.1 to_look (
        Led-trans looked.1 held mark.1 (Led-others run.before_mark looked.1)
          (Led-op (Op.mark_model_call run.mark_at task.id run.token) held)) in
      pick looked.0 mark.0 looked.1 mark.1 _ to_look to_mark
    where
      pick :
          (hit marked : Bool) (a b : Database) (ending : Ending)
          → Led world.database a
          → Led world.database b
          → let r : Ending × World =
              if hit
              then (Ending.cache_hit, record world { database = a })
              else if not marked
              then (Ending.rejected, record world { database = b })
              else (ending, record { database = b; model_calls = task.id ∷ world.model_calls }) in
            Led world.database r.1.database
      pick true marked a b ending x y = x
      pick false true a b ending x y = y
      pick false false a b ending x y = y

  pub Led-gateway :
      (gateway : Option Gateway) (run : Run) (task : Task) (docx : Bytes) (job : String)
      (world : World)
      → Led world.database (with_gateway lib gateway run task docx job world).1.database
  Led-gateway none run task docx job world = Led-refl world.database
  Led-gateway (some g) run task docx job world = Led-model run task docx job g world

  pub Led-mode :
      (mode : TaskMode) (approved : Bool) (run : Run) (task : Task) (docx : Bytes) (job : String)
      (world : World)
      → Led world.database (in_mode lib mode approved run task docx job world).1.database
  unfolding template_branch
  Led-mode TaskMode.template approved run task docx job world =
      Led-cache run task (cache_key lib task none) world.database
  Led-mode TaskMode.ai false run task docx job world = Led-refl world.database
  Led-mode TaskMode.ai true run task docx job world =
      Led-gateway (selected_gateway run) run task docx job world

  pub Led-claimed :
      (run : Run) (task : Task) (docx : Option Bytes) (job : Option String) (world : World)
      → Led world.database (process_claimed lib run task docx job world).1.database
  unfolding process_claimed execute apply
  Led-claimed run task none job world = Led-refl world.database
  Led-claimed run task (some docx) none world = Led-refl world.database
  Led-claimed run task (some docx) (some job) world =
      let (ending, after) = execute lib run task docx job world in
      let settled = settle lib run task ending after.database in
      let ready = others lib run.before_get settled in
      Led-trans world.database after.database _
        (Led-mode task.mode task.approve_external_model_call run task docx job world)
        (Led-trans after.database settled _ (Led-settle run task ending after.database) (
          Led-trans settled ready _ (Led-others run.before_get settled)
            (Led-op (Op.get run.get_at task.id) ready)))

  pub Led-task :
      (found : Option Task) (run : Run) (world : World)
      → Led world.database (with_task lib found run world).1.database
  Led-task none run world = Led-refl world.database
  Led-task (some task) run world = Led-claimed run task task.resume_docx task.job_description world

  pub Led-Continues :
      (db after : Database) → Led db after → IsSoundTable db.tasks → Continues db.tasks after.tasks
  Led-Continues db after (ops, same) sound =
      subst (λ (d : Database). Continues db.tasks d.tasks) (sym same)
        (apply_all-Continues lib.sha256 lib.sha256_text ops db sound)
