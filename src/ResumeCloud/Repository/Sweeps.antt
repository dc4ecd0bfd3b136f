-- ===== src/ResumeCloud/Repository/Sweeps.antt =====
-- `recover_and_cleanup` of resume_cloud_repository.py: four sweeps, each over at most a hundred rows.
use soloscale_ai_os.Prelude.{
  ℕ, Bool, not, ◌&&◌, Option, List, map, any, filter_by, length, or_else, ◌==◌, ltb, String,
}
use soloscale_ai_os.ResumeCloud.Models.{Task, key_eq, CachedResult, Database}
use soloscale_ai_os.ResumeCloud.Table.{update_where, returning, order_by, take}
use soloscale_ai_os.ResumeCloud.Repository.Statements.{
  set_failed, lease_lapsed, set_needs_review, input_lapsed, output_lapsed, erase_output,
}

-- a row among the first hundred lapsed ones, in the order of the instant that has passed
unfoldable pub is_selected : (Task → Bool) → (Task → ℕ) → List Task → Task → Bool
is_selected lapsed key tasks t =
    any (λ id. id == t.id) (map (λ t. t.id) (take 100 (order_by key (filter_by lapsed tasks))))
    && lapsed t

abbrev pub sweep : (Task → Bool) → (Task → ℕ) → (Task → Task) → List Task → List Task
sweep lapsed key set tasks = update_where (is_selected lapsed key tasks) set tasks

abbrev lease_end : Task → ℕ
lease_end t = or_else t.lease_expires_at 0

abbrev output_end : Task → ℕ
output_end t = or_else t.output_expires_at 0

-- the DELETE of the first hundred expired results
unfoldable pub sweep_cache : ℕ → List CachedResult → List CachedResult
sweep_cache now cache =
    let expired = λ (c : CachedResult). ltb c.output_expires_at now in
    let selected =
      map (λ c. c.key) (take 100 (order_by (λ c. c.output_expires_at) (filter_by expired cache))) in
    filter_by (λ c. not (any (λ key. key_eq c.key key) selected && expired c)) cache

-- the rows that the first UPDATE of `recover_and_cleanup` returns, for the callback
unfoldable pub recovered_rows : ℕ → List Task → List (ℕ × Option String)
unfolding set_needs_review
recovered_rows now tasks =
    map (λ t. (t.id, t.traceparent))
      (returning (is_selected (lease_lapsed now) lease_end tasks) (set_needs_review now) tasks)

-- `recover_and_cleanup`: how many tasks went to review, and the tables
unfoldable pub recover_and_cleanup : ℕ → Database → ℕ × Database
recover_and_cleanup now db =
    let reviewed = sweep (lease_lapsed now) lease_end (set_needs_review now) db.tasks in
    let failed =
      sweep (input_lapsed now) (λ t. t.input_expires_at) (set_failed now "INPUT_EXPIRED")
        reviewed in
    let erased = sweep (output_lapsed now) output_end (erase_output now) failed in
    (
      length (recovered_rows now db.tasks),
      record db { tasks = erased; result_cache = sweep_cache now db.result_cache },
    )
