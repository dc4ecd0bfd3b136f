-- ===== src/ResumeCloud/Service/Once.antt =====
-- How often a model is called for a task, over all runs of all workers.
use soloscale_ai_os.Prelude.{
  ℕ, ◌≡◌, inl, inr, refl, sym, ap, ◌∙◌, subst, Bool, true, false, not, ◌&&◌, Option, none, List, [],
  ◌∷◌, any, All, ◌==◌, ==_iff, Bool-cases, arith, if◌then◌else◌,
}
use soloscale_ai_os.ResumeCloud.Models.{TaskState, Task, Database}
use soloscale_ai_os.ResumeCloud.Table.{Grows}
use soloscale_ai_os.ResumeCloud.Repository
use soloscale_ai_os.ResumeCloud.Repository.Statements.{has_id}
use soloscale_ai_os.ResumeCloud.Repository.Rows.{Member}
use soloscale_ai_os.ResumeCloud.Repository.RowSteps.{Follows, may_become, may_become_trans}
use soloscale_ai_os.ResumeCloud.Repository.TableSteps.{IsSoundTable, Continues}
use soloscale_ai_os.ResumeCloud.Repository.Life.{Op, apply}
use soloscale_ai_os.ResumeCloud.Repository.Claims.{
  Claimed, claim-Claimed, unique_member, not_waiting,
}
use soloscale_ai_os.ResumeCloud.Service.{
  Pipelines, Run, World, Processed, returned, others, with_task, process_one,
}
use soloscale_ai_os.ResumeCloud.Service.Calls.{IsCalled, with_task-IsCalled}
use soloscale_ai_os.ResumeCloud.Service.Effects.{Led, Led-op, Led-others, Led-task, Led-Continues}

-- no id twice
abbrev pub is_distinct : List ℕ → Bool
is_distinct [] = true
is_distinct (id ∷ ids) = not (any (λ x. x == id) ids) && is_distinct ids

-- a row with the id has left the queue for good
abbrev has_started : ℕ → List Task → Bool
has_started id = any (λ t. has_id id t && may_become TaskState.running t.state)

Member-started :
    (id : ℕ) (ts : List Task) (t : Task)
    → Member t ts
    → t.id ≡ id
    → may_become TaskState.running t.state ≡ true
    → has_started id ts ≡ true
Member-started id [] t m e h = absurd m.1
Member-started id (x ∷ xs) t (inl same) e h =
    let own : has_id id x ≡ true = (==_iff x.id id).1 (ap (λ (y : Task). y.id) (sym same) ∙ e) in
    let started : may_become TaskState.running x.state ≡ true =
      subst (λ (y : Task). may_become TaskState.running y.state ≡ true) same h in
    rw (own, started) refl
Member-started id (x ∷ xs) t (inr m) e h = ground (arith, Member-started id xs t m e h)

started-Member :
    (id : ℕ) (ts : List Task)
    → has_started id ts ≡ true
    → (t : Task) × Member t ts × (t.id ≡ id) × (may_become TaskState.running t.state ≡ true)
started-Member id [] h = cc
started-Member id (x ∷ xs) h =
    elim (Bool-cases (has_id id x && may_become TaskState.running x.state)) [
      | inl own ↦ (x, inl refl, (==_iff x.id id).0 (ground arith), ground arith)
      | inr other ↦ let (t, m, e, k) = started-Member id xs (ground arith) in (t, inr m, e, k)
    ]

Grows-started :
    (id : ℕ) (xs ys : List Task)
    → Grows Follows xs ys
    → has_started id xs ≡ true
    → has_started id ys ≡ true
Grows-started id [] ys g h = cc
Grows-started id (x ∷ xs) [] g h = absurd g
Grows-started id (x ∷ xs) (y ∷ ys) (f, g) h =
    elim (Bool-cases (has_id id x && may_become TaskState.running x.state)) [
      | inl own ↦
          let own_id : has_id id y ≡ true = ap (λ i. i == id) f.same_id ∙ (ground arith) in
          let started : may_become TaskState.running y.state ≡ true =
            may_become_trans TaskState.running x.state y.state (ground arith) f.state in
          rw (own_id, started) refl
      | inr other ↦ ground (arith, Grows-started id xs ys g)
    ]

-- A task that is claimed had not started.
fresh-claim :
    (now token lease_seconds : ℕ) (db after : Database) (t : Task)
    → IsSoundTable db.tasks
    → Claimed now token lease_seconds db t after
    → has_started t.id db.tasks ≡ false
fresh-claim now token lease_seconds db after t sound c =
    elim (Bool-cases (has_started t.id db.tasks)) [
      | inr fresh ↦ fresh
      | inl started ↦
          let (y, m, e, k) = started-Member t.id db.tasks started in
          let same : y ≡ c.chosen =
            unique_member db.tasks y c.chosen sound.ids m c.stored (e ∙ c.same_id) in
          absurd (
            not_waiting now c.chosen
              (subst (λ (x : Task). may_become TaskState.running x.state ≡ true) same k) c.waits)
    ]

fresh_call :
    (id : ℕ) (ids : List ℕ) (ts : List Task)
    → All (λ i. has_started i ts ≡ true) ids
    → has_started id ts ≡ false
    → any (λ x. x == id) ids ≡ false
fresh_call id [] ts h fresh = refl
fresh_call id (i ∷ ids) ts (started, h) fresh = elim (Bool-cases (i == id)) [
  | inl same ↦ cc (started, fresh, ap (λ x. has_started x ts) ((==_iff i id).0 same))
  | inr other ↦ rw other (fresh_call id ids ts h fresh)
]

All-started :
    (ids : List ℕ) (xs ys : List Task)
    → Grows Follows xs ys
    → All (λ i. has_started i xs ≡ true) ids
    → All (λ i. has_started i ys ≡ true) ids
All-started [] xs ys g h = tt
All-started (i ∷ ids) xs ys g (started, h) =
    (Grows-started i xs ys g started, All-started ids xs ys g h)

-- The table is sound, no model was called twice for a task, and each task with a call has started.
pub record IsSoundWorld (world : World) : Type 0 where
  pub table : IsSoundTable world.database.tasks
  pub started : All (λ id. has_started id world.database.tasks ≡ true) world.model_calls
  pub distinct : is_distinct world.model_calls ≡ true

module _ (lib : Pipelines) where
  -- Runs one after another, each with what others do before it.
  unfoldable pub process_all : List (List Op × Run) → World → World
  process_all [] world = world
  process_all ((before, run) ∷ runs) world =
      process_all runs
        (process_one lib run (record world { database = others lib before world.database })).1

  claim-Led :
      (run : Run) (world : World) (found : Option Task) (db : Database)
      → Repository.claim run.claim_at run.token run.locked run.lease_seconds world.database
        ≡ (found, db)
      → Led lib world.database db
  claim-Led run world found db h =
      subst (Led lib world.database) (ap (λ (r : Option Task × Database). r.1) h) (
        unfold apply in
        Led-op lib (Op.claim run.claim_at run.token run.locked run.lease_seconds) world.database)

  -- the invariant after a call for a task that has been claimed
  called-IsSoundWorld :
      (run : Run) (world after : World) (db : Database)
      → IsSoundWorld world
      → Continues world.database.tasks db.tasks
      → Continues db.tasks after.database.tasks
      → (called : IsCalled lib run world after) → called.claimed ≡ db
      → IsSoundWorld after
  called-IsSoundWorld run world after db w first second called same =
      let c =
        claim-Claimed run.claim_at run.token run.locked run.lease_seconds world.database called.task
          called.claimed called.is_claimed in
      let id = called.task.id in
      let at_claim : has_started id called.claimed.tasks ≡ true =
        Member-started id called.claimed.tasks called.task c.kept refl
          (ap (may_become TaskState.running) c.runs) in
      let at_db : has_started id db.tasks ≡ true =
        subst (λ (d : Database). has_started id d.tasks ≡ true) same at_claim in
      let fresh =
        fresh-claim run.claim_at run.token run.lease_seconds world.database called.claimed
          called.task w.table c in
      let unused : any (λ x. x == id) world.model_calls ≡ false =
        fresh_call id world.model_calls world.database.tasks w.started fresh in
      let before =
        All-started world.model_calls world.database.tasks db.tasks first.grows w.started in
      record {
        table = second.sound;
        started = subst (All (λ i. has_started i after.database.tasks ≡ true)) (sym called.once) (
          Grows-started id db.tasks after.database.tasks second.grows at_db,
          All-started world.model_calls db.tasks after.database.tasks second.grows before,
        );
        distinct = ap is_distinct called.once ∙ rw (unused, w.distinct) refl;
      }

  with_task-IsSoundWorld :
      (run : Run) (world : World) (found : Option Task) (db : Database)
      → IsSoundWorld world
      → Repository.claim run.claim_at run.token run.locked run.lease_seconds world.database
        ≡ (found, db)
      → IsSoundWorld (with_task lib found run (record world { database = db })).1
  with_task-IsSoundWorld run world found db w h =
      let after = (with_task lib found run (record world { database = db })).1 in
      let first = Led-Continues lib world.database db (claim-Led run world found db h) w.table in
      let second =
        Led-Continues lib db after.database
          (Led-task lib found run (record world { database = db })) first.sound in
      elim (with_task-IsCalled lib run world found db h) [
        | inl same ↦
            let before =
              All-started world.model_calls world.database.tasks db.tasks first.grows w.started in
            record {
              table = second.sound;
              started =
                  subst (All (λ i. has_started i after.database.tasks ≡ true)) (sym same) (
                    All-started world.model_calls db.tasks after.database.tasks second.grows
                      before);
              distinct = ap is_distinct same ∙ w.distinct;
            }
        | inr called ↦
            called-IsSoundWorld run world after db w first second called
              (ap (λ (r : Option Task × Database). r.1) (sym called.is_claimed ∙ h))
      ]

  process_one-IsSoundWorld :
      (run : Run) (world : World) → IsSoundWorld world → IsSoundWorld (process_one lib run world).1
  unfolding process_one
  process_one-IsSoundWorld run world w =
      let claim =
        Repository.claim run.claim_at run.token run.locked run.lease_seconds world.database in
      by_slot run.slot_free (with_task lib claim.0 run (record world { database = claim.1 }))
        (with_task-IsSoundWorld run world claim.0 claim.1 w refl)
    where
      by_slot :
          (free : Bool) (p : Processed × World)
          → IsSoundWorld p.1
          → IsSoundWorld (if free then p else (returned none, world)).1
      by_slot true p h = h
      by_slot false p h = w

  -- From a sound table and no model calls, or calls for different tasks that have left the queue: however
  -- many runs workers make, one after another, and whatever transactions others make before and
  -- inside them, no model is called twice for a task, and the table stays sound.
  pub process_all-IsSoundWorld :
      (runs : List (List Op × Run)) (world : World)
      → IsSoundWorld world
      → IsSoundWorld (process_all runs world)
  unfolding process_all
  process_all-IsSoundWorld [] world w = w
  process_all-IsSoundWorld ((before, run) ∷ runs) world w =
      let db = others lib before world.database in
      let moved =
        Led-Continues lib world.database db (Led-others lib before world.database) w.table in
      let start : IsSoundWorld (record world { database = db }) = record {
        table = moved.sound;
        started = All-started world.model_calls world.database.tasks db.tasks moved.grows w.started;
        distinct = w.distinct;
      } in
      process_all-IsSoundWorld runs _
        (process_one-IsSoundWorld run (record world { database = db }) start)
