-- ===== src/ResumeCloud/Repository/Claims.antt =====
-- A task is handed to a worker once.
use soloscale_ai_os.Prelude.{
  ℕ, ◌+◌, ◌*◌, ◌≡◌, ◌≢◌, refl, sym, ap, ◌∙◌, subst, Bool, true, not, ◌&&◌, Option, none, some, List,
  [], ◌∷◌, any, String, arith, ==_iff, Option-cases, Bool-cases, inl, inr,
}
use soloscale_ai_os.ResumeCloud.Models.{TaskState, Bytes, Task, Database}
use soloscale_ai_os.ResumeCloud.Table.{update_where, first, returning, Grows}
use soloscale_ai_os.ResumeCloud.Repository
use soloscale_ai_os.ResumeCloud.Repository.Statements.{
  has_id, is_candidate, may_claim, set_claimed, second,
}
use soloscale_ai_os.ResumeCloud.Repository.Rows.{Member}
use soloscale_ai_os.ResumeCloud.Repository.RowSteps.{Follows, may_become}
use soloscale_ai_os.ResumeCloud.Repository.TableSteps.{UniqueIds, IsSoundTable}
use soloscale_ai_os.ResumeCloud.Repository.Life.{
  Op, apply, apply_all, apply_all-Continues, apply-Continues,
}
use soloscale_ai_os.ResumeCloud.Repository.Candidates.{candidate_lem}

Grows-member :
    (xs ys : List Task) (x : Task)
    → Grows Follows xs ys
    → Member x xs
    → (y : Task) × Member y ys × Follows x y
Grows-member [] ys x g m = absurd m.1
Grows-member (z ∷ xs) [] x g m = absurd g
Grows-member (z ∷ xs) (y ∷ ys) x (f, g) (inl e) = (y, inl refl, subst (λ t. Follows t y) (sym e) f)
Grows-member (z ∷ xs) (y ∷ ys) x (f, g) (inr m) =
    let (w, n, k) = Grows-member xs ys x g m in (w, inr n, k)

member-any :
    (id : ℕ) (xs : List Task) (x : Task)
    → Member x xs
    → has_id id x ≡ true
    → any (has_id id) xs ≡ true
member-any id [] x m h = absurd m.1
member-any id (y ∷ ys) x (inl e) h = ground arith
member-any id (y ∷ ys) x (inr m) h = ground (arith, member-any id ys x m h)

pub unique_member :
    (xs : List Task) (x y : Task) → UniqueIds xs → Member x xs → Member y xs → x.id ≡ y.id → x ≡ y
unique_member [] x y u m n e = absurd m.1
unique_member (z ∷ zs) x y (u, us) (inl p) (inl q) e = p ∙ sym q
unique_member (z ∷ zs) x y (u, us) (inl p) (inr n) e =
    cc (u, member-any z.id zs y n ((==_iff y.id z.id).1 (sym e ∙ ap (λ (t : Task). t.id) p)))
unique_member (z ∷ zs) x y (u, us) (inr m) (inl q) e =
    cc (u, member-any z.id zs x m ((==_iff x.id z.id).1 (e ∙ ap (λ (t : Task). t.id) q)))
unique_member (z ∷ zs) x y (u, us) (inr m) (inr n) e = unique_member zs x y us m n e

-- What an update returns is a row that it has set, and stands in the table.
returning-member :
    (p : Task → Bool) (f : Task → Task) (xs : List Task) (t : Task)
    → first (returning p f xs) ≡ some t
    → (x : Task) × (p x ≡ true) × (t ≡ f x) × Member t (update_where p f xs)
returning-member p f [] t h = cc
returning-member p f (x ∷ xs) t h = elim (Bool-cases (p x)) [
  | inl met ↦ let here : t ≡ f x = ground arith in (x, met, here, inl (rw met here))
  | inr other ↦ let (y, k, e, m) = returning-member p f xs t (ground arith) in (y, k, e, inr m)
]

-- What a worker that gets a task has got.
pub record Claimed (now token lease_seconds : ℕ) (db : Database) (t : Task) (after : Database)
    : Type 0 where
  pub chosen : Task
  pub stored : Member chosen db.tasks
  pub waits : is_candidate now chosen ≡ true
  pub same_id : t.id ≡ chosen.id
  pub runs : t.state ≡ TaskState.running
  pub held : t.worker_token ≡ some token
  pub leased : t.lease_expires_at ≡ some (now + lease_seconds * second)
  pub kept : Member t after.tasks

and_left : (a b : Bool) → a && b ≡ true → a ≡ true
and_left a b h = ground arith

pub claim-Claimed :
    (now token : ℕ) (locked : ℕ → Bool) (lease_seconds : ℕ) (db : Database) (t : Task)
    (after : Database)
    → Repository.claim now token locked lease_seconds db ≡ (some t, after)
    → Claimed now token lease_seconds db t after
unfolding Repository.claim
claim-Claimed now token locked lease_seconds db t after h =
    elim (Option-cases (Repository.candidate now locked db.tasks)) [
      | inl nothing ↦
          let e : Repository.claim now token locked lease_seconds db ≡ (none, db) =
            rw (nothing, Repository.claim) refl in
          cc (e, h)
      | inr (c, found) ↦
          let set = set_claimed now token lease_seconds in
          let e : Repository.claim now token locked lease_seconds db ≡ (
            first (returning (may_claim c.id) set db.tasks),
            record db { tasks = update_where (may_claim c.id) set db.tasks },
          ) =
            rw (found, Repository.claim) refl in
          let given : first (returning (may_claim c.id) set db.tasks) ≡ some t =
            ap (λ (r : Option Task × Database). r.0) (sym e ∙ h) in
          let (stored, waits) = candidate_lem now locked db.tasks c found in
          let (x, met, is_set, kept) = returning-member (may_claim c.id) set db.tasks t given in
          record {
            chosen = c;
            stored = stored;
            waits = and_left (is_candidate now c) (not (locked c.id)) waits;
            same_id = claimed_id c x met is_set;
            runs = unfold set_claimed in ap (λ (y : Task). y.state) is_set;
            held = unfold set_claimed in ap (λ (y : Task). y.worker_token) is_set;
            leased = unfold set_claimed in ap (λ (y : Task). y.lease_expires_at) is_set;
            kept =
                subst (λ (d : Database). Member t d.tasks)
                  (ap (λ (r : Option Task × Database). r.1) (sym e ∙ h)) kept;
          }
    ]
  where
    claimed_id :
        (c x : Task)
        → may_claim c.id x ≡ true
        → t ≡ set_claimed now token lease_seconds x
        → t.id ≡ c.id
    claimed_id c x met e = unfold may_claim set_claimed in ap (λ (y : Task). y.id) e ∙ ground arith

pub not_waiting :
    (now : ℕ) (t : Task)
    → may_become TaskState.running t.state ≡ true
    → is_candidate now t ≡ true
    → ⊥
unfolding is_candidate
not_waiting now t h k = ground arith

-- Once a worker has been given a task, no later claim gives that task to anybody, whatever other
-- transactions come between them: an interrupted task is never run a second time.
pub claimed_once :
    (sha256 : Bytes → String) (sha256_text : String → String) (now token lease_seconds : ℕ)
    (locked : ℕ → Bool) (later token' lease_seconds' : ℕ) (locked' : ℕ → Bool)
    (db db' db'' : Database) (t u : Task) (ops : List Op)
    → IsSoundTable db.tasks
    → Repository.claim now token locked lease_seconds db ≡ (some t, db')
    → Repository.claim later token' locked' lease_seconds' (apply_all sha256 sha256_text ops db')
      ≡ (some u, db'')
    → u.id ≢ t.id
claimed_once sha256 sha256_text now token lease_seconds locked later token' lease_seconds' locked'
      db db' db'' t u ops sound h k e =
    let one = claim-Claimed now token locked lease_seconds db t db' h in
    let two =
      claim-Claimed later token' locked' lease_seconds' (apply_all sha256 sha256_text ops db') u
        db'' k in
    let claimed =
      apply-Continues sha256 sha256_text (Op.claim now token locked lease_seconds) db sound in
    let sound' : IsSoundTable db'.tasks =
      subst (λ (d : Database). IsSoundTable d.tasks) (ap (λ (r : Option Task × Database). r.1) h)
        (unfold apply in claimed.sound) in
    let lived = apply_all-Continues sha256 sha256_text ops db' sound' in
    let (y, there, follows) =
      Grows-member db'.tasks (apply_all sha256 sha256_text ops db').tasks t lived.grows one.kept in
    let same : two.chosen ≡ y =
      unique_member (apply_all sha256 sha256_text ops db').tasks two.chosen y lived.sound.ids
        two.stored there (sym two.same_id ∙ e ∙ sym follows.same_id) in
    not_waiting later y (subst (λ s. may_become s y.state ≡ true) one.runs follows.state)
      (subst (λ c. is_candidate later c ≡ true) same two.waits)
