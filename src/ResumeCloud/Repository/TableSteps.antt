-- ===== src/ResumeCloud/Repository/TableSteps.antt =====
-- The tasks table under the repository's updates: what is sound stays sound, and every row lives on.
use mathlib.Core.Path.{ap₂}
use soloscale_ai_os.Prelude.{
  ℕ, ◌≡◌, refl, ap, ◌∙◌, Bool, true, false, ◌&&◌, ◌||◌, List, [], ◌∷◌, All, any, ◌==◌, arith,
}
use soloscale_ai_os.ResumeCloud.Models.{Task}
use soloscale_ai_os.ResumeCloud.Table.{update_where, Grows}
use soloscale_ai_os.ResumeCloud.Repository.Statements.{
  has_id, set_failed, input_lapsed, output_lapsed, erase_output,
}
use soloscale_ai_os.ResumeCloud.Repository.{expire_one, is_selected}
use soloscale_ai_os.ResumeCloud.Repository.Rows.{
  All-update_where, Grows-update_where, Grows-refl, Grows-trans,
}
use soloscale_ai_os.ResumeCloud.Repository.RowSteps.{
  IsSound, Follows, Follows-refl, Follows-trans, Keeps, Keeps-expire, Keeps-erase, Keeps-narrow,
}

-- the primary key of the tasks table
abbrev pub UniqueIds : List Task → Type 0
UniqueIds [] = Unit
UniqueIds (t ∷ ts) = (any (has_id t.id) ts ≡ false) × UniqueIds ts

-- Every row is sound, and no two have one id.
pub record IsSoundTable (tasks : List Task) : Type 0 where
  pub rows : All IsSound tasks
  pub ids : UniqueIds tasks

-- The table after a transaction is sound, and every row of before is there and follows its life.
pub record Continues (before after : List Task) : Type 0 where
  pub sound : IsSoundTable after
  pub grows : Grows Follows before after

any-id-update :
    (p : Task → Bool) (f : Task → Task) (id : ℕ) (ts : List Task)
    → Grows Follows ts (update_where p f ts)
    → any (has_id id) (update_where p f ts) ≡ any (has_id id) ts
any-id-update p f id [] g = refl
any-id-update p f id (t ∷ ts) (g, gs) =
    ap₂ (λ a b. (a == id) || b) g.same_id (any-id-update p f id ts gs)

UniqueIds-update :
    (p : Task → Bool) (f : Task → Task) (ts : List Task)
    → Grows Follows ts (update_where p f ts)
    → UniqueIds ts
    → UniqueIds (update_where p f ts)
UniqueIds-update p f [] g u = tt
UniqueIds-update p f (t ∷ ts) (g, gs) (u, us) = (
  ap (λ i. any (has_id i) (update_where p f ts)) g.same_id ∙ any-id-update p f t.id ts gs ∙ u,
  UniqueIds-update p f ts gs us,
)

pub update-Continues :
    {p : Task → Bool} {f : Task → Task} (ts : List Task)
    → Keeps p f
    → IsSoundTable ts
    → Continues ts (update_where p f ts)
update-Continues {p} {f} ts k h =
    let grows = Grows-update_where IsSound Follows p f ts Follows-refl k.follows h.rows in
    record {
      sound = record {
        rows = All-update_where IsSound p f ts k.sound h.rows;
        ids = UniqueIds-update p f ts grows h.ids;
      };
      grows = grows;
    }

pub Continues-refl : (ts : List Task) → IsSoundTable ts → Continues ts ts
Continues-refl ts h = record { sound = h; grows = Grows-refl Follows Follows-refl ts }

pub Continues-trans : (ts us vs : List Task) → Continues ts us → Continues us vs → Continues ts vs
Continues-trans ts us vs p q = record {
  sound = q.sound;
  grows = Grows-trans Follows Follows-trans ts us vs p.grows q.grows;
}

and_right : (a b : Bool) → a && b ≡ true → b ≡ true
and_right a b h = ground arith

pub then-update :
    {p : Task → Bool} {f : Task → Task} {ts us : List Task}
    → Keeps p f
    → Continues ts us
    → Continues ts (update_where p f us)
then-update {p} {f} {ts} {us} k c =
    Continues-trans ts us (update_where p f us) c (update-Continues us k c.sound)

pub expire_one-Continues :
    (now id : ℕ) (ts : List Task) → IsSoundTable ts → Continues ts (expire_one now id ts)
unfolding expire_one
expire_one-Continues now id ts h =
    then-update
      (Keeps-narrow (output_lapsed now) (λ t. has_id id t && output_lapsed now t) (erase_output now)
        (λ t. and_right (has_id id t) (output_lapsed now t)) (Keeps-erase now))
      (update-Continues ts
        (Keeps-narrow (input_lapsed now) (λ t. has_id id t && input_lapsed now t)
          (set_failed now "INPUT_EXPIRED") (λ t. and_right (has_id id t) (input_lapsed now t))
          (Keeps-expire now "INPUT_EXPIRED"))
        h)

-- the sweeps of `recover_and_cleanup`
pub selected-Keeps :
    {lapsed : Task → Bool} {set : Task → Task} (key : Task → ℕ) (ts : List Task)
    → Keeps lapsed set
    → Keeps (is_selected lapsed key ts) set
unfolding is_selected
selected-Keeps {lapsed} {set} key ts k =
    Keeps-narrow lapsed (is_selected lapsed key ts) set (λ t g. and_right _ (lapsed t) g) k
