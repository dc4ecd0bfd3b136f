-- ===== src/ResumeCloud/Repository/Candidates.antt =====
-- The row that a claim picks, and the row that a creation adds.
use soloscale_ai_os.Prelude.{
  ℕ, ◌≡◌, refl, sym, subst, inl, inr, Bool, true, false, not, ◌&&◌, some, List, [], ◌∷◌, ◌++◌, All,
  any, ◌==◌, arith,
}
use soloscale_ai_os.ResumeCloud.Models.{Task}
use soloscale_ai_os.ResumeCloud.Table.{update_where}
use soloscale_ai_os.ResumeCloud.Repository
use soloscale_ai_os.ResumeCloud.Repository.{NewTask, inserted, set_completed}
use soloscale_ai_os.ResumeCloud.Repository.Statements.{has_id, is_candidate, may_claim, set_claimed}
use soloscale_ai_os.ResumeCloud.Repository.Rows.{Member, update_where-congr, first-order_by}
use soloscale_ai_os.ResumeCloud.Repository.RowSteps.{Keeps, Keeps-claim, Keeps-narrow}
use soloscale_ai_os.ResumeCloud.Repository.TableSteps.{UniqueIds}

pub and_left : (a b : Bool) → a && b ≡ true → a ≡ true
and_left a b h = ground arith

-- The candidate is a stored row that waits in the queue, and that nobody has locked.
pub candidate_lem :
    (now : ℕ) (locked : ℕ → Bool) (ts : List Task) (c : Task)
    → Repository.candidate now locked ts ≡ some c
    → Member c ts × (is_candidate now c && not (locked c.id) ≡ true)
unfolding Repository.candidate
candidate_lem now locked ts c h =
    first-order_by (λ t. t.created_at) (λ t. is_candidate now t && not (locked t.id)) ts c h

-- The rows with the candidate's id are the candidate: the claim's condition may as well name its state.
abbrev claimable : ℕ → ℕ → Task → Bool
claimable now id t = is_candidate now t && may_claim id t

distinct :
    (id : ℕ) (c : Task) (ts : List Task)
    → any (has_id id) ts ≡ false
    → Member c ts
    → has_id id c ≡ false
distinct id c [] fresh m = absurd m.1
distinct id c (t ∷ ts) fresh (inl e) = ground arith
distinct id c (t ∷ ts) fresh (inr m) = distinct id c ts (ground arith) m

other : (now : ℕ) (c t : Task) → has_id t.id c ≡ false → may_claim c.id t ≡ claimable now c.id t
unfolding may_claim
other now c t h = ground arith

others :
    (now id : ℕ) (ts : List Task)
    → any (has_id id) ts ≡ false
    → All (λ t. may_claim id t ≡ claimable now id t) ts
unfolding may_claim
others now id [] h = tt
others now id (t ∷ ts) h = (ground arith, others now id ts (ground arith))

same_condition :
    (now : ℕ) (c : Task) (ts : List Task)
    → UniqueIds ts
    → Member c ts
    → is_candidate now c ≡ true
    → All (λ t. may_claim c.id t ≡ claimable now c.id t) ts
same_condition now c [] u m waits = tt
same_condition now c (t ∷ ts) (fresh, us) (inl e) waits = (
  rw (← e, waits),
  others now c.id ts (subst (λ (x : Task). any (has_id x.id) ts ≡ false) (sym e) fresh),
)
same_condition now c (t ∷ ts) (fresh, us) (inr m) waits =
    (other now c t (distinct t.id c ts fresh m), same_condition now c ts us m waits)

pub claim_update :
    (now : ℕ) (set : Task → Task) (ts : List Task) (c : Task)
    → UniqueIds ts
    → Member c ts
    → is_candidate now c ≡ true
    → update_where (may_claim c.id) set ts ≡ update_where (claimable now c.id) set ts
claim_update now set ts c u m waits =
    update_where-congr (may_claim c.id) (claimable now c.id) set ts
      (same_condition now c ts u m waits)

pub claim_row-Keeps :
    (now token lease_seconds id : ℕ)
    → Keeps (claimable now id) (set_claimed now token lease_seconds)
claim_row-Keeps now token lease_seconds id =
    Keeps-narrow (is_candidate now) (claimable now id) (set_claimed now token lease_seconds)
      (λ t g. and_left (is_candidate now t) (may_claim id t) g)
      (Keeps-claim now token lease_seconds)

pub UniqueIds-append :
    (row : Task) (ts : List Task)
    → any (has_id row.id) ts ≡ false
    → UniqueIds ts
    → UniqueIds (ts ++ row ∷ [])
UniqueIds-append row [] fresh u = (refl, tt)
UniqueIds-append row (t ∷ ts) fresh (u, us) =
    (any-id-append t.id row ts u (ground arith), UniqueIds-append row ts (ground arith) us)
  where
    any-id-append :
        (id : ℕ) (row : Task) (ts : List Task)
        → any (has_id id) ts ≡ false
        → (row.id == id) ≡ false
        → any (has_id id) (ts ++ row ∷ []) ≡ false
    any-id-append id row [] h k = ground arith
    any-id-append id row (x ∷ xs) h k = ground (arith, any-id-append id row xs)
