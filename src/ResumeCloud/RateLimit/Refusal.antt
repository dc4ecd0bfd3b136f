-- ===== src/ResumeCloud/RateLimit/Refusal.antt =====
-- What a refused call leaves in the bucket, and what it is told.
use soloscale_ai_os.Prelude.{
  ℕ, ◌-◌, ◌*◌, ◌/◌, ◌≤◌, ◌<◌, ◌≡◌, refl, ap, sym, ◌∙◌, subst, Bool, true, false, Option, none, some,
  List, [], ◌∷◌, All, String, some_inj, leb, min, arith, Bool-cases, inl, inr,
}
use soloscale_ai_os.ResumeCloud.Models.{RateLimit}
use soloscale_ai_os.ResumeCloud.RateLimit.{token, RatePolicy, available, spend, verdict, row_of}
use soloscale_ai_os.ResumeCloud.RateLimit.Found.{or_fresh, bucket, is_of}

-- no recorded instant is later
abbrev pub IsPast : ℕ → List RateLimit → Type 0
IsPast now rows = All (λ row. row.updated_at ≤ now) rows

pub row_of-IsPast :
    (now : ℕ) (client_id : String) (rows : List RateLimit) (row : RateLimit)
    → IsPast now rows
    → row_of client_id rows ≡ some row
    → row.updated_at ≤ now
row_of-IsPast now client_id [] row past h = cc
row_of-IsPast now client_id (r ∷ rows) row past h = elim (Bool-cases (is_of client_id r)) [
  | inl own ↦ subst (λ x. x.updated_at ≤ now) (some_inj (rw own at h)) past.0
  | inr other ↦ row_of-IsPast now client_id rows row past.1 (rw other at h)
]

pub bucket-IsPast :
    (policy : RatePolicy) (now : ℕ) (client_id : String) (rows : List RateLimit)
    → IsPast now rows
    → (bucket policy now client_id rows).updated_at ≤ now
bucket-IsPast policy now client_id rows past = at (row_of client_id rows) refl
  where
    at :
        (o : Option RateLimit)
        → row_of client_id rows ≡ o
        → (or_fresh policy now client_id o).updated_at ≤ now
    at none h = omega arith
    at (some row) h = row_of-IsPast now client_id rows row past h

-- what a refused call leaves in the bucket, and what it is told
pub refused_lem :
    (policy : RatePolicy) (now : ℕ) (row : RateLimit) (wait : ℕ)
    → row.updated_at ≤ now
    → verdict policy (some (spend policy now row)) ≡ (false, wait)
    → let next = spend policy now row in
      (available policy now row < token)
      × (next.tokens ≡ available policy now row)
      × (next.updated_at ≡ now)
      × (wait ≡ (token - available policy now row) / policy.refill_per_second)
unfolding spend
refused_lem policy now row wait past h =
    let refused : leb token (available policy now row) ≡ false = ap (λ (v : Bool × ℕ). v.0) h in
    let told = ap (λ (v : Bool × ℕ). v.1) h in
    let kept : available policy now row - 0 ≡ available policy now row = omega arith in
    (
      ground arith,
      rw refused kept,
      omega arith,
      sym told ∙ rw refused (ap (λ t. (token - t) / policy.refill_per_second) kept),
    )

pub allowed_lem :
    (policy : RatePolicy) (now : ℕ) (row : RateLimit)
    → (spend policy now row).last_allowed ≡ leb token (available policy now row)
unfolding spend
allowed_lem policy now row = refl

available_at :
    (policy : RatePolicy) (now : ℕ) (row : RateLimit)
    → row.updated_at ≡ now
    → available policy now row ≡ min (policy.capacity * token) row.tokens
unfolding available
available_at policy now row same =
    let none_passed : now - row.updated_at ≡ 0 = omega (arith, same) in
    rw none_passed (ground arith)

capped :
    (policy : RatePolicy) (now : ℕ) (row : RateLimit) (n : ℕ)
    → n ≡ available policy now row
    → min (policy.capacity * token) n ≡ available policy now row
unfolding available
capped policy now row n same = ground (arith, same)

-- At the same instant the bucket holds what the call has left in it.
pub again_available :
    (policy : RatePolicy) (now : ℕ) (row : RateLimit)
    → (spend policy now row).tokens ≡ available policy now row
    → (spend policy now row).updated_at ≡ now
    → available policy now (spend policy now row) ≡ available policy now row
again_available policy now row tokens updated =
    available_at policy now (spend policy now row) updated
    ∙ capped policy now row (spend policy now row).tokens tokens

pub leb-true : {a b : ℕ} → a ≤ b → leb a b ≡ true
leb-true h = ground (arith, h)

pub leb-false : {a b : ℕ} → b < a → leb a b ≡ false
leb-false h = ground (arith, h)
