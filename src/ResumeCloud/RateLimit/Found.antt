-- ===== src/ResumeCloud/RateLimit/Found.antt =====
-- The row that a call finds or makes, and the row that it leaves.
use soloscale_ai_os.Prelude.{
  ℕ, ◌*◌, ◌≡◌, refl, ap, Bool, true, false, Option, none, some, List, [], ◌∷◌, ◌++◌, any, String,
  str_eq, str_eq_refl, some_inj, arith, Bool-cases, inl, inr,
}
use soloscale_ai_os.ResumeCloud.Models.{RateLimit}
use soloscale_ai_os.ResumeCloud.Table.{update_where}
use soloscale_ai_os.ResumeCloud.RateLimit.{
  token, RatePolicy, spend, ensure, verdict, row_of, consume_rate_limit,
}

-- the row that a call finds or makes
abbrev pub fresh : RatePolicy → ℕ → String → RateLimit
fresh policy now client_id = record {
  client_id = client_id;
  tokens = policy.capacity * token;
  updated_at = now;
  last_allowed = false;
}

abbrev pub or_fresh : RatePolicy → ℕ → String → Option RateLimit → RateLimit
or_fresh policy now client_id none = fresh policy now client_id
or_fresh policy now client_id (some row) = row

abbrev pub bucket : RatePolicy → ℕ → String → List RateLimit → RateLimit
bucket policy now client_id rows = or_fresh policy now client_id (row_of client_id rows)

abbrev pub is_of : String → RateLimit → Bool
is_of client_id row = str_eq row.client_id client_id

row_of-append :
    (client_id : String) (row : RateLimit) (rows : List RateLimit)
    → any (is_of client_id) rows ≡ false
    → str_eq row.client_id client_id ≡ true
    → (row_of client_id rows ≡ none) × (row_of client_id (rows ++ row ∷ []) ≡ some row)
row_of-append client_id row [] h own = (refl, ground arith)
row_of-append client_id row (r ∷ rows) h own =
    let rest = row_of-append client_id row rows (ground arith) own in
    (ground (arith, rest.0), ground (arith, rest.1))

row_of-any :
    (client_id : String) (rows : List RateLimit)
    → any (is_of client_id) rows ≡ true
    → (row : RateLimit) × (row_of client_id rows ≡ some row)
row_of-any client_id [] h = absurd (ground arith)
row_of-any client_id (r ∷ rows) h = elim (Bool-cases (is_of client_id r)) [
  | inl own ↦ (r, rw own refl)
  | inr other ↦ let (row, found) = row_of-any client_id rows (ground arith) in (row, rw other found)
]

row_of-ensure :
    (policy : RatePolicy) (now : ℕ) (client_id : String) (rows : List RateLimit)
    → row_of client_id (ensure policy now client_id rows) ≡ some (bucket policy now client_id rows)
row_of-ensure policy now client_id rows = elim (Bool-cases (any (is_of client_id) rows)) [
  | inl there ↦ let (row, found) = row_of-any client_id rows there in rw (there, found) refl
  | inr absent ↦
      let (nothing, made) =
        row_of-append client_id (fresh policy now client_id) rows absent (str_eq_refl client_id) in
      rw (absent, nothing) made
]

row_of-spend :
    (policy : RatePolicy) (now : ℕ) (client_id : String) (rows : List RateLimit) (row : RateLimit)
    → row_of client_id rows ≡ some row
    → row_of client_id (update_where (is_of client_id) (spend policy now) rows)
      ≡ some (spend policy now row)
unfolding spend
row_of-spend policy now client_id [] row h = cc
row_of-spend policy now client_id (r ∷ rows) row h = elim (Bool-cases (is_of client_id r)) [
  | inl own ↦ rw (own, own) (ap (λ x. some (spend policy now x)) (some_inj (rw own at h)))
  | inr other ↦ rw (other, other) (row_of-spend policy now client_id rows row (rw other at h))
]

-- the row after a call, and its verdict
pub row_of-consume :
    (policy : RatePolicy) (now : ℕ) (client_id : String) (rows : List RateLimit)
    → row_of client_id (consume_rate_limit policy now client_id rows).1
      ≡ some (spend policy now (bucket policy now client_id rows))
unfolding consume_rate_limit
row_of-consume policy now client_id rows =
    row_of-spend policy now client_id (ensure policy now client_id rows)
      (bucket policy now client_id rows) (row_of-ensure policy now client_id rows)

pub consume_lem :
    (policy : RatePolicy) (now : ℕ) (client_id : String) (rows : List RateLimit)
    → (consume_rate_limit policy now client_id rows).0
      ≡ verdict policy (some (spend policy now (bucket policy now client_id rows)))
unfolding consume_rate_limit
consume_lem policy now client_id rows =
    ap (verdict policy) (row_of-consume policy now client_id rows)
