-- ===== src/ResumeCloud/Repository/Rows.antt =====
-- Properties that hold of all rows of a table, and relations between a table before and after.
use soloscale_ai_os.Prelude.{
  ℕ, ◌≡◌, refl, ◌⊎◌, inl, inr, Bool, true, false, some, List, [], ◌∷◌, ◌++◌, All, any, filter_by,
  leb, arith, Bool-cases,
}
use soloscale_ai_os.ResumeCloud.Table.{update_where, first, insert_by, order_by, Grows}

module _ {ℓ} {A : Type ℓ} where
  abbrev pub Member : A → List A → Type ℓ
  Member x [] = Unit × ⊥
  Member x (y ∷ ys) = (x ≡ y) ⊎ Member x ys

  pub All-update_where :
      (P : A → Type 0) (p : A → Bool) (f : A → A) (xs : List A)
      → ((x : A) → p x ≡ true → P x → P (f x))
      → All P xs
      → All P (update_where p f xs)
  All-update_where P p f [] keep h = tt
  All-update_where P p f (x ∷ xs) keep (hx, hs) = elim (Bool-cases (p x)) [
    | inl met ↦ (rw met (keep x met hx), All-update_where P p f xs keep hs)
    | inr other ↦ (rw other hx, All-update_where P p f xs keep hs)
  ]

  pub Grows-update_where :
      (P : A → Type 0) (R : A → A → Type 0) (p : A → Bool) (f : A → A) (xs : List A)
      → ((x : A) → R x x)
      → ((x : A) → p x ≡ true → P x → R x (f x))
      → All P xs
      → Grows R xs (update_where p f xs)
  Grows-update_where P R p f [] same move h = tt
  Grows-update_where P R p f (x ∷ xs) same move (hx, hs) = elim (Bool-cases (p x)) [
    | inl met ↦ (rw met (move x met hx), Grows-update_where P R p f xs same move hs)
    | inr other ↦ (rw other (same x), Grows-update_where P R p f xs same move hs)
  ]

  pub Grows-refl : (R : A → A → Type 0) → ((x : A) → R x x) → (xs : List A) → Grows R xs xs
  Grows-refl R same [] = tt
  Grows-refl R same (x ∷ xs) = (same x, Grows-refl R same xs)

  pub Grows-append :
      (R : A → A → Type 0) → ((x : A) → R x x) → (xs ys : List A) → Grows R xs (xs ++ ys)
  Grows-append R same [] ys = tt
  Grows-append R same (x ∷ xs) ys = (same x, Grows-append R same xs ys)

  pub Grows-trans :
      (R : A → A → Type 0)
      → ((x y z : A) → R x y → R y z → R x z)
      → (xs ys zs : List A) → Grows R xs ys
      → Grows R ys zs
      → Grows R xs zs
  Grows-trans R compose [] ys zs p q = tt
  Grows-trans R compose (x ∷ xs) [] zs p q = absurd p
  Grows-trans R compose (x ∷ xs) (y ∷ ys) [] p q = absurd q
  Grows-trans R compose (x ∷ xs) (y ∷ ys) (z ∷ zs) (p, ps) (q, qs) =
      (compose x y z p q, Grows-trans R compose xs ys zs ps qs)

  -- Two conditions that agree on every row make the same update.
  pub update_where-congr :
      (p q : A → Bool) (f : A → A) (xs : List A)
      → All (λ x. p x ≡ q x) xs
      → update_where p f xs ≡ update_where q f xs
  update_where-congr p q f [] h = refl
  update_where-congr p q f (x ∷ xs) (h, hs) = rw (h, update_where-congr p q f xs hs)

  -- An update that meets no row changes nothing.
  pub update_where-none :
      (p : A → Bool) (f : A → A) (xs : List A) → any p xs ≡ false → update_where p f xs ≡ xs
  update_where-none p f [] h = refl
  update_where-none p f (x ∷ xs) h = ground (arith, update_where-none p f xs)

  member-first : (xs : List A) (x : A) → first xs ≡ some x → Member x xs
  member-first [] x h = cc
  member-first (y ∷ ys) x h = inl (cc h)

  member-insert_by :
      (key : A → ℕ) (y : A) (ys : List A) (x : A)
      → Member x (insert_by key y ys)
      → Member x (y ∷ ys)
  member-insert_by key y [] x m = m
  member-insert_by key y (z ∷ zs) x m = elim (Bool-cases (leb (key y) (key z))) [
    | inl first_place ↦ rw first_place at m
    | inr later ↦ elim (rw later at m) [
      | inl e ↦ inr (inl e)
      | inr n ↦ elim (member-insert_by key y zs x n) [ inl e ↦ inl e | inr k ↦ inr (inr k) ]
    ]
  ]

  member-order_by : (key : A → ℕ) (ys : List A) (x : A) → Member x (order_by key ys) → Member x ys
  member-order_by key [] x m = m
  member-order_by key (y ∷ ys) x m = elim (member-insert_by key y (order_by key ys) x m) [
    | inl e ↦ inl e
    | inr n ↦ inr (member-order_by key ys x n)
  ]

  member-filter_by :
      (p : A → Bool) (ys : List A) (x : A) → Member x (filter_by p ys) → Member x ys × (p x ≡ true)
  member-filter_by p [] x m = absurd m.1
  member-filter_by p (y ∷ ys) x m = elim (Bool-cases (p y)) [
    | inl kept ↦ elim (rw kept at m) [
      | inl e ↦ (inl e, rw e kept)
      | inr n ↦ let (k, h) = member-filter_by p ys x n in (inr k, h)
    ]
    | inr dropped ↦ let (k, h) = member-filter_by p ys x (rw dropped at m) in (inr k, h)
  ]

  -- What ORDER BY … LIMIT 1 finds is a row that meets the condition.
  pub first-order_by :
      (key : A → ℕ) (p : A → Bool) (xs : List A) (x : A)
      → first (order_by key (filter_by p xs)) ≡ some x
      → Member x xs × (p x ≡ true)
  first-order_by key p xs x h =
      member-filter_by p xs x
        (member-order_by key (filter_by p xs) x (member-first (order_by key (filter_by p xs)) x h))
