-- ===== src/Prelude/Lists.antt =====
-- Lists over the native numbers, predicates on all members, and Boolean searches.
use Prim.Native.Nat.{ℕ, suc, ◌+◌}
use mathlib.Core.Path.{◌≡◌, refl, subst, ap}
use mathlib.Core.Logic.{inl, inr}
use mathlib.Core.Bool.{Bool, true, false, ◌&&◌, ◌||◌}
use mathlib.Core.Option.{Option, none, some}
use mathlib.Core.List.{List, [], ◌∷◌, ◌++◌}
use native.Mathlib.Omega.{arith}
use soloscale_ai_os.Prelude.Tests.{if◌then◌else◌, Bool-cases}

pub some_inj {ℓ} : {A : Type ℓ} {a b : A} → Path (Option A) (some a) (some b) → a ≡ b
some_inj {a} h = ap (λ o. elim o [ none ↦ a | some c ↦ c ]) h

module _ {ℓ} {A : Type ℓ} where
  abbrev pub length : List A → ℕ
  length [] = 0
  length (x ∷ xs) = suc (length xs)

  -- `xs[-1]` of a list that may be empty
  abbrev pub last? : List A → Option A
  last? [] = none
  last? (x ∷ []) = some x
  last? (x ∷ y ∷ ys) = last? (y ∷ ys)

  -- `[x for x in xs if p(x)]`
  abbrev pub filter_by : (A → Bool) → List A → List A
  filter_by p [] = []
  filter_by p (x ∷ xs) = let rest = filter_by p xs in if p x then x ∷ rest else rest

  -- `next((x for x in xs if p(x)), None)`
  abbrev pub find_by : (A → Bool) → List A → Option A
  find_by p [] = none
  find_by p (x ∷ xs) = if p x then some x else find_by p xs

  abbrev pub any : (A → Bool) → List A → Bool
  any p [] = false
  any p (x ∷ xs) = p x || any p xs

  abbrev pub all : (A → Bool) → List A → Bool
  all p [] = true
  all p (x ∷ xs) = p x && all p xs

  abbrev pub All {κ} : (A → Type κ) → List A → Type κ
  All P [] = Unit
  All P (x ∷ xs) = P x × All P xs

  pub length-append : (xs ys : List A) → length (xs ++ ys) ≡ length xs + length ys
  length-append [] ys = omega arith
  length-append (x ∷ xs) ys = omega (arith, length-append xs ys)

  pub last?-append : (xs : List A) (y : A) → last? (xs ++ y ∷ []) ≡ some y
  last?-append [] y = refl
  last?-append (x ∷ []) y = refl
  last?-append (x ∷ z ∷ xs) y = last?-append (z ∷ xs) y

  pub filter_by-append :
      (p : A → Bool) (xs ys : List A) → filter_by p (xs ++ ys) ≡ filter_by p xs ++ filter_by p ys
  filter_by-append p [] ys = refl
  filter_by-append p (x ∷ xs) ys = ground (arith, filter_by-append p xs ys)

  pub All-append {κ} : (P : A → Type κ) (xs ys : List A) → All P xs → All P ys → All P (xs ++ ys)
  All-append P [] ys hx hy = hy
  All-append P (x ∷ xs) ys hx hy = (hx.0, All-append P xs ys hx.1 hy)

  pub find_by_sound : (p : A → Bool) (xs : List A) (x : A) → find_by p xs ≡ some x → p x ≡ true
  find_by_sound p [] x h = ground arith
  find_by_sound p (y ∷ xs) x h = ground (arith, find_by_sound p xs x)

  pub find_by-All {κ} :
      (P : A → Type κ) (p : A → Bool) (xs : List A) (x : A) → All P xs → find_by p xs ≡ some x → P x
  find_by-All P p [] x h e = absurd (ground arith)
  find_by-All P p (y ∷ xs) x h e = elim (Bool-cases (p y)) [
    | inl holds ↦ subst P (some_inj (ground arith)) h.0
    | inr fails ↦ find_by-All P p xs x h.1 (ground arith)
  ]

  pub filter_by-All {κ} :
      (P : A → Type κ) (p : A → Bool) (xs : List A) → All P xs → All P (filter_by p xs)
  filter_by-All P p [] h = tt
  filter_by-All P p (x ∷ xs) h = elim (Bool-cases (p x)) [
    | inl holds ↦ rw holds (h.0, filter_by-All P p xs h.1)
    | inr fails ↦ rw fails (filter_by-All P p xs h.1)
  ]

  pub All-imp {κ μ} :
      {P : A → Type κ} {Q : A → Type μ}
      → ((x : A) → P x → Q x)
      → (xs : List A) → All P xs
      → All Q xs
  All-imp f [] h = tt
  All-imp f (x ∷ xs) h = (f x h.0, All-imp f xs h.1)

  pub All-all : (p : A → Bool) (xs : List A) → all p xs ≡ true → All (λ x. p x ≡ true) xs
  All-all p [] h = tt
  All-all p (x ∷ xs) h = (ground arith, All-all p xs (ground arith))

  pub all-All : (p : A → Bool) (xs : List A) → All (λ x. p x ≡ true) xs → all p xs ≡ true
  all-All p [] h = refl
  all-All p (x ∷ xs) h = ground (arith, all-All p xs h.1, h.0)
