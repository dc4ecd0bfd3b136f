-- ===== src/Prelude/Names.antt =====
-- Lists of names as Python's sets and dicts read them: membership, uniqueness, `dict.fromkeys`.
use Prim.Native.String.{String}
use mathlib.Core.Path.{◌≡◌, refl, sym, ap, subst, ◌∙◌}
use mathlib.Core.Logic.{◌⊎◌, inl, inr}
use mathlib.Core.Bool.{Bool, true, false, not, ◌&&◌, ◌||◌}
use mathlib.Core.List.{List, [], ◌∷◌, ◌++◌, reverse, reverse-cons}
use native.Mathlib.Omega.{arith}
use text.Mathlib.Text.{◌==◌ as str_eq}
use text.Mathlib.TextEquality.{eq_iff}
use soloscale_ai_os.Prelude.Tests.{if◌then◌else◌, Bool-cases}
use soloscale_ai_os.Prelude.Lists.{any, all, filter_by}

-- `name in names`
unfoldable pub contains : String → List String → Bool
contains name names = any (str_eq name) names

-- `set(names) <= set(others)`
unfoldable pub subset : List String → List String → Bool
unfolding contains
subset names others = all (λ n. contains n others) names

-- `len(names) == len(set(names))`
unfoldable pub is_unique : List String → Bool
unfolding contains
is_unique [] = true
is_unique (n ∷ ns) = not (contains n ns) && is_unique ns

-- `names.remove(name)` of a set
unfoldable pub without : String → List String → List String
without name names = filter_by (λ n. not (str_eq n name)) names

unfoldable pub keep_new : List String → List String → List String
unfolding contains
keep_new seen [] = []
keep_new seen (n ∷ ns) =
    let rest = keep_new seen ns in
    let kept = n ∷ keep_new (n ∷ seen) ns in if contains n seen then rest else kept

-- `list(dict.fromkeys(names))`
unfoldable pub dedupe : List String → List String
unfolding keep_new
dedupe names = keep_new [] names

pub contains-cons :
    (x y : String) (ys : List String)
    → contains x (y ∷ ys) ≡ true
    → (x ≡ y) ⊎ (contains x ys ≡ true)
unfolding contains
contains-cons x y ys h = ground (arith, eq_iff x y)

pub contains-nil {ℓ} : {A : Type ℓ} (x : String) → contains x [] ≡ true → A
unfolding contains
contains-nil x h = absurd (ground arith)

pub contains_eq : (x y : String) (ys : List String) → x ≡ y → contains x (y ∷ ys) ≡ true
unfolding contains
contains_eq x y ys e = ground (arith, eq_iff x y)

-- A name of one list is not the head of another when the head is not in the first.
pub contains_neither :
    (x y : String) (xs ys : List String)
    → contains x xs ≡ true
    → contains y xs ≡ false
    → contains x ys ≡ false
    → contains x (y ∷ ys) ≡ false
unfolding contains
contains_neither x y xs ys h n m = elim (Bool-cases (str_eq x y)) [
  | inl e ↦ absurd (cc ((eq_iff x y).0 e, h, n))
  | inr ne ↦ ground arith
]

pub contains_here : (x : String) (ys : List String) → contains x (x ∷ ys) ≡ true
unfolding contains
contains_here x ys = ground (arith, eq_iff x x)

pub contains_there :
    (x y : String) (ys : List String) → contains x ys ≡ true → contains x (y ∷ ys) ≡ true
unfolding contains
contains_there x y ys h = ground arith

pub contains_later :
    (x y : String) (ys : List String) → contains x (y ∷ ys) ≡ false → contains x ys ≡ false
unfolding contains
contains_later x y ys h = ground arith

pub contains-append :
    (x : String) (xs ys : List String) → contains x (xs ++ ys) ≡ (contains x xs || contains x ys)
unfolding contains
contains-append x [] ys = refl
contains-append x (y ∷ xs) ys = ground (arith, contains-append x xs ys)

pub subset_mem :
    (xs ys : List String) (x : String)
    → subset xs ys ≡ true
    → contains x xs ≡ true
    → contains x ys ≡ true
unfolding contains subset
subset_mem [] ys x h m = ground arith
subset_mem (y ∷ xs) ys x h m = ground (arith, eq_iff x y, subset_mem xs ys x)

pub subset_of :
    (xs ys : List String)
    → ((x : String) → contains x xs ≡ true → contains x ys ≡ true)
    → subset xs ys ≡ true
unfolding subset
subset_of [] ys h = refl
subset_of (x ∷ xs) ys h =
    ground (arith, h x (contains_here x xs), subset_of xs ys (λ y m. h y (contains_there y x xs m)))

without_absent : (x : String) (xs : List String) → contains x xs ≡ false → without x xs ≡ xs
unfolding without contains
without_absent x [] h = refl
without_absent x (y ∷ xs) h = ground (arith, eq_iff x y, eq_iff y x, without_absent x xs)

pub without_head : (x : String) (xs : List String) → contains x xs ≡ false → without x (x ∷ xs) ≡ xs
unfolding without
without_head x xs h = ground (arith, eq_iff x x, without_absent x xs)

contains-keep_new :
    (y : String) (seen xs : List String)
    → (contains y (keep_new seen xs) || contains y seen) ≡ (contains y xs || contains y seen)
unfolding contains keep_new
contains-keep_new y seen [] = refl
contains-keep_new y seen (x ∷ xs) =
    ground (arith, eq_iff y x, contains-keep_new y seen xs, contains-keep_new y (x ∷ seen) xs)

-- Removing repeated names leaves the same names.
pub contains-dedupe : (y : String) (xs : List String) → contains y (dedupe xs) ≡ contains y xs
unfolding dedupe contains
contains-dedupe y xs = ground (arith, contains-keep_new y [] xs)

pub contains-reverse : (x : String) (xs : List String) → contains x (reverse xs) ≡ contains x xs
unfolding contains
contains-reverse x [] = refl
contains-reverse x (y ∷ xs) =
    ap (contains x) (reverse-cons y xs)
    ∙ contains-append x (reverse xs) (y ∷ [])
    ∙ ground (arith, contains-reverse x xs)

contains_other :
    (x y : String) (xs : List String) → contains y (x ∷ xs) ≡ false → contains x (y ∷ []) ≡ false
unfolding contains
contains_other x y xs h = ground (arith, eq_iff x y, eq_iff y x)

is_unique-last :
    (xs : List String) (y : String)
    → is_unique xs ≡ true
    → contains y xs ≡ false
    → is_unique (xs ++ y ∷ []) ≡ true
unfolding is_unique
is_unique-last [] y u n = ground arith
is_unique-last (x ∷ xs) y u n = ground (
  arith,
  is_unique-last xs y,
  contains-append x xs (y ∷ []),
  contains_later y x xs n,
  contains_other x y xs n,
)

pub is_unique-reverse : (xs : List String) → is_unique xs ≡ true → is_unique (reverse xs) ≡ true
unfolding is_unique
is_unique-reverse [] u = refl
is_unique-reverse (x ∷ xs) u =
    subst (λ l. is_unique l ≡ true) (sym (reverse-cons x xs))
      (is_unique-last (reverse xs) x (is_unique-reverse xs (ground arith))
        (contains-reverse x xs ∙ ground arith))

pub contains-without :
    (x y : String) (xs : List String)
    → contains x (without y xs) ≡ (contains x xs && not (str_eq x y))
unfolding contains without
contains-without x y [] = refl
contains-without x y (z ∷ xs) =
    ground (arith, eq_iff x z, eq_iff x y, eq_iff z y, contains-without x y xs)

pub is_unique-without :
    (y : String) (xs : List String) → is_unique xs ≡ true → is_unique (without y xs) ≡ true
unfolding is_unique without
is_unique-without y [] u = refl
is_unique-without y (x ∷ xs) u = ground (arith, is_unique-without y xs, contains-without x y xs)
