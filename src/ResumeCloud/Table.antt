-- ===== src/ResumeCloud/Table.antt =====
-- What the SQL statements do to a table, as functions on the list of its rows.
use soloscale_ai_os.Prelude.{
  ℕ, zero, suc, Bool, Option, none, some, List, [], ◌∷◌, map, leb, filter_by, if◌then◌else◌,
}

module _ {ℓ} {A : Type ℓ} where
  -- UPDATE … SET f WHERE p
  abbrev pub update_where : (A → Bool) → (A → A) → List A → List A
  update_where p f [] = []
  update_where p f (x ∷ xs) = (if p x then f x else x) ∷ update_where p f xs

  -- RETURNING of such an update: the rows after it
  abbrev pub returning : (A → Bool) → (A → A) → List A → List A
  returning p f xs = map f (filter_by p xs)

  abbrev pub first : List A → Option A
  first [] = none
  first (x ∷ xs) = some x

  -- ORDER BY key: ties keep the order of the rows
  abbrev pub insert_by : (A → ℕ) → A → List A → List A
  insert_by key x [] = x ∷ []
  insert_by key x (y ∷ ys) = if leb (key x) (key y) then x ∷ y ∷ ys else y ∷ insert_by key x ys

  abbrev pub order_by : (A → ℕ) → List A → List A
  order_by key [] = []
  order_by key (x ∷ xs) = insert_by key x (order_by key xs)

  -- LIMIT n
  abbrev pub take : ℕ → List A → List A
  take zero xs = []
  take (suc n) [] = []
  take (suc n) (x ∷ xs) = x ∷ take n xs

  -- The rows of a table before and after: none is gone, each is related to what it has become, and
  -- new ones stand at the end.
  abbrev pub Grows : (A → A → Type 0) → List A → List A → Type 0
  Grows R [] ys = Unit
  Grows R (x ∷ xs) [] = ⊥
  Grows R (x ∷ xs) (y ∷ ys) = R x y × Grows R xs ys
