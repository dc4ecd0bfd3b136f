-- ===== src/SkillOs/Registry/Visits.antt =====
-- What a search that returns has done: each name it was called with is marked, each marked name stands
-- behind what it depends on, nothing is marked that was not needed, and no name is left on the way.
use soloscale_ai_os.Prelude.{
  ◌≡◌, refl, ℕ, zero, suc, ◌⊎◌, inl, inr, true, false, List, [], ◌∷◌, ap, sym, subst, ◌∙◌, without,
  contains-nil, contains_eq, contains_neither, String, contains, subset, contains-cons,
  contains_here, contains_there, subset_of, without_head, Result, ok, ◌>>=◌, bind_ok, arith,
  Bool-cases,
}
use soloscale_ai_os.SkillOs.Models.{SkillError}
use soloscale_ai_os.SkillOs.Registry.{Dependencies, Marks, enter, leave, visit_each, visit}

-- what the names need, themselves included
pub data Needs (dependencies : Dependencies) (names : List String) : String → Type 0 where
  asked : {x : String} → contains x names ≡ true → Needs dependencies names x
  through :
      {x y : String} {ds : List String}
      → Needs dependencies names x
      → dependencies x ≡ ok ds
      → contains y ds ≡ true
      → Needs dependencies names y

module _ (dependencies : Dependencies) where
  -- newest first: what a name depends on stands behind it, and the name itself does not
  abbrev pub IsOrdered : List String → Type 0
  IsOrdered [] = Unit
  IsOrdered (x ∷ rest) =
      (((ds : List String) × (dependencies x ≡ ok ds) × (subset ds rest ≡ true))
        × (contains x rest ≡ false))
      × IsOrdered rest

  pub Needs_mono :
      {xs ys : List String}
      → ((x : String) → contains x xs ≡ true → Needs dependencies ys x)
      → {y : String} → Needs dependencies xs y
      → Needs dependencies ys y
  Needs_mono h (asked m) = h _ m
  Needs_mono h (through n e m) = through (Needs_mono h n) e m

  pub record Extends (names : List String) (before after : Marks) : Type 0 where
    pub kept : after.visiting ≡ before.visiting
    pub ordered : IsOrdered before.visited → IsOrdered after.visited
    pub grows : (y : String) → contains y before.visited ≡ true → contains y after.visited ≡ true
    pub marks : (x : String) → contains x names ≡ true → contains x after.visited ≡ true
    pub fresh :
        (y : String)
        → contains y before.visiting ≡ true
        → contains y before.visited ≡ false
        → contains y after.visited ≡ false
    pub needed :
        (y : String)
        → contains y after.visited ≡ true
        → (contains y before.visited ≡ true) ⊎ Needs dependencies names y

  Extends-nil : (m : Marks) → Extends [] m m
  Extends-nil m = record {
    kept = refl;
    ordered = λ o. o;
    grows = λ y h. h;
    marks = λ x h. contains-nil x h;
    fresh = λ y h n. n;
    needed = λ y h. inl h;
  }

  Extends-cons :
      (x : String) (xs : List String) (m n o : Marks)
      → Extends (x ∷ []) m n
      → Extends xs n o
      → Extends (x ∷ xs) m o
  Extends-cons x xs m n o first rest = record {
    kept = rest.kept ∙ first.kept;
    ordered = λ h. rest.ordered (first.ordered h);
    grows = λ y h. rest.grows y (first.grows y h);
    marks = λ y h. elim (contains-cons y x xs h) [
      | inl e ↦ rest.grows y (first.marks y (contains_eq y x [] e))
      | inr later ↦ rest.marks y later
    ];
    fresh = λ y h n. rest.fresh y (ap (contains y) first.kept ∙ h) (first.fresh y h n);
    needed = λ y h. elim (rest.needed y h) [
      | inl before ↦ elim (first.needed y before) [
        | inl marked ↦ inl marked
        | inr need ↦ inr (Needs_mono (λ z m. asked (only z m)) need)
      ]
      | inr need ↦ inr (Needs_mono (λ z m. asked (contains_there z x xs m)) need)
    ];
  }
    where
      only : (z : String) → contains z (x ∷ []) ≡ true → contains z (x ∷ xs) ≡ true
      only z h = elim (contains-cons z x [] h) [
        | inl e ↦ contains_eq z x xs e
        | inr empty ↦ contains-nil z empty
      ]

  Extends-visited : (x : String) (m : Marks) → contains x m.visited ≡ true → Extends (x ∷ []) m m
  Extends-visited x m marked = record {
    kept = refl;
    ordered = λ o. o;
    grows = λ y h. h;
    marks = λ y h. elim (contains-cons y x [] h) [
      | inl e ↦ ap (λ z. contains z m.visited) e ∙ marked
      | inr empty ↦ contains-nil y empty
    ];
    fresh = λ y h n. n;
    needed = λ y h. inl h;
  }

  Extends-leave :
      (x : String) (ds : List String) (m n : Marks)
      → contains x m.visited ≡ false
      → contains x m.visiting ≡ false
      → dependencies x ≡ ok ds
      → Extends ds (enter x m) n
      → Extends (x ∷ []) m (leave x n)
  Extends-leave x ds m n new out e inner = record {
    kept = ap (without x) inner.kept ∙ without_head x m.visiting out;
    ordered = λ o. (
      ((ds, e, subset_of ds n.visited inner.marks), inner.fresh x (contains_here x _) new),
      inner.ordered o,
    );
    grows = λ y h. contains_there y x n.visited (inner.grows y h);
    marks = λ y h. elim (contains-cons y x [] h) [
      | inl same ↦ contains_eq y x n.visited same
      | inr empty ↦ contains-nil y empty
    ];
    fresh = λ y h absent.
        contains_neither y x m.visiting n.visited h out
          (inner.fresh y (contains_there y x m.visiting h) absent);
    needed = λ y h. elim (contains-cons y x n.visited h) [
      | inl same ↦ inr (asked (contains_eq y x [] same))
      | inr inside ↦ elim (inner.needed y inside) [
        | inl before ↦ inl before
        | inr need ↦ inr (Needs_mono (λ z d. through (asked (contains_here x [])) e d) need)
      ]
    ];
  }

  pub visit_each-Extends :
      (visit_one : String → Marks → Result SkillError Marks)
      → ((x : String) (m n : Marks) → visit_one x m ≡ ok n → Extends (x ∷ []) m n)
      → (names : List String) (m n : Marks) → visit_each visit_one names m ≡ ok n
      → Extends names m n
  unfolding visit_each
  visit_each-Extends visit_one each [] m n h = ground (arith, Extends-nil m)
  visit_each-Extends visit_one each (x ∷ names) m n h =
      let (o, e, h1) = bind_ok (visit_one x m) _ h in
      Extends-cons x names m o n (each x m o e) (visit_each-Extends visit_one each names o n h1)

  pub visit_new :
      (fuel : ℕ) (x : String) (m : Marks)
      → contains x m.visited ≡ false
      → contains x m.visiting ≡ false
      → visit dependencies (suc fuel) x m ≡ (
          dependencies x >>= λ ds.
          visit_each (visit dependencies fuel) ds (enter x m) >>= λ o. ok (leave x o))
  unfolding visit
  visit_new fuel x m new out = ground arith

  pub visit_inside :
      (fuel : ℕ) (x : String) (m : Marks) {ds : List String}
      → contains x m.visited ≡ false
      → contains x m.visiting ≡ false
      → dependencies x ≡ ok ds
      → visit dependencies (suc fuel) x m
        ≡ (visit_each (visit dependencies fuel) ds (enter x m) >>= λ o. ok (leave x o))
  unfolding visit
  visit_inside fuel x m new out e = rw (visit_new fuel x m new out, e) refl

  -- The two ways a visit returns or goes on.
  pub visit-ok :
      (fuel : ℕ) (x : String) (m n : Marks)
      → visit dependencies (suc fuel) x m ≡ ok n
      → ((contains x m.visited ≡ true) × (m ≡ n))
        ⊎ ((contains x m.visited ≡ false)
            × (contains x m.visiting ≡ false)
            × (ds : List String) × (dependencies x ≡ ok ds)
            × (o : Marks) × (visit_each (visit dependencies fuel) ds (enter x m) ≡ ok o)
            × (leave x o ≡ n))
  unfolding visit
  visit-ok fuel x m n h = elim (Bool-cases (contains x m.visited)) [
    | inl seen ↦ inl (seen, ground arith)
    | inr new ↦ elim (Bool-cases (contains x m.visiting)) [
      | inl inside ↦ absurd (ground arith)
      | inr out ↦
          let (ds, e, h1) = bind_ok (dependencies x) _ (sym (visit_new fuel x m new out) ∙ h) in
          let (o, e1, h2) = bind_ok (visit_each (visit dependencies fuel) ds (enter x m)) _ h1 in
          inr (new, out, ds, e, o, e1, ground arith)
    ]
  ]

  pub visit-Extends :
      (fuel : ℕ) (x : String) (m n : Marks)
      → visit dependencies fuel x m ≡ ok n
      → Extends (x ∷ []) m n
  unfolding visit
  visit-Extends zero x m n h = ground arith
  visit-Extends (suc fuel) x m n h = elim (visit-ok fuel x m n h) [
    | inl (seen, e) ↦ subst (Extends (x ∷ []) m) e (Extends-visited x m seen)
    | inr (new, out, ds, e, o, e1, e2) ↦ subst (Extends (x ∷ []) m) e2 (
        Extends-leave x ds m o new out e
          (visit_each-Extends (visit dependencies fuel) (visit-Extends fuel) ds (enter x m) o e1))
  ]
