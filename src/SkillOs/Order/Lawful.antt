-- ===== src/SkillOs/Order/Lawful.antt =====
-- What the order of a request promises: the record `IsDependencyOrder` says it without the walk, and the
-- walk implements it.
use mathlib.Core.List.{reverse, append_assoc, reverse-append, reverse-reverse, reverse-cons}
use soloscale_ai_os.Prelude.{
  ◌≡◌, refl, ◌↔◌, inl, inr, true, false, List, [], ◌∷◌, ◌++◌, ap, sym, subst, ◌∙◌, String, contains,
  subset, is_unique, any, contains-reverse, contains-cons, contains-nil, is_unique-reverse,
  subset_of, subset_mem, Result, ok, raise_if, bind_ok, raise_if_ok, ok_inj, arith, str_eq_iff,
}
use soloscale_ai_os.SkillOs.Models.{SkillError, SkillRegistryEntry, SkillRegistry}
use soloscale_ai_os.SkillOs.Registry.{
  Dependencies, no_marks, get, get_dependencies, visit_each, fuel_of,
}
use soloscale_ai_os.SkillOs.Registry.Visits.{
  Needs, asked, through, IsOrdered, visit_each-Extends, visit-Extends,
}
use soloscale_ai_os.SkillOs.Registry.Ranked.{IsOrdered-closed}
use soloscale_ai_os.SkillOs.Order.{Walk, no_walk, order_visit, check_conflicts, dependency_order}
use soloscale_ai_os.SkillOs.Order.Steps.{forget, walk_lem}

-- A list of names is an order for a request: each name once and behind what it depends on, exactly the
-- names that are needed, and no two of them incompatible.
pub record IsDependencyOrder (registry : SkillRegistry) (explicit order : List String)
    : Type 0 where
  pub sorted :
      (before after : List String) (x : String) (ds : List String)
      → order ≡ before ++ x ∷ after
      → get_dependencies registry x ≡ ok ds
      → subset ds before ≡ true
  pub once : is_unique order ≡ true
  pub exact :
      (x : String) → (contains x order ≡ true) ↔ Needs (get_dependencies registry) explicit x
  pub compatible :
      (x y : String) (e : SkillRegistryEntry)
      → contains x order ≡ true
      → contains y order ≡ true
      → get registry x ≡ ok e
      → contains y e.incompatible_skills ≡ false

any-false :
    (names selected : List String) (y : String)
    → any (λ other. contains other selected) names ≡ false
    → contains y selected ≡ true
    → contains y names ≡ false
unfolding contains
any-false [] selected y h m = refl
any-false (x ∷ names) selected y h m =
    ground (arith, any-false names selected y, (str_eq_iff y x).0, ap (λ z. contains z selected))

check_conflicts_lem :
    (registry : SkillRegistry) (selected names : List String) (x y : String)
    (e : SkillRegistryEntry)
    → check_conflicts registry selected names ≡ ok tt
    → contains x names ≡ true
    → contains y selected ≡ true
    → get registry x ≡ ok e
    → contains y e.incompatible_skills ≡ false
unfolding check_conflicts
check_conflicts_lem registry selected [] x y e h m s found = contains-nil x m
check_conflicts_lem registry selected (n ∷ names) x y e h m s found =
    let (entry, e1, h1) = bind_ok (get registry n) _ h in
    let (u, e2, h2) =
      bind_ok (raise_if (any (λ o. contains o selected) entry.incompatible_skills) _) _ h1 in
    elim (contains-cons x n names m) [
      | inl same ↦
          any-false e.incompatible_skills selected y
            (subst
              (λ (i : SkillRegistryEntry).
                any (λ o. contains o selected) i.incompatible_skills ≡ false)
              (ok_inj (sym e1 ∙ ap (get registry) (sym same) ∙ found)) (raise_if_ok _ _ e2))
            s
      | inr later ↦ check_conflicts_lem registry selected names x y e h2 later s found
    ]

module _ (dependencies : Dependencies) where
  IsOrdered-split :
      (before after : List String) (x : String) (ds : List String)
      → IsOrdered dependencies (before ++ x ∷ after)
      → dependencies x ≡ ok ds
      → subset ds after ≡ true
  IsOrdered-split [] after x ds o e =
      subst (λ r. subset r after ≡ true) (ok_inj (sym o.0.0.1 ∙ e)) o.0.0.2
  IsOrdered-split (y ∷ before) after x ds o e = IsOrdered-split before after x ds o.1 e

  IsOrdered-is_unique : (L : List String) → IsOrdered dependencies L → is_unique L ≡ true
  unfolding is_unique
  IsOrdered-is_unique [] o = refl
  IsOrdered-is_unique (x ∷ L) o = ground (arith, IsOrdered-is_unique L o.1, o.0.1)

  Needs-contains :
      (names L : List String)
      → IsOrdered dependencies L
      → ((x : String) → contains x names ≡ true → contains x L ≡ true)
      → {y : String} → Needs dependencies names y
      → contains y L ≡ true
  Needs-contains names L o marks (asked m) = marks _ m
  Needs-contains names L o marks (through need e d) =
      IsOrdered-closed dependencies L _ _ _ o (Needs-contains names L o marks need) e d

module _ (registry : SkillRegistry) (explicit : List String) where
  abbrev pub walk : Result SkillError Walk
  walk = visit_each (order_visit (get_dependencies registry) (fuel_of registry)) explicit no_walk

  -- The returned order of the walk, before the test for conflicts.
  pub walk-order :
      (w : Walk)
      → walk ≡ ok w
      → IsOrdered (get_dependencies registry) (reverse w.ordered)
        × ((x : String)
            → (contains x w.ordered ≡ true) ↔ Needs (get_dependencies registry) explicit x)
  walk-order w h =
      let (marked, log) = walk_lem (get_dependencies registry) (fuel_of registry) explicit w h in
      let done =
        visit_each-Extends (get_dependencies registry) _
          (visit-Extends (get_dependencies registry) (fuel_of registry)) explicit no_marks
          (forget w) marked in
      let ordered = done.ordered tt in
      let member = λ (x : String). ap (contains x) log ∙ contains-reverse x w.visited in
      (
        subst (IsOrdered (get_dependencies registry))
            (sym (ap reverse log ∙ reverse-reverse w.visited)) ordered,
        λ x. (
          λ m. elim (done.needed x (sym (member x) ∙ m)) [
            | inl before ↦ contains-nil x before
            | inr need ↦ need
          ],
          λ need.
              member x
              ∙ Needs-contains (get_dependencies registry) explicit w.visited ordered done.marks
                  need,
        ),
      )

  -- When a dependency order is returned, each name in it stands once and behind its dependencies, it
  -- holds exactly the names that the request asks for or that these need, and no two of its names are
  -- incompatible.
  pub dependency_order-IsDependencyOrder :
      (order : List String)
      → dependency_order registry explicit ≡ ok order
      → IsDependencyOrder registry explicit order
  unfolding dependency_order
  dependency_order-IsDependencyOrder order h =
      let (w, e, h1) = bind_ok walk _ h in
      let (u, checked, h2) = bind_ok (check_conflicts registry w.ordered w.ordered) _ h1 in
      let (ordered, exact) = walk-order w e in
      subst (IsDependencyOrder registry explicit) (ok_inj h2) (record {
        sorted = λ before after x ds split found. subset_of ds before (λ y d.
            sym (contains-reverse y before)
            ∙ subset_mem ds (reverse before) y
                (IsOrdered-split (get_dependencies registry) (reverse after) (reverse before) x ds
                  (subst (IsOrdered (get_dependencies registry))
                    (turn before after x w.ordered split) ordered)
                  found)
                d);
        once =
            subst (λ l. is_unique l ≡ true) (reverse-reverse w.ordered)
              (is_unique-reverse (reverse w.ordered)
                (IsOrdered-is_unique (get_dependencies registry) (reverse w.ordered) ordered));
        exact = exact;
        compatible = λ x y entry mx my found.
            check_conflicts_lem registry w.ordered w.ordered x y entry checked mx my found;
      })
    where
      turn :
          (before after : List String) (x : String) (l : List String)
          → l ≡ before ++ x ∷ after
          → reverse l ≡ reverse after ++ x ∷ reverse before
      turn before after x l split =
          ap reverse split
          ∙ reverse-append before (x ∷ after)
          ∙ ap (λ r. r ++ reverse before) (reverse-cons x after)
          ∙ append_assoc (reverse after) (x ∷ []) (reverse before)
