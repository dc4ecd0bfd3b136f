-- ===== src/SkillOs/Order/Steps.antt =====
-- The walk does what the validator's search does, and its order is the order of the marks.
use mathlib.Core.List.{reverse, reverse-cons}
use soloscale_ai_os.Prelude.{
  ◌≡◌, refl, ℕ, zero, suc, Bool, true, false, List, [], ◌∷◌, ◌++◌, ap, sym, ◌∙◌, String, contains,
  Result, ok, err, ◌>>=◌, bind_ok, ok_inj, subst, if◌then◌else◌, arith,
}
use soloscale_ai_os.SkillOs.Models.{SkillError, cycle_error}
use soloscale_ai_os.SkillOs.Registry.{
  Dependencies, Marks, no_marks, enter, leave, visit_each, visit,
}
use soloscale_ai_os.SkillOs.Order.{Walk, no_walk, begin_visit, end_visit, order_visit}

-- the marks of a walk
abbrev pub forget : Walk → Marks
forget walk = record { visiting = walk.visiting; visited = walk.visited }

abbrev pub forget_result : Result SkillError Walk → Result SkillError Marks
forget_result (ok walk) = ok (forget walk)
forget_result (err e) = err e

forget-bind :
    (r : Result SkillError Walk) (f : Walk → Result SkillError Walk)
    (g : Marks → Result SkillError Marks)
    → ((w : Walk) → forget_result (f w) ≡ g (forget w))
    → forget_result (r >>= f) ≡ (forget_result r >>= g)
forget-bind (ok w) f g h = h w
forget-bind (err e) f g h = refl

forget-visit_each :
    (f : String → Walk → Result SkillError Walk) (g : String → Marks → Result SkillError Marks)
    → ((x : String) (w : Walk) → forget_result (f x w) ≡ g x (forget w))
    → (names : List String) (w : Walk)
    → forget_result (visit_each f names w) ≡ visit_each g names (forget w)
unfolding visit_each
forget-visit_each f g h [] w = refl
forget-visit_each f g h (x ∷ names) w =
    forget-bind (f x w) _ (λ m. visit_each g names m) (forget-visit_each f g h names)
    ∙ ap (λ r. r >>= λ m. visit_each g names m) (h x w)

module _ (dependencies : Dependencies) where
  pub forget-order_visit :
      (fuel : ℕ) (x : String) (w : Walk)
      → forget_result (order_visit dependencies fuel x w) ≡ visit dependencies fuel x (forget w)
  unfolding order_visit visit
  forget-order_visit zero x w = refl
  forget-order_visit (suc fuel) x w =
      step (contains x w.visited) (contains x w.visiting) (dependencies x) (
        forget-visit_each (order_visit dependencies fuel) (visit dependencies fuel)
          (forget-order_visit fuel))
    where
      step :
          (seen inside : Bool) (r : Result SkillError (List String))
          → ((names : List String) (v : Walk)
              → forget_result (visit_each (order_visit dependencies fuel) names v)
                ≡ visit_each (visit dependencies fuel) names (forget v))
          → forget_result (
              if seen
              then ok w
              else if inside
              then err cycle_error
              else (r >>= λ names.
                  visit_each (order_visit dependencies fuel) names (begin_visit x w) >>= λ done.
                  ok (end_visit x done)))
            ≡ (if seen
                then ok (forget w)
                else if inside
                then err cycle_error
                else (r >>= λ names.
                    visit_each (visit dependencies fuel) names (enter x (forget w)) >>= λ done.
                    ok (leave x done)))
      step true inside r h = refl
      step false true r h = refl
      step false false (err e) h = refl
      step false false (ok names) h =
          forget-bind (visit_each (order_visit dependencies fuel) names (begin_visit x w))
            (λ done. ok (end_visit x done)) (λ done. ok (leave x done)) (λ v. refl)
          ∙ ap (λ m. m >>= λ done. ok (leave x done)) (h names (begin_visit x w))

  -- the order is the order in which names were marked
  abbrev pub IsLogged : Walk → Type 0
  IsLogged w = w.ordered ≡ reverse w.visited

  visit_each-IsLogged :
      (f : String → Walk → Result SkillError Walk)
      → ((x : String) (v w : Walk) → f x v ≡ ok w → IsLogged v → IsLogged w)
      → (names : List String) (v w : Walk) → visit_each f names v ≡ ok w
      → IsLogged v
      → IsLogged w
  unfolding visit_each
  visit_each-IsLogged f each [] v w h log = subst IsLogged (ok_inj h) log
  visit_each-IsLogged f each (x ∷ names) v w h log =
      let (u, e, h1) = bind_ok (f x v) _ h in
      visit_each-IsLogged f each names u w h1 (each x v u e log)

  order_visit-IsLogged :
      (fuel : ℕ) (x : String) (v w : Walk)
      → order_visit dependencies fuel x v ≡ ok w
      → IsLogged v
      → IsLogged w
  unfolding order_visit
  order_visit-IsLogged zero x v w h log = absurd (ground arith)
  order_visit-IsLogged (suc fuel) x v w h log =
      step (contains x v.visited) (contains x v.visiting)
        (visit_each-IsLogged (order_visit dependencies fuel) (order_visit-IsLogged fuel)) h
    where
      step :
          (seen inside : Bool)
          → ((names : List String) (a b : Walk)
              → visit_each (order_visit dependencies fuel) names a ≡ ok b
              → IsLogged a
              → IsLogged b)
          → (if seen
              then ok v
              else if inside
              then err cycle_error
              else (dependencies x >>= λ names.
                  visit_each (order_visit dependencies fuel) names (begin_visit x v) >>= λ done.
                  ok (end_visit x done)))
            ≡ ok w
          → IsLogged w
      step true inside inner e = subst IsLogged (ok_inj e) log
      step false true inner e = absurd (ground arith)
      step false false inner e =
          let (names, e1, h1) = bind_ok (dependencies x) _ e in
          let (done, e2, h2) =
            bind_ok (visit_each (order_visit dependencies fuel) names (begin_visit x v)) _ h1 in
          subst IsLogged (ok_inj h2) (
            ap (λ o. o ++ x ∷ []) (inner names (begin_visit x v) done e2 log)
            ∙ sym (reverse-cons x done.visited))

  -- A walk from nothing that returns is a search from nothing that returns, with the same names marked,
  -- and its order is theirs.
  pub walk_lem :
      (fuel : ℕ) (names : List String) (w : Walk)
      → visit_each (order_visit dependencies fuel) names no_walk ≡ ok w
      → (visit_each (visit dependencies fuel) names no_marks ≡ ok (forget w)) × IsLogged w
  walk_lem fuel names w h = (
    sym (
          forget-visit_each (order_visit dependencies fuel) (visit dependencies fuel)
            (forget-order_visit fuel) names no_walk)
        ∙ ap forget_result h,
    visit_each-IsLogged (order_visit dependencies fuel) (order_visit-IsLogged fuel) names no_walk w
        h refl,
  )

  -- A walk fails where the search fails, and as it does.
  pub walk-err :
      (fuel : ℕ) (names : List String) (e : SkillError)
      → visit_each (order_visit dependencies fuel) names no_walk ≡ err e
      → visit_each (visit dependencies fuel) names no_marks ≡ err e
  walk-err fuel names e h =
      sym (
        forget-visit_each (order_visit dependencies fuel) (visit dependencies fuel)
          (forget-order_visit fuel) names no_walk)
      ∙ ap forget_result h
