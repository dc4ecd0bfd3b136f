-- ===== src/SkillOs/Order.antt =====
-- `_dependency_order` of skill_os.py: the Skills a request asks for with what they depend on, each
-- behind its dependencies, and the test that no two of them are incompatible.
pub mod Steps
pub mod Lawful
pub mod Returns
use soloscale_ai_os.Prelude.{
  ℕ, zero, suc, Bool, true, false, List, [], ◌∷◌, ◌++◌, any, String, contains, without, Result, ok,
  err, ◌>>=◌, ◌>>◌, raise_if, if◌then◌else◌,
}
use soloscale_ai_os.SkillOs.Models.{
  SkillError, incompatible, cycle_error, out_of_fuel, SkillRegistry,
}
use soloscale_ai_os.SkillOs.Registry.{Dependencies, get, get_dependencies, visit_each, fuel_of}

-- the state of the walk: two sets, the newest member first, and the order so far
pub record Walk : Type 0 where
  pub visiting : List String
  pub visited : List String
  pub ordered : List String

abbrev pub no_walk : Walk
no_walk = record { visiting = []; visited = []; ordered = [] }

abbrev pub begin_visit : String → Walk → Walk
begin_visit name walk = record walk { visiting = name ∷ walk.visiting }

abbrev pub end_visit : String → Walk → Walk
end_visit name walk = record {
  visiting = without name walk.visiting;
  visited = name ∷ walk.visited;
  ordered = walk.ordered ++ name ∷ [];
}

unfoldable pub order_visit : Dependencies → ℕ → String → Walk → Result SkillError Walk
unfolding visit_each
order_visit dependencies zero name walk = err out_of_fuel
order_visit dependencies (suc fuel) name walk =
    let inner = order_visit dependencies fuel in
    if contains name walk.visited
    then ok walk
    else if contains name walk.visiting
    then err cycle_error
    else (dependencies name >>= λ names.
        visit_each inner names (begin_visit name walk) >>= λ done. ok (end_visit name done))

-- the loop over the order, with `selected` the set of its names
unfoldable pub check_conflicts :
    SkillRegistry → List String → List String → Result SkillError (Unit {0})
check_conflicts registry selected [] = ok tt
check_conflicts registry selected (name ∷ names) = get registry name >>= λ entry.
    raise_if (any (λ other. contains other selected) entry.incompatible_skills) incompatible
    >> check_conflicts registry selected names

unfoldable pub dependency_order : SkillRegistry → List String → Result SkillError (List String)
unfolding visit_each order_visit check_conflicts
dependency_order registry explicit_names =
    visit_each (order_visit (get_dependencies registry) (fuel_of registry)) explicit_names no_walk
    >>= λ walk. check_conflicts registry walk.ordered walk.ordered >> ok walk.ordered
