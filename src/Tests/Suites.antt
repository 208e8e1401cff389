-- ===== src/Tests/Suites.antt =====
-- The sets of suites at concrete sets.
use gocusp.Base.{arith, not, ◌&&◌, ◌==◌, ◌^◌, ◌||◌, ◌≡◌}
use gocusp.Cusp.Suite.{
  iterate, set_add, set_contains, set_element, set_intersect, set_subtract, set_union,
}
use gocusp.Cusp.Suite.Algebra.{contains_operations}
use gocusp.Cusp.Suite.Enumerate.{iterate-members, members}

iterate-members_example : iterate 16 38 ≡ members 16 1 38
iterate-members_example = iterate-members 38 (omega arith)

contains_operations_example :
    (set_contains (set_intersect 3 6) (2 ^ 1) ≡ (set_contains 3 (2 ^ 1) && set_contains 6 (2 ^ 1)))
    × (set_contains (set_union 3 6) (2 ^ 1) ≡ (set_contains 3 (2 ^ 1) || set_contains 6 (2 ^ 1)))
    × (set_contains (set_subtract 3 6) (2 ^ 1)
        ≡ (set_contains 3 (2 ^ 1) && not (set_contains 6 (2 ^ 1))))
    × (set_contains (set_add 3 (2 ^ 2)) (2 ^ 1) ≡ (set_contains 3 (2 ^ 1) || (1 == 2)))
    × (set_contains (set_element (2 ^ 2)) (2 ^ 1) ≡ (1 == 2))
contains_operations_example = contains_operations 1 2 3 6 (omega arith) (omega arith)
