-- ===== src/Pizzeria/Tests.antt =====
-- The theorems of cw07's pizzeria in a state where the cook is about to fill the oven.
use operating_systems_course.Common.{◌+◌, ◌≤◌, refl, false, [], ◌∷◌, arith}
use operating_systems_course.Common.Int.{pos, minus_one}
use operating_systems_course.Pizzeria.Shelf.{Shelf, empty_shelf, place_on_table}
use operating_systems_course.Pizzeria.Shelf.Laws.{IsShelf, empty_shelf-IsShelf, place-IsShelf}
use operating_systems_course.Pizzeria.Process.{step}
use operating_systems_course.Pizzeria.System.{System, pick, Reach, begin, next}
use operating_systems_course.Pizzeria.Counts.{in_oven, at_tables}
use operating_systems_course.Pizzeria.Safety.{mutual_exclusion, SafeAccess, safe_access}
use operating_systems_course.Pizzeria.Liveness.{Lively, no_deadlock}

-- One cook and one supplier; the cook makes pizza 7 and gets as far as the oven.
record Run : Type 0 where
  state : System
  reach : Reach 1 1 state

abbrev at_the_oven : Run
unfolding step
at_the_oven = record {
  state = _;
  reach =
      next (next (next begin (pick 0 7 (omega arith) refl)) (pick 0 0 (omega arith) refl))
        (pick 0 0 (omega arith) refl);
}

mutual_exclusion_example :
    (in_oven (at_the_oven.state.pc 1) + in_oven (at_the_oven.state.pc 0) ≤ 1)
    × (at_tables (at_the_oven.state.pc 1) + at_tables (at_the_oven.state.pc 0) ≤ 1)
unfolding step
mutual_exclusion_example = mutual_exclusion at_the_oven.reach 1 0 (omega arith) (omega arith)

safe_access_example : SafeAccess at_the_oven.state.kitchen (at_the_oven.state.pc 0)
unfolding step
safe_access_example = safe_access at_the_oven.reach 0 (omega arith)

no_deadlock_example : Lively false 2 at_the_oven.state
unfolding step
no_deadlock_example = no_deadlock refl (omega arith) (omega arith) at_the_oven.reach

abbrev seven : Shelf
seven = record {
  slots = pos 7 ∷ minus_one ∷ minus_one ∷ minus_one ∷ minus_one ∷ [];
  pizzas = 1;
  idx_to_place = 1;
  idx_to_take_out = 0;
}

seven-IsShelf : IsShelf seven
unfolding place_on_table
seven-IsShelf =
    place-IsShelf empty_shelf empty_shelf-IsShelf (pos 7) (omega arith) (λ e. ground arith)
