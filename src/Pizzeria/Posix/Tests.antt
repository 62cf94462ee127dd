-- ===== src/Pizzeria/Posix/Tests.antt =====
-- Concrete runs for cw07/zad2.
use operating_systems_course.Common.{◌≡◌, ◌≢◌, refl, false, none, some}
use operating_systems_course.Common.Int.{pos}
use operating_systems_course.Pizzeria.Process.{setup, at_oven, wants_oven, exits, process_step}
use operating_systems_course.Pizzeria.Posix.{
  Bakery, nothing_open, setup_semaphores, setup_shm_segment, step,
}
use operating_systems_course.Pizzeria.Posix.Same.{named, named_step, step-named}

-- A run that was killed while a process held the oven.
abbrev killed : Bakery
killed = record nothing_open { semaphores = record nothing_open.semaphores { oven_value = some 0 } }

step-named_example :
    (process_step false 4 setup (wants_oven (pos 4)) ≢ exits)
    × (step 4 (named setup) (wants_oven (pos 4))
        ≡ named_step (process_step false 4 setup (wants_oven (pos 4))))
step-named_example = step-named 4 setup (wants_oven (pos 4)) refl

step_run :
    step 4 (named setup) (wants_oven (pos 4))
    ≡ some (named (record setup { oven_full = 4 }), at_oven (pos 4))
unfolding step
step_run = refl

-- After the next set-up no cook gets to the oven.
killed_run : step 4 (setup_semaphores (setup_shm_segment killed)) (at_oven (pos 2)) ≡ none
unfolding setup_semaphores setup_shm_segment step
killed_run = refl
