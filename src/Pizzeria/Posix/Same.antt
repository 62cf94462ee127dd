-- ===== src/Pizzeria/Posix/Same.antt =====
-- The processes of cw07/zad2 take the steps of those of cw07/zad1.
use operating_systems_course.Common.{
  ℕ, ◌≡◌, ◌≢◌, refl, sym, ◌∙◌, Bool, true, false, Option, none, some, arith,
}
use operating_systems_course.Pizzeria.Shelf.{
  put_in_oven as fill, place_on_table as place, deliver_from_oven as take_out,
  deliver_from_table as pick_up,
}
use operating_systems_course.Pizzeria.Process.{
  Kitchen, Pc, preparing, wants_oven, at_oven, putting, put_done, baking, taking, taken,
  leaving_oven, wants_table, at_table, placing, placed, announcing, waiting, fetching, picking,
  picked, leaving_table, driving, step as kitchen_step, Progress, moves, waits, exits, progress,
  process_step, progress-exits,
}
use operating_systems_course.Pizzeria.Posix.{
  Bakery, put_in_oven, place_on_table, deliver_from_oven, deliver_from_table, lock_semaphore,
  unlock_semaphore, cook_step, supplier_step, step,
}

-- A kitchen of zad1 as the named objects of zad2.
abbrev pub named : Kitchen → Bakery
named k = record {
  semaphores = record {
    oven_value = some k.oven_semaphore;
    table_value = some k.table_semaphore;
    oven_full_value = some k.oven_full;
    table_full_value = some k.table_full;
    table_empty_value = some k.table_empty;
  };
  oven_shm = some k.oven;
  table_shm = some k.table;
}

abbrev named_option : Option (Kitchen × Pc) → Option (Bakery × Pc)
named_option none = none
named_option (some (k, p)) = some (named k, p)

-- The step that zad2 takes where zad1 goes on. A process that exits takes none either.
abbrev pub named_step : Progress → Option (Bakery × Pc)
named_step (moves k p) = some (named k, p)
named_step waits = none
named_step exits = none

step-named_option :
    (random : ℕ) (k : Kitchen) (p : Pc)
    → step random (named k) p ≡ named_option (kitchen_step random k p)
unfolding step cook_step supplier_step kitchen_step lock_semaphore unlock_semaphore put_in_oven
    place_on_table deliver_from_oven deliver_from_table fill place take_out pick_up
step-named_option random k preparing = refl
step-named_option random k (wants_oven t) = ground arith
step-named_option random k (at_oven t) = ground arith
step-named_option random k (putting t) = refl
step-named_option random k put_done = refl
step-named_option random k baking = ground arith
step-named_option random k taking = refl
step-named_option random k (taken t) = refl
step-named_option random k (leaving_oven t) = refl
step-named_option random k (wants_table t) = ground arith
step-named_option random k (at_table t) = ground arith
step-named_option random k (placing t) = refl
step-named_option random k placed = refl
step-named_option random k announcing = refl
step-named_option random k waiting = ground arith
step-named_option random k fetching = ground arith
step-named_option random k picking = refl
step-named_option random k (picked t) = refl
step-named_option random k (leaving_table t) = refl
step-named_option random k (driving t) = refl

named_step-progress :
    (nowait : Bool) (o : Option (Kitchen × Pc)) → named_step (progress nowait o) ≡ named_option o
unfolding progress
named_step-progress true none = refl
named_step-progress false none = refl
named_step-progress nowait (some r) = refl

-- If sem_flg, which zad1 does not set, happens not to have IPC_NOWAIT, and semop fails for no other
-- reason, then wherever a process stands, it does not exit at a semaphore in zad1, it can take a
-- step in zad2 exactly when it can in zad1, and the step does the same to the semaphores, the oven,
-- the table and the process.
pub step-named :
    {nowait : Bool} (random : ℕ) (k : Kitchen) (p : Pc)
    → nowait ≡ false
    → (process_step nowait random k p ≢ exits)
      × (step random (named k) p ≡ named_step (process_step nowait random k p))
unfolding process_step
step-named {nowait} random k p blocks = (
  progress-exits nowait (kitchen_step random k p) blocks,
  step-named_option random k p ∙ sym (named_step-progress nowait (kitchen_step random k p)),
)
