-- ===== src/Pizzeria/Posix.antt =====
-- The same pizzeria in cw07/zad2: POSIX semaphores, which are found by name and outlive the
-- processes, and shared memory with a name. The pauses and the printing are left out.
pub mod Same
mod Tests
use operating_systems_course.Common.{
  ℕ, ◌+◌, ◌-◌, ◌%◌, Bool, true, false, Option, none, some, ◌==◌, if◌then◌else◌, get_or, set,
  replicate,
}
use operating_systems_course.Common.Int.{ℤ, pos, minus_one}
use operating_systems_course.Pizzeria.Shelf.{Shelf, oven_size, table_size}
use operating_systems_course.Pizzeria.Process.{
  Pc, preparing, wants_oven, at_oven, putting, put_done, baking, taking, taken, leaving_oven,
  wants_table, at_table, placing, placed, announcing, waiting, fetching, picking, picked,
  leaving_table, driving,
}

-- The names of shared.h.
pub data Name : Type 0 where
  oven_semaphore table_semaphore oven_full table_full table_empty : Name

-- The value of each semaphore; `none` where there is none of that name.
pub record Semaphores : Type 0 where
  pub oven_value : Option ℕ
  pub table_value : Option ℕ
  pub oven_full_value : Option ℕ
  pub table_full_value : Option ℕ
  pub table_empty_value : Option ℕ

-- What the names stand for in the kernel.
pub record Bakery : Type 0 where
  pub semaphores : Semaphores
  pub oven_shm : Option Shelf
  pub table_shm : Option Shelf

abbrev pub nothing_open : Bakery
nothing_open = record {
  semaphores = record {
    oven_value = none;
    table_value = none;
    oven_full_value = none;
    table_full_value = none;
    table_empty_value = none;
  };
  oven_shm = none;
  table_shm = none;
}

abbrev pub value : Name → Semaphores → Option ℕ
value oven_semaphore s = s.oven_value
value table_semaphore s = s.table_value
value oven_full s = s.oven_full_value
value table_full s = s.table_full_value
value table_empty s = s.table_empty_value

abbrev pub assign : Name → Option ℕ → Semaphores → Semaphores
assign oven_semaphore v s = record s { oven_value = v }
assign table_semaphore v s = record s { table_value = v }
assign oven_full v s = record s { oven_full_value = v }
assign table_full v s = record s { table_full_value = v }
assign table_empty v s = record s { table_empty_value = v }

-- `sem_open(name, O_CREAT, 0666, initial)`, which leaves a semaphore that is there as it is.
unfoldable pub sem_create : Name → ℕ → Semaphores → Semaphores
sem_create name initial s = elim (value name s) [ some _ ↦ s | none ↦ assign name (some initial) s ]

unfoldable pub setup_semaphores : Bakery → Bakery
unfolding sem_create
setup_semaphores b = record b {
  semaphores = sem_create table_empty 0 (
      sem_create table_full table_size (
        sem_create oven_full oven_size
          (sem_create table_semaphore 1 (sem_create oven_semaphore 1 b.semaphores))));
}

-- Both segments are written anew, whether they were there or not; the loop over the table runs to
-- OVEN_SIZE too.
abbrev pub fresh : Shelf
fresh = record {
  slots = replicate oven_size minus_one;
  pizzas = 0;
  idx_to_place = 0;
  idx_to_take_out = 0;
}

unfoldable pub setup_shm_segment : Bakery → Bakery
setup_shm_segment b = record b { oven_shm = some fresh; table_shm = some fresh }

-- `SIGINT_handler` calls `sem_unlink` for the names of the shared memory too, which are not those
-- of a semaphore: the segments stay.
unfoldable pub sigint_handler : Bakery → Bakery
sigint_handler b = record b {
  semaphores = assign table_empty none (
      assign table_full none (
        assign oven_full none
          (assign table_semaphore none (assign oven_semaphore none b.semaphores))));
}

-- `put_in_oven`, `place_on_table` and the two `deliver_pizza`.
unfoldable pub put_in_oven : Shelf → ℤ → Shelf
put_in_oven oven type = record oven {
  slots = set oven.slots oven.idx_to_place type;
  idx_to_place = (oven.idx_to_place + 1) % oven_size;
  pizzas = oven.pizzas + 1;
}

unfoldable pub place_on_table : Shelf → ℤ → Shelf
place_on_table table type = record table {
  slots = set table.slots table.idx_to_place type;
  idx_to_place = (table.idx_to_place + 1) % oven_size;
  pizzas = table.pizzas + 1;
}

unfoldable pub deliver_from_oven : Shelf → ℤ × Shelf
deliver_from_oven oven = (
  get_or oven.slots oven.idx_to_take_out minus_one,
  record oven {
    slots = set oven.slots oven.idx_to_take_out minus_one;
    idx_to_take_out = (oven.idx_to_take_out + 1) % oven_size;
    pizzas = oven.pizzas - 1;
  },
)

unfoldable pub deliver_from_table : Shelf → ℤ × Shelf
deliver_from_table table = (
  get_or table.slots table.idx_to_take_out minus_one,
  record table {
    slots = set table.slots table.idx_to_take_out minus_one;
    idx_to_take_out = (table.idx_to_take_out + 1) % table_size;
    pizzas = table.pizzas - 1;
  },
)

-- `lock_semaphore`: at 0 the process waits. A process whose `get_semaphore` found no semaphore has
-- exited and takes no step.
unfoldable pub lock_semaphore : Name → Bakery → Pc → Option (Bakery × Pc)
lock_semaphore name b p = elim (value name b.semaphores) [
  | none ↦ none
  | some v ↦
      if v == 0
      then none
      else some (record b { semaphores = assign name (some (v - 1)) b.semaphores }, p)
]

unfoldable pub unlock_semaphore : Name → Bakery → Pc → Option (Bakery × Pc)
unlock_semaphore name b p = elim (value name b.semaphores) [
  | none ↦ none
  | some v ↦ some (record b { semaphores = assign name (some (v + 1)) b.semaphores }, p)
]

-- A change of the shared memory, through `mmap` of the segment.
fill_oven : Option Shelf → ℤ → Bakery → Pc → Option (Bakery × Pc)
unfolding put_in_oven
fill_oven none type b p = none
fill_oven (some o) type b p = some (record b { oven_shm = some (put_in_oven o type) }, p)

fill_table : Option Shelf → ℤ → Bakery → Pc → Option (Bakery × Pc)
unfolding place_on_table
fill_table none type b p = none
fill_table (some o) type b p = some (record b { table_shm = some (place_on_table o type) }, p)

empty_oven : Option Shelf → Bakery → Option (Bakery × Pc)
unfolding deliver_from_oven
empty_oven none b = none
empty_oven (some o) b =
    let (type, o') = deliver_from_oven o in some (record b { oven_shm = some o' }, taken type)

empty_table : Option Shelf → Bakery → Option (Bakery × Pc)
unfolding deliver_from_table
empty_table none b = none
empty_table (some o) b =
    let (type, o') = deliver_from_table o in some (record b { table_shm = some o' }, picked type)

-- The loop of `main` in cook.c, one step at a time.
unfoldable pub cook_step : ℕ → Bakery → Pc → Option (Bakery × Pc)
unfolding lock_semaphore unlock_semaphore fill_oven empty_oven fill_table
cook_step random b preparing = some (b, wants_oven (pos (random % 10)))
cook_step random b (wants_oven t) = lock_semaphore oven_full b (at_oven t)
cook_step random b (at_oven t) = lock_semaphore oven_semaphore b (putting t)
cook_step random b (putting t) = fill_oven b.oven_shm t b put_done
cook_step random b put_done = unlock_semaphore oven_semaphore b baking
cook_step random b baking = lock_semaphore oven_semaphore b taking
cook_step random b taking = empty_oven b.oven_shm b
cook_step random b (taken t) = unlock_semaphore oven_semaphore b (leaving_oven t)
cook_step random b (leaving_oven t) = unlock_semaphore oven_full b (wants_table t)
cook_step random b (wants_table t) = lock_semaphore table_full b (at_table t)
cook_step random b (at_table t) = lock_semaphore table_semaphore b (placing t)
cook_step random b (placing t) = fill_table b.table_shm t b placed
cook_step random b placed = unlock_semaphore table_semaphore b announcing
cook_step random b announcing = unlock_semaphore table_empty b preparing
cook_step random b _ = none

-- The loop of `main` in supplier.c.
unfoldable pub supplier_step : Bakery → Pc → Option (Bakery × Pc)
unfolding lock_semaphore unlock_semaphore empty_table
supplier_step b waiting = lock_semaphore table_empty b fetching
supplier_step b fetching = lock_semaphore table_semaphore b picking
supplier_step b picking = empty_table b.table_shm b
supplier_step b (picked t) = unlock_semaphore table_semaphore b (leaving_table t)
supplier_step b (leaving_table t) = unlock_semaphore table_full b (driving t)
supplier_step b (driving t) = some (b, waiting)
supplier_step b _ = none

-- A step of either.
abbrev pub is_supplier : Pc → Bool
is_supplier waiting = true
is_supplier fetching = true
is_supplier picking = true
is_supplier (picked _) = true
is_supplier (leaving_table _) = true
is_supplier (driving _) = true
is_supplier _ = false

unfoldable pub step : ℕ → Bakery → Pc → Option (Bakery × Pc)
unfolding cook_step supplier_step
step random b p = if is_supplier p then supplier_step b p else cook_step random b p
