-- ===== src/Pizzeria/Process.antt =====
-- The loops of `main` in cw07/zad1/cook.c and supplier.c, one semaphore operation or one change of
-- the shared memory at a time. The pauses and the printing are left out.
use operating_systems_course.Common.{
  ℕ, ◌+◌, ◌-◌, ◌%◌, Bool, true, false, ◌≡◌, ◌≢◌, arith, Option, none, some, ◌==◌, if◌then◌else◌,
}
use operating_systems_course.Common.Int.{ℤ, pos}
use operating_systems_course.Pizzeria.Shelf.{
  Shelf, empty_shelf, oven_size, table_size, put_in_oven, place_on_table, deliver_from_oven,
  deliver_from_table,
}

-- The shared memory and the five semaphores of shared.h.
pub record Kitchen : Type 0 where
  pub oven : Shelf
  pub table : Shelf
  pub oven_semaphore : ℕ
  pub table_semaphore : ℕ
  pub oven_full : ℕ
  pub table_full : ℕ
  pub table_empty : ℕ

-- `setup_shm_segment` and `setup_semaphore`
abbrev pub setup : Kitchen
setup = record {
  oven = empty_shelf;
  table = empty_shelf;
  oven_semaphore = 1;
  table_semaphore = 1;
  oven_full = oven_size;
  table_full = table_size;
  table_empty = 0;
}

-- Where a process stands, with the pizza in its hands. The cook's points come first.
pub data Pc : Type 0 where
  preparing : Pc  -- before `type = rand() % 10`
  wants_oven : ℤ → Pc  -- before locking OVEN_FULL_SEMAPHORE
  at_oven : ℤ → Pc  -- before locking OVEN_SEMAPHORE
  putting : ℤ → Pc  -- before `put_in_oven`
  put_done : Pc  -- before unlocking OVEN_SEMAPHORE
  baking : Pc  -- before locking OVEN_SEMAPHORE again
  taking : Pc  -- before `deliver_pizza`
  taken : ℤ → Pc  -- before unlocking OVEN_SEMAPHORE
  leaving_oven : ℤ → Pc  -- before unlocking OVEN_FULL_SEMAPHORE
  wants_table : ℤ → Pc  -- before locking TABLE_FULL_SEMAPHORE
  at_table : ℤ → Pc  -- before locking TABLE_SEMAPHORE
  placing : ℤ → Pc  -- before `place_on_table`
  placed : Pc  -- before unlocking TABLE_SEMAPHORE
  announcing : Pc  -- before unlocking TABLE_EMPTY_SEMAPHORE
  waiting : Pc  -- the supplier, before locking TABLE_EMPTY_SEMAPHORE
  fetching : Pc  -- before locking TABLE_SEMAPHORE
  picking : Pc  -- before `deliver_pizza`
  picked : ℤ → Pc  -- before unlocking TABLE_SEMAPHORE
  leaving_table : ℤ → Pc  -- before unlocking TABLE_FULL_SEMAPHORE
  driving : ℤ → Pc  -- the delivery

-- `lock_semaphore`: a semaphore at 0 keeps the process from going on.
abbrev pub lock : ℕ → Kitchen → Pc → Option (Kitchen × Pc)
lock value k p = if value == 0 then none else some (k, p)

-- One step of a process, if no semaphore keeps it from going on; `random` is what `rand()` gives.
unfoldable pub step : ℕ → Kitchen → Pc → Option (Kitchen × Pc)
step random k preparing = some (k, wants_oven (pos (random % 10)))
step random k (wants_oven t) =
    lock k.oven_full (record k { oven_full = k.oven_full - 1 }) (at_oven t)
step random k (at_oven t) =
    lock k.oven_semaphore (record k { oven_semaphore = k.oven_semaphore - 1 }) (putting t)
step random k (putting t) = some (record k { oven = put_in_oven k.oven t }, put_done)
step random k put_done = some (record k { oven_semaphore = k.oven_semaphore + 1 }, baking)
step random k baking =
    lock k.oven_semaphore (record k { oven_semaphore = k.oven_semaphore - 1 }) taking
step random k taking =
    let (t, o) = deliver_from_oven k.oven in some (record k { oven = o }, taken t)
step random k (taken t) = some (record k { oven_semaphore = k.oven_semaphore + 1 }, leaving_oven t)
step random k (leaving_oven t) = some (record k { oven_full = k.oven_full + 1 }, wants_table t)
step random k (wants_table t) =
    lock k.table_full (record k { table_full = k.table_full - 1 }) (at_table t)
step random k (at_table t) =
    lock k.table_semaphore (record k { table_semaphore = k.table_semaphore - 1 }) (placing t)
step random k (placing t) = some (record k { table = place_on_table k.table t }, placed)
step random k placed = some (record k { table_semaphore = k.table_semaphore + 1 }, announcing)
step random k announcing = some (record k { table_empty = k.table_empty + 1 }, preparing)
step random k waiting = lock k.table_empty (record k { table_empty = k.table_empty - 1 }) fetching
step random k fetching =
    lock k.table_semaphore (record k { table_semaphore = k.table_semaphore - 1 }) picking
step random k picking =
    let (t, o) = deliver_from_table k.table in some (record k { table = o }, picked t)
step random k (picked t) =
    some (record k { table_semaphore = k.table_semaphore + 1 }, leaving_table t)
step random k (leaving_table t) = some (record k { table_full = k.table_full + 1 }, driving t)
step random k (driving t) = some (k, waiting)

-- What becomes of a process that is to take a step: it goes on, waits, or exits.
pub data Progress : Type 0 where
  moves : Kitchen → Pc → Progress
  waits exits : Progress

unfoldable pub progress : Bool → Option (Kitchen × Pc) → Progress
progress nowait (some (k, p)) = moves k p
progress true none = exits
progress false none = waits

pub progress-exits :
    (nowait : Bool) (o : Option (Kitchen × Pc)) → nowait ≡ false → progress nowait o ≢ exits
unfolding progress
progress-exits nowait none e h = ground (arith, e, h)
progress-exits nowait (some r) e h = ground (arith, h)

-- `lock_semaphore` leaves `sem_flg` as it is: `nowait` tells whether it happens to have IPC_NOWAIT.
-- With it, `semop` on a semaphore at 0 fails, and the process exits; without it, the process waits.
-- `semop` is taken to fail for no other reason: no signal interrupts it, and the semaphores stay.
unfoldable pub process_step : Bool → ℕ → Kitchen → Pc → Progress
unfolding progress
process_step nowait random k p = progress nowait (step random k p)
