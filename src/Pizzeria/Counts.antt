-- ===== src/Pizzeria/Counts.antt =====
-- What the semaphores of cw07/zad1 count, and that every step of a process keeps the counts.
use operating_systems_course.Common.{ℕ, ◌+◌, ◌<◌, ◌≡◌, ◌≢◌, some, arith}
use operating_systems_course.Common.Int.{minus_one}
use operating_systems_course.Pizzeria.Shelf.{
  put_in_oven, place_on_table, deliver_from_oven, deliver_from_table,
}
use operating_systems_course.Pizzeria.Process.{
  Kitchen, Pc, preparing, wants_oven, at_oven, putting, put_done, baking, taking, taken,
  leaving_oven, wants_table, at_table, placing, placed, announcing, fetching, picking, picked,
  leaving_table, driving, step,
}
use operating_systems_course.Common.Crowd.{moved, crowd, crowd-moved}

-- Between locking and unlocking OVEN_SEMAPHORE.
abbrev pub in_oven : Pc → ℕ
in_oven (putting _) = 1
in_oven put_done = 1
in_oven taking = 1
in_oven (taken _) = 1
in_oven _ = 0

-- Between locking and unlocking TABLE_SEMAPHORE.
abbrev pub at_tables : Pc → ℕ
at_tables (placing _) = 1
at_tables placed = 1
at_tables picking = 1
at_tables (picked _) = 1
at_tables _ = 0

-- The pizza of the cook is in the oven.
abbrev pub bakes : Pc → ℕ
bakes put_done = 1
bakes baking = 1
bakes taking = 1
bakes _ = 0

-- A place in the oven is taken, and no pizza is on it.
abbrev pub reserves : Pc → ℕ
reserves (at_oven _) = 1
reserves (putting _) = 1
reserves (taken _) = 1
reserves (leaving_oven _) = 1
reserves _ = 0

-- A pizza on the table that TABLE_EMPTY_SEMAPHORE does not count.
abbrev pub uncounted : Pc → ℕ
uncounted placed = 1
uncounted announcing = 1
uncounted fetching = 1
uncounted picking = 1
uncounted _ = 0

-- A place on the table is taken, and no pizza is on it.
abbrev pub holds_place : Pc → ℕ
holds_place (at_table _) = 1
holds_place (placing _) = 1
holds_place (picked _) = 1
holds_place (leaving_table _) = 1
holds_place _ = 0

-- The pizza in the hands of a process is one.
abbrev pub IsReal : Pc → Type 0
IsReal (wants_oven t) = t ≢ minus_one
IsReal (at_oven t) = t ≢ minus_one
IsReal (putting t) = t ≢ minus_one
IsReal (taken t) = t ≢ minus_one
IsReal (leaving_oven t) = t ≢ minus_one
IsReal (wants_table t) = t ≢ minus_one
IsReal (at_table t) = t ≢ minus_one
IsReal (placing t) = t ≢ minus_one
IsReal (picked t) = t ≢ minus_one
IsReal (leaving_table t) = t ≢ minus_one
IsReal (driving t) = t ≢ minus_one
IsReal _ = Unit

-- What the semaphores count.
pub record Counts (n : ℕ) (k : Kitchen) (pc : ℕ → Pc) : Type 0 where
  pub oven_mutex : k.oven_semaphore + crowd in_oven n pc ≡ 1
  pub table_mutex : k.table_semaphore + crowd at_tables n pc ≡ 1
  pub oven_places : k.oven_full + k.oven.pizzas + crowd reserves n pc ≡ 5
  pub oven_pizzas : k.oven.pizzas ≡ crowd bakes n pc
  pub table_places : k.table_full + k.table.pizzas + crowd holds_place n pc ≡ 5
  pub table_pizzas : k.table.pizzas ≡ k.table_empty + crowd uncounted n pc

-- The sums before and behind a step from `p` to `p'`.
pub record Sums (n : ℕ) (pc : ℕ → Pc) (i : ℕ) (p p' : Pc) : Type 0 where
  pub ovens : crowd in_oven n (moved pc i p') + in_oven p ≡ crowd in_oven n pc + in_oven p'
  pub tables : crowd at_tables n (moved pc i p') + at_tables p ≡ crowd at_tables n pc + at_tables p'
  pub bakers : crowd bakes n (moved pc i p') + bakes p ≡ crowd bakes n pc + bakes p'
  pub reserved : crowd reserves n (moved pc i p') + reserves p ≡ crowd reserves n pc + reserves p'
  pub counted :
      crowd uncounted n (moved pc i p') + uncounted p ≡ crowd uncounted n pc + uncounted p'
  pub places :
      crowd holds_place n (moved pc i p') + holds_place p ≡ crowd holds_place n pc + holds_place p'

pub sums : (n : ℕ) (pc : ℕ → Pc) (i : ℕ) (p' : Pc) → i < n → Sums n pc i (pc i) p'
sums n pc i p' lt = record {
  ovens = crowd-moved in_oven n pc i p' lt;
  tables = crowd-moved at_tables n pc i p' lt;
  bakers = crowd-moved bakes n pc i p' lt;
  reserved = crowd-moved reserves n pc i p' lt;
  counted = crowd-moved uncounted n pc i p' lt;
  places = crowd-moved holds_place n pc i p' lt;
}

pub step-Counts :
    (n : ℕ) (pc : ℕ → Pc) (i random : ℕ) (k k' : Kitchen) (p p' : Pc)
    → Counts n k pc
    → Sums n pc i p p'
    → step random k p ≡ some (k', p')
    → Counts n k' (moved pc i p')
unfolding step put_in_oven place_on_table deliver_from_oven deliver_from_table
step-Counts n pc i random k k' preparing p' c s e = ground arith
step-Counts n pc i random k k' p p' c s e = ground arith
