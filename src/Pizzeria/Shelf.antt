-- ===== src/Pizzeria/Shelf.antt =====
-- `oven` and `table` of cw07/zad1/shared.h, two structs of the same form, and the functions of
-- cook.c and supplier.c that fill and empty them.
pub mod Laws
use operating_systems_course.Common.{ℕ, ◌+◌, ◌-◌, ◌%◌, List, [], ◌∷◌, get_or, set, replicate}
use operating_systems_course.Common.Int.{ℤ, minus_one}

-- OVEN_SIZE and TABLE_SIZE
abbrev pub oven_size : ℕ
oven_size = 5

abbrev pub table_size : ℕ
table_size = 5

-- A slot holds the number of a pizza, or -1.
pub record Shelf : Type 0 where
  pub slots : List ℤ
  pub pizzas : ℕ
  pub idx_to_place : ℕ
  pub idx_to_take_out : ℕ

-- `setup_shm_segment` leaves both like this; the loop over the table runs to OVEN_SIZE too.
abbrev pub empty_shelf : Shelf
empty_shelf = record {
  slots = replicate oven_size minus_one;
  pizzas = 0;
  idx_to_place = 0;
  idx_to_take_out = 0;
}

-- `put_in_oven`
unfoldable pub put_in_oven : Shelf → ℤ → Shelf
put_in_oven ove type = record ove {
  slots = set ove.slots ove.idx_to_place type;
  idx_to_place = (ove.idx_to_place + 1) % oven_size;
  pizzas = ove.pizzas + 1;
}

-- `place_on_table`, which wraps its index at OVEN_SIZE.
unfoldable pub place_on_table : Shelf → ℤ → Shelf
place_on_table tab type = record tab {
  slots = set tab.slots tab.idx_to_place type;
  idx_to_place = (tab.idx_to_place + 1) % oven_size;
  pizzas = tab.pizzas + 1;
}

-- `deliver_pizza` of cook.c, from the oven: the pizza taken out, and the oven behind it.
unfoldable pub deliver_from_oven : Shelf → ℤ × Shelf
deliver_from_oven ove = (
  get_or ove.slots ove.idx_to_take_out minus_one,
  record ove {
    slots = set ove.slots ove.idx_to_take_out minus_one;
    idx_to_take_out = (ove.idx_to_take_out + 1) % oven_size;
    pizzas = ove.pizzas - 1;
  },
)

-- `deliver_pizza` of supplier.c, from the table.
unfoldable pub deliver_from_table : Shelf → ℤ × Shelf
deliver_from_table tab = (
  get_or tab.slots tab.idx_to_take_out minus_one,
  record tab {
    slots = set tab.slots tab.idx_to_take_out minus_one;
    idx_to_take_out = (tab.idx_to_take_out + 1) % table_size;
    pizzas = tab.pizzas - 1;
  },
)
