-- ===== src/Pizzeria/Goods.antt =====
-- What a step of a process of cw07/zad1 does to the oven, the table and the pizza in its hands.
use operating_systems_course.Common.{
  ℕ, ◌<◌, ◌≡◌, refl, Option, none, some, arith, ◌==◌, Bool-cases, inl, inr,
}
use operating_systems_course.Common.Int.{ℤ}
use operating_systems_course.Pizzeria.Shelf.Laws.{
  IsShelf, place-IsShelf, deliver-IsShelf, deliver-real, put_in_oven-place, deliver_from_oven_table,
}
use operating_systems_course.Pizzeria.Process.{
  Kitchen, Pc, preparing, wants_oven, at_oven, putting, put_done, baking, taking, taken,
  leaving_oven, wants_table, at_table, placing, placed, announcing, waiting, fetching, picking,
  picked, leaving_table, driving, lock, step,
}
use operating_systems_course.Common.Crowd.{weight-le-crowd}
use operating_systems_course.Pizzeria.Counts.{
  bakes, reserves, uncounted, holds_place, IsReal, Counts,
}

-- A process that is about to fill the oven or the table finds room there, and one that is about to
-- take something out finds a pizza.
pub record Ready (k : Kitchen) (p : Pc) : Type 0 where
  pub oven_room : (t : ℤ) → p ≡ putting t → k.oven.pizzas < 5
  pub oven_pizza : p ≡ taking → 0 < k.oven.pizzas
  pub table_room : (t : ℤ) → p ≡ placing t → k.table.pizzas < 5
  pub table_pizza : p ≡ picking → 0 < k.table.pizzas

pub Counts-Ready :
    (n : ℕ) (k : Kitchen) (pc : ℕ → Pc) (i : ℕ) → i < n → Counts n k pc → Ready k (pc i)
Counts-Ready n k pc i lt c = record {
  oven_room = λ t e. ground (arith, weight-le-crowd reserves n pc i lt);
  oven_pizza = λ e. ground (arith, weight-le-crowd bakes n pc i lt);
  table_room = λ t e. ground (arith, weight-le-crowd holds_place n pc i lt);
  table_pizza = λ e. ground (arith, weight-le-crowd uncounted n pc i lt);
}

-- The oven and the table are well formed, and the process carries a pizza where it carries something.
pub record Goods (k : Kitchen) (p : Pc) : Type 0 where
  pub oven : IsShelf k.oven
  pub table : IsShelf k.table
  pub real : IsReal p

abbrev pub After : Option (Kitchen × Pc) → Type 0
After none = Unit
After (some (k, p)) = Goods k p

lock-After : (value : ℕ) (k : Kitchen) (p : Pc) → Goods k p → After (lock value k p)
lock-After value k p g = elim (Bool-cases (value == 0)) [
  | inl blocked ↦ rw blocked tt
  | inr free ↦ rw free g
]

pub goods : (k : Kitchen) (p : Pc) → IsShelf k.oven → IsShelf k.table → IsReal p → Goods k p
goods k p o t r = record { oven = o; table = t; real = r }

-- What one step leaves in the kitchen and in the hands of its process.
pub step-After :
    (random : ℕ) (k : Kitchen) (p : Pc) → Ready k p → Goods k p → After (step random k p)
unfolding step
step-After random k preparing r g = record {
  oven = g.oven;
  table = g.table;
  real = λ e. ground arith;
}
step-After random k (wants_oven t) r g =
    lock-After k.oven_full _ _ (record { oven = g.oven; table = g.table; real = g.real })
step-After random k (at_oven t) r g =
    lock-After k.oven_semaphore _ _ (record { oven = g.oven; table = g.table; real = g.real })
step-After random k (putting t) r g = record {
  oven = rw put_in_oven-place (place-IsShelf k.oven g.oven t (r.oven_room t refl) g.real);
  table = g.table;
  real = tt;
}
step-After random k put_done r g = record { oven = g.oven; table = g.table; real = tt }
step-After random k baking r g =
    lock-After k.oven_semaphore _ _ (record { oven = g.oven; table = g.table; real = tt })
step-After random k taking r g = rw deliver_from_oven_table (record {
  oven = deliver-IsShelf k.oven g.oven (r.oven_pizza refl);
  table = g.table;
  real = deliver-real k.oven g.oven (r.oven_pizza refl);
})
step-After random k (taken t) r g = record { oven = g.oven; table = g.table; real = g.real }
step-After random k (leaving_oven t) r g = record { oven = g.oven; table = g.table; real = g.real }
step-After random k (wants_table t) r g =
    lock-After k.table_full _ _ (record { oven = g.oven; table = g.table; real = g.real })
step-After random k (at_table t) r g =
    lock-After k.table_semaphore _ _ (record { oven = g.oven; table = g.table; real = g.real })
step-After random k (placing t) r g = record {
  oven = g.oven;
  table = place-IsShelf k.table g.table t (r.table_room t refl) g.real;
  real = tt;
}
step-After random k placed r g = record { oven = g.oven; table = g.table; real = tt }
step-After random k announcing r g = record { oven = g.oven; table = g.table; real = tt }
step-After random k waiting r g =
    lock-After k.table_empty _ _ (record { oven = g.oven; table = g.table; real = tt })
step-After random k fetching r g =
    lock-After k.table_semaphore _ _ (record { oven = g.oven; table = g.table; real = tt })
step-After random k picking r g = record {
  oven = g.oven;
  table = deliver-IsShelf k.table g.table (r.table_pizza refl);
  real = deliver-real k.table g.table (r.table_pizza refl);
}
step-After random k (picked t) r g = record { oven = g.oven; table = g.table; real = g.real }
step-After random k (leaving_table t) r g = record { oven = g.oven; table = g.table; real = g.real }
step-After random k (driving t) r g = record { oven = g.oven; table = g.table; real = tt }
