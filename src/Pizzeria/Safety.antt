-- ===== src/Pizzeria/Safety.antt =====
-- What holds in every state that the cooks and suppliers of cw07/zad1 reach.
use operating_systems_course.Common.{ℕ, ◌+◌, ◌≤◌, ◌<◌, ◌≡◌, ◌≢◌, arith, get_or}
use operating_systems_course.Common.Int.{ℤ, minus_one}
use operating_systems_course.Pizzeria.Shelf.{deliver_from_oven, deliver_from_table}
use operating_systems_course.Pizzeria.Shelf.Laws.{place-free, deliver-real, deliver_from_oven_table}
use operating_systems_course.Pizzeria.Process.{Kitchen, Pc, putting, taking, placing, picking}
use operating_systems_course.Common.Crowd.{weights-le-crowd}
use operating_systems_course.Pizzeria.System.{System, Reach}
use operating_systems_course.Pizzeria.Counts.{in_oven, at_tables}
use operating_systems_course.Pizzeria.Goods.{Counts-Ready}
use operating_systems_course.Pizzeria.Invariant.{Reach-Inv}

-- Two processes are never between locking and unlocking the same shelf.
pub mutual_exclusion :
    {cooks suppliers : ℕ} {s : System}
    → Reach cooks suppliers s
    → (i j : ℕ) → i < cooks + suppliers
    → j < i
    → (in_oven (s.pc i) + in_oven (s.pc j) ≤ 1) × (at_tables (s.pc i) + at_tables (s.pc j) ≤ 1)
mutual_exclusion {cooks} {suppliers} {s} r i j h l =
    let c = (Reach-Inv r).counts in
    (
      omega (arith, c.oven_mutex, weights-le-crowd in_oven (cooks + suppliers) s.pc i j h l),
      omega (arith, c.table_mutex, weights-le-crowd at_tables (cooks + suppliers) s.pc i j h l),
    )

-- What a process may do with a shelf without losing or inventing a pizza.
pub record SafeAccess (k : Kitchen) (p : Pc) : Type 0 where
  pub put_in_free :
      (t : ℤ) → p ≡ putting t → get_or k.oven.slots k.oven.idx_to_place minus_one ≡ minus_one
  pub take_real : p ≡ taking → (deliver_from_oven k.oven).0 ≢ minus_one
  pub place_in_free :
      (t : ℤ) → p ≡ placing t → get_or k.table.slots k.table.idx_to_place minus_one ≡ minus_one
  pub pick_real : p ≡ picking → (deliver_from_table k.table).0 ≢ minus_one

-- Whoever fills the oven or the table writes to a free slot, and whoever empties one takes a pizza.
pub safe_access :
    {cooks suppliers : ℕ} {s : System}
    → Reach cooks suppliers s
    → (i : ℕ) → i < cooks + suppliers
    → SafeAccess s.kitchen (s.pc i)
safe_access {cooks} {suppliers} {s} r i h =
    let v = Reach-Inv r in
    let ready = Counts-Ready (cooks + suppliers) s.kitchen s.pc i h v.counts in
    record {
      put_in_free = λ t e. place-free s.kitchen.oven v.oven (ready.oven_room t e);
      take_real =
          λ e. rw deliver_from_oven_table (deliver-real s.kitchen.oven v.oven (ready.oven_pizza e));
      place_in_free = λ t e. place-free s.kitchen.table v.table (ready.table_room t e);
      pick_real = λ e. deliver-real s.kitchen.table v.table (ready.table_pizza e);
    }
