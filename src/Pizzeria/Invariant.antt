-- ===== src/Pizzeria/Invariant.antt =====
-- The invariant of all processes of cw07/zad1 in every state that they reach.
use operating_systems_course.Common.{
  ℕ, ◌+◌, ◌≡◌, refl, sym, Bool, true, false, arith, ltb, ◌==◌, if◌then◌else◌,
}
use mathlib.Core.Path.{subst}
use operating_systems_course.Pizzeria.Shelf.Laws.{IsShelf, empty_shelf-IsShelf}
use operating_systems_course.Pizzeria.Process.{Pc, preparing, waiting}
use operating_systems_course.Common.Crowd.{crowd, crowd_zero}
use operating_systems_course.Pizzeria.System.{System, forked, start, Step, pick, Reach, begin, next}
use operating_systems_course.Pizzeria.Counts.{
  in_oven, at_tables, bakes, reserves, uncounted, holds_place, IsReal, Counts, sums, step-Counts,
}
use operating_systems_course.Pizzeria.Goods.{Counts-Ready, Goods, After, goods, step-After}

-- The invariant of the whole system of `n` processes.
pub record Inv (n : ℕ) (s : System) : Type 0 where
  pub counts : Counts n s.kitchen s.pc
  pub oven : IsShelf s.kitchen.oven
  pub table : IsShelf s.kitchen.table
  pub real : (i : ℕ) → IsReal (s.pc i)

forked_idle :
    (weight : Pc → ℕ) (cooks n : ℕ)
    → weight preparing ≡ 0
    → weight waiting ≡ 0
    → crowd weight n (forked cooks) ≡ 0
forked_idle weight cooks n p w = crowd_zero weight n (forked cooks) (λ i. ground (arith, p, w))

start-Inv : (cooks n : ℕ) → Inv n (start cooks)
start-Inv cooks n = record {
  counts = record {
    oven_mutex = rw (forked_idle in_oven cooks n refl refl) refl;
    table_mutex = rw (forked_idle at_tables cooks n refl refl) refl;
    oven_places = rw (forked_idle reserves cooks n refl refl) refl;
    oven_pizzas = sym (forked_idle bakes cooks n refl refl);
    table_places = rw (forked_idle holds_place cooks n refl refl) refl;
    table_pizzas = rw (forked_idle uncounted cooks n refl refl) refl;
  };
  oven = empty_shelf-IsShelf;
  table = empty_shelf-IsShelf;
  real = λ i. idle_real (ltb i cooks);
}
  where
    idle_real : (b : Bool) → IsReal (if b then preparing else waiting)
    idle_real true = tt
    idle_real false = tt

-- Every step of the system keeps the invariant.
pub Step-Inv : {n : ℕ} {s t : System} → Step n s t → Inv n s → Inv n t
Step-Inv {n} {s} (pick i random {k} {p} lt e) v = record {
  counts = step-Counts n s.pc i random s.kitchen k (s.pc i) p v.counts (sums n s.pc i p lt) e;
  oven = after.oven;
  table = after.table;
  real = λ j. real_of j (i == j) refl;
}
  where
    after : Goods k p
    after = subst After e (
        step-After random s.kitchen (s.pc i) (Counts-Ready n s.kitchen s.pc i lt v.counts)
          (goods s.kitchen (s.pc i) v.oven v.table (v.real i)))

    real_of : (j : ℕ) (b : Bool) → (i == j) ≡ b → IsReal (if b then p else s.pc j)
    real_of j true h = after.real
    real_of j false h = v.real j

pub Reach-Inv :
    {cooks suppliers : ℕ} {s : System} → Reach cooks suppliers s → Inv (cooks + suppliers) s
Reach-Inv {cooks} {suppliers} begin = start-Inv cooks (cooks + suppliers)
Reach-Inv (next r st) = Step-Inv st (Reach-Inv r)
