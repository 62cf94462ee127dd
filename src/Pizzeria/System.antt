-- ===== src/Pizzeria/System.antt =====
-- All processes of cw07/zad1 together: `main` of main.c forks the cooks and then the suppliers, and
-- they take their steps in any order.
use operating_systems_course.Common.{ℕ, ◌+◌, ◌<◌, ◌≡◌, some, ltb, if◌then◌else◌}
use operating_systems_course.Pizzeria.Process.{Kitchen, setup, Pc, preparing, waiting, step}
use operating_systems_course.Common.Crowd.{moved}

pub record System : Type 0 where
  pub kitchen : Kitchen
  pub pc : ℕ → Pc

-- Processes `0` to `cooks - 1` are cooks, the others suppliers.
abbrev pub forked : ℕ → ℕ → Pc
forked cooks i = if ltb i cooks then preparing else waiting

abbrev pub start : ℕ → System
start cooks = record { kitchen = setup; pc = forked cooks }

-- One of the `n` processes takes a step.
pub data Step (n : ℕ) (s : System) : System → Type 0 where
  pick :
      (i random : ℕ) {k : Kitchen} {p : Pc}
      → i < n
      → step random s.kitchen (s.pc i) ≡ some (k, p)
      → Step n s (record { kitchen = k; pc = moved s.pc i p })

pub data Reach (cooks suppliers : ℕ) : System → Type 0 where
  begin : Reach cooks suppliers (start cooks)
  next :
      {s t : System}
      → Reach cooks suppliers s
      → Step (cooks + suppliers) s t
      → Reach cooks suppliers t
