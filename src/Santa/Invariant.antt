-- ===== src/Santa/Invariant.antt =====
-- The invariant of all threads of cw09/zad1/main.c in every state that they reach.
use operating_systems_course.Common.{ℕ, ◌+◌, ◌≡◌, refl, Bool, false, arith}
use operating_systems_course.Common.Crowd.{moved, crowd, crowd-moved, crowd_zero, weight-le-crowd}
use operating_systems_course.Santa.{Signal, ReindeerPc, ElfPc, elves_number, reindeers_number}
use operating_systems_course.Santa.World.{
  World, Step, santa_moves, reindeer_moves, elf_moves, santa_stirs, reindeer_stirs, elf_stirs,
  Reach, here, next, broadcast, created,
}
use operating_systems_course.Santa.Elves.{
  Elves, before_gate, behind_gate, writes, has_elves, elf_sums, elf_step-Elves, elf_wakes-Elves,
  santa_stirs-Elves, santa_step-Elves, reindeer_step-Elves, wake-Elves,
}
use operating_systems_course.Santa.Reindeers.{
  Reindeers, counts, peers, reindeer_sums, reindeer_step-Reindeers, santa_step-Reindeers,
  elf_step-Reindeers, Spared, santa_step-Spared, reindeer_step-Spared, elf_step-Spared,
  wake-Reindeers,
}

-- What is said of the reindeers needs that no wait ends by itself.
pub record Inv (wakes : Bool) (w : World) : Type 0 where
  pub elves : Elves w.shared w.santa w.elf
  pub reindeers : wakes ≡ false → Reindeers w.shared w.santa w.reindeer w.elf

pub created-Inv : (wakes : Bool) → Inv wakes created
created-Inv wakes = record {
  elves = record {
    gate = omega (arith, idle before_gate refl, idle behind_gate refl);
    gate_le = omega arith;
    elves = omega (arith, idle has_elves refl, idle writes refl);
    elves_le = omega arith;
    room = omega (arith, idle behind_gate refl);
    written = omega (arith, idle writes refl);
    queue = refl;
  };
  reindeers = λ quiet. record {
    mutex = omega (arith, idle peers refl, calm counts refl);
    mutex_le = omega arith;
    bound = omega arith;
    most = omega arith;
    all = omega arith;
  };
}
  where
    idle :
        (weight : ElfPc → ℕ)
        → weight ElfPc.working ≡ 0
        → crowd weight elves_number (λ i. ElfPc.working) ≡ 0
    idle weight z = crowd_zero weight elves_number (λ i. ElfPc.working) (λ i. z)

    calm :
        (weight : ReindeerPc → ℕ)
        → weight ReindeerPc.running ≡ 0
        → crowd weight reindeers_number (λ i. ReindeerPc.running) ≡ 0
    calm weight z = crowd_zero weight reindeers_number (λ i. ReindeerPc.running) (λ i. z)

broadcast-Inv :
    {wakes : Bool} (signal : Signal) (w : World)
    → Spared signal w.santa
    → Inv wakes w
    → Inv wakes (broadcast signal w)
broadcast-Inv signal w spared v = record {
  elves = wake-Elves signal w.shared w.santa w.elf v.elves;
  reindeers =
      λ quiet. wake-Reindeers signal w.shared w.santa w.reindeer w.elf spared (v.reindeers quiet);
}

-- Every step keeps the invariant.
pub Step-Inv : {wakes : Bool} {w u : World} → Step wakes w u → Inv wakes w → Inv wakes u
Step-Inv {w = w} (santa_moves {g} {p} {signal} e) v =
    broadcast-Inv signal (record w { shared = g; santa = p })
      (santa_step-Spared w.shared g w.santa p signal e)
      (record {
        elves = santa_step-Elves w.shared g w.elf w.santa p signal v.elves e;
        reindeers = λ quiet.
            santa_step-Reindeers w.shared g w.reindeer w.elf w.santa p signal (v.reindeers quiet) e;
      })
Step-Inv {w = w} (reindeer_moves i {g} {p} {signal} lt e) v =
    broadcast-Inv signal (record w { shared = g; reindeer = moved w.reindeer i p })
      (reindeer_step-Spared w.shared g w.santa (w.reindeer i) p signal e)
      (record {
        elves = reindeer_step-Elves w.shared g w.santa w.elf (w.reindeer i) p signal v.elves e;
        reindeers = λ quiet.
            reindeer_step-Reindeers w.shared g w.santa w.reindeer w.elf i (w.reindeer i) p signal
              (v.reindeers quiet) (reindeer_sums w.reindeer i p lt) e;
      })
Step-Inv {w = w} (elf_moves i {g} {p} {signal} lt e) v =
    broadcast-Inv signal (record w { shared = g; elf = moved w.elf i p })
      (elf_step-Spared (i + 1) w.shared g w.santa (w.elf i) p signal e)
      (record {
        elves =
            elf_step-Elves (i + 1) w.shared g w.santa w.elf i (w.elf i) p signal v.elves
              (elf_sums w.elf i p lt) (weight-le-crowd before_gate elves_number w.elf i lt) e;
        reindeers = λ quiet.
            elf_step-Reindeers (i + 1) w.shared g w.santa w.reindeer w.elf i (w.elf i) p signal
              (v.reindeers quiet) (crowd-moved peers elves_number w.elf i p lt) e;
      })
Step-Inv {w = w} (santa_stirs stirs asleep) v = record {
  elves = santa_stirs-Elves w.shared w.elf w.santa asleep v.elves;
  reindeers = λ quiet. ground (arith, stirs, quiet);
}
Step-Inv {w = w} (reindeer_stirs i stirs lt e) v = record {
  elves = v.elves;
  reindeers = λ quiet. ground (arith, stirs, quiet);
}
Step-Inv {w = w} (elf_stirs i {p} stirs lt e) v = record {
  elves = elf_wakes-Elves w.shared w.santa w.elf i (w.elf i) p v.elves (elf_sums w.elf i p lt) e;
  reindeers = λ quiet. ground (arith, stirs, quiet);
}

pub Reach-Inv : {wakes : Bool} {w : World} → Reach wakes created w → Inv wakes w
Reach-Inv {wakes} here = created-Inv wakes
Reach-Inv (next r st) = Step-Inv st (Reach-Inv r)
