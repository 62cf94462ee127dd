-- ===== src/Santa/Tests.antt =====
-- Runs of the threads of cw09/zad1/main.c, in a given order.
use operating_systems_course.Common.{
  ℕ, ◌+◌, ◌-◌, ◌≤◌, ◌<◌, ◌≡◌, refl, false, List, [], ◌∷◌, ◌++◌, Option, none, some, arith, length,
  dec_lt,
}
use operating_systems_course.Santa.{
  Shared, Signal, SantaPc, ReindeerPc, ElfPc, reindeers_number, elves_number, required_elves_number,
}
use operating_systems_course.Santa.Threads.{santa_step, reindeer_step, elf_step}
use operating_systems_course.Santa.World.{
  World, created, santa_moves, reindeer_moves, elf_moves, Reach, here, next, wake_santa,
  wake_reindeer, wake_elf,
}
use operating_systems_course.Santa.Safety.{counters_bounded, queue_in_bounds}

data Mover : Type 0 where
  santa : Mover
  reindeer : ℕ → Mover
  elf : ℕ → Mover

-- A run in which no wait ends by itself.
record Run (w : World) : Type 0 where
  last : World
  reach : Reach false w last

-- A thread that cannot move leaves the run as it is.
santa_turn :
    {w : World} (r : Run w) (o : Option (Shared × SantaPc × Signal))
    → santa_step r.last.shared r.last.santa ≡ o
    → Run w
santa_turn r none e = r
santa_turn r (some (g, p, signal)) e = record { last = _; reach = next r.reach (santa_moves e) }

reindeer_turn :
    {w : World} (r : Run w) (i : ℕ)
    → i < reindeers_number
    → (o : Option (Shared × ReindeerPc × Signal))
    → reindeer_step r.last.shared (r.last.reindeer i) ≡ o
    → Run w
reindeer_turn r i lt none e = r
reindeer_turn r i lt (some (g, p, signal)) e = record {
  last = _;
  reach = next r.reach (reindeer_moves i lt e);
}

elf_turn :
    {w : World} (r : Run w) (i : ℕ)
    → i < elves_number
    → (o : Option (Shared × ElfPc × Signal)) → elf_step (i + 1) r.last.shared (r.last.elf i) ≡ o
    → Run w
elf_turn r i lt none e = r
elf_turn r i lt (some (g, p, signal)) e = record {
  last = _;
  reach = next r.reach (elf_moves i lt e);
}

turn : {w : World} → Run w → Mover → Run w
unfolding santa_turn reindeer_turn elf_turn dec_lt
turn r santa = santa_turn r (santa_step r.last.shared r.last.santa) refl
turn r (reindeer i) = elim (dec_lt i reindeers_number) [
  | yes lt ↦ reindeer_turn r i lt (reindeer_step r.last.shared (r.last.reindeer i)) refl
  | no _ ↦ r
]
turn r (elf i) = elim (dec_lt i elves_number) [
  | yes lt ↦ elf_turn r i lt (elf_step (i + 1) r.last.shared (r.last.elf i)) refl
  | no _ ↦ r
]

run : {w : World} → Run w → List Mover → Run w
unfolding turn santa_step reindeer_step elf_step wake_santa wake_reindeer wake_elf
run r [] = r
run r (m ∷ ms) = run (turn r m) ms

at_start : (w : World) → Run w
at_start w = record { last = w; reach = here }

abbrev times : ℕ → Mover → List Mover
times ℕ.zero m = []
times (ℕ.suc n) m = m ∷ times n m

-- The first elf is about to write to the queue.
abbrev first_elf : Run created
unfolding run at_start
first_elf = run (at_start created) (times 4 (elf 0))

first_elf_run : first_elf.last.elf 0 ≡ ElfPc.queueing
unfolding first_elf
first_elf_run = refl

counters_bounded_example :
    (first_elf.last.shared.waiting_elves ≤ required_elves_number)
    × (first_elf.last.shared.waiting_reindeers ≤ reindeers_number)
counters_bounded_example = counters_bounded first_elf.reach

queue_in_bounds_example :
    (1 ≤ first_elf.last.shared.waiting_elves)
    × (first_elf.last.shared.waiting_elves - 1 < length first_elf.last.shared.elves_queue)
queue_in_bounds_example = queue_in_bounds first_elf.reach 0 (omega arith) first_elf_run

-- Santa sleeps, eight reindeers come and wait, the ninth wakes him, and he finds all of them.
abbrev arrivals : ℕ → List Mover
arrivals ℕ.zero = []
arrivals (ℕ.suc n) = times 5 (reindeer n) ++ arrivals n

abbrev delivery : Run created
unfolding run at_start
delivery =
    run (at_start created)
      (times 2 santa ++ (arrivals 8 ++ (times 7 (reindeer 8) ++ times 4 santa)))

-- The third elf broadcasts while Santa is not yet waiting: all threads but the reindeers are stuck.
abbrev lost_call : Run created
unfolding run at_start
lost_call =
    run (at_start created)
      (times 6 (elf 0) ++ (times 6 (elf 1) ++ (times 13 (elf 2) ++ times 2 santa)))

lost_call_run :
    (lost_call.last.santa ≡ SantaPc.asleep)
    × (lost_call.last.elf 0 ≡ ElfPc.waiting)
    × (lost_call.last.elf 2 ≡ ElfPc.waiting)
    × (lost_call.last.shared.waiting_elves ≡ 3)
unfolding lost_call
lost_call_run = (refl, refl, refl, refl)
