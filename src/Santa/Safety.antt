-- ===== src/Santa/Safety.antt =====
-- What holds in every state that the threads of cw09/zad1/main.c reach.
use operating_systems_course.Common.{ℕ, ◌-◌, ◌≤◌, ◌<◌, ◌≡◌, Bool, false, refl, arith, length}
use operating_systems_course.Common.Crowd.{weight-le-crowd}
use operating_systems_course.Santa.{ElfPc, elves_number, reindeers_number, required_elves_number}
use operating_systems_course.Santa.World.{World, Reach, created}
use operating_systems_course.Santa.Elves.{writes}
use operating_systems_course.Santa.Invariant.{Reach-Inv}

-- If no wait ends spuriously, then in every state reached, until clean cancels the elves, at most
-- three elves and at most nine reindeers are counted as waiting.
pub counters_bounded :
    {w : World}
    → Reach false created w
    → (w.shared.waiting_elves ≤ required_elves_number)
      × (w.shared.waiting_reindeers ≤ reindeers_number)
counters_bounded r = let v = Reach-Inv r in (omega (arith, v.elves.room), (v.reindeers refl).most)

-- Until clean cancels the elves, and even if waits end spuriously, an elf that is about to write to
-- elves_queue writes to one of its three places.
pub queue_in_bounds :
    {wakes : Bool} {w : World}
    → Reach wakes created w
    → (i : ℕ) → i < elves_number
    → w.elf i ≡ ElfPc.queueing
    → (1 ≤ w.shared.waiting_elves) × (w.shared.waiting_elves - 1 < length w.shared.elves_queue)
queue_in_bounds {w = w} r i lt e =
    let v = (Reach-Inv r).elves in
    let here = weight-le-crowd writes elves_number w.elf i lt in
    let one : writes (w.elf i) ≡ 1 = rw e refl in
    (omega (arith, v.written, here, one), omega (arith, v.room, v.written, v.queue, here, one))
