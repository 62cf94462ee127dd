-- ===== src/Santa/World.antt =====
-- All threads of cw09/zad1/main.c together, which take their steps in any order after
-- `create_threads`, until `clean` cancels the elves. A wait ends by a broadcast or, where `wakes`
-- holds, by itself, as the documentation of `pthread_cond_wait` allows.
use operating_systems_course.Common.{ℕ, ◌+◌, ◌<◌, ◌≡◌, Bool, true, some, none, Option}
use operating_systems_course.Common.Crowd.{moved}
use operating_systems_course.Santa.{
  Shared, start, Signal, santa_task, santa_sleeps, santa_helping, delivery_ended, SantaPc,
  ReindeerPc, ElfPc, reindeers_number, elves_number,
}
use operating_systems_course.Santa.Threads.{santa_step, reindeer_step, elf_step}

pub record World : Type 0 where
  pub shared : Shared
  pub santa : SantaPc
  pub reindeer : ℕ → ReindeerPc
  pub elf : ℕ → ElfPc

-- What a broadcast does to a thread that waits for it.
unfoldable pub wake_santa : Signal → SantaPc → SantaPc
wake_santa santa_task SantaPc.asleep = SantaPc.woken
wake_santa _ p = p

unfoldable pub wake_reindeer : Signal → ReindeerPc → ReindeerPc
wake_reindeer santa_sleeps ReindeerPc.napping = ReindeerPc.roused
wake_reindeer delivery_ended ReindeerPc.harnessed = ReindeerPc.freed
wake_reindeer _ p = p

unfoldable pub wake_elf : Signal → ElfPc → ElfPc
wake_elf santa_sleeps ElfPc.napping = ElfPc.roused
wake_elf santa_helping ElfPc.waiting = ElfPc.helped
wake_elf _ p = p

abbrev pub broadcast : Signal → World → World
broadcast signal w = record w {
  santa = wake_santa signal w.santa;
  reindeer = λ i. wake_reindeer signal (w.reindeer i);
  elf = λ i. wake_elf signal (w.elf i);
}

-- `create_threads`
abbrev pub created : World
created = record {
  shared = start;
  santa = SantaPc.before_sleep;
  reindeer = λ i. ReindeerPc.running;
  elf = λ i. ElfPc.working;
}

-- Where a wait that ends by itself leaves the thread. An elf that was shut out locks
-- elves_waiting_mutex again and goes back to the test, as one that comes from work does.
unfoldable pub reindeer_wakes : ReindeerPc → Option ReindeerPc
reindeer_wakes ReindeerPc.napping = some ReindeerPc.roused
reindeer_wakes ReindeerPc.harnessed = some ReindeerPc.freed
reindeer_wakes _ = none

unfoldable pub elf_wakes : ElfPc → Option ElfPc
elf_wakes ElfPc.shut_out = some ElfPc.working
elf_wakes ElfPc.napping = some ElfPc.roused
elf_wakes ElfPc.waiting = some ElfPc.helped
elf_wakes _ = none

pub data Step (wakes : Bool) (w : World) : World → Type 0 where
  santa_moves :
      {g : Shared} {p : SantaPc} {signal : Signal}
      → santa_step w.shared w.santa ≡ some (g, p, signal)
      → Step wakes w (broadcast signal (record w { shared = g; santa = p }))
  reindeer_moves :
      (i : ℕ) {g : Shared} {p : ReindeerPc} {signal : Signal}
      → i < reindeers_number
      → reindeer_step w.shared (w.reindeer i) ≡ some (g, p, signal)
      → Step wakes w (broadcast signal (record w { shared = g; reindeer = moved w.reindeer i p }))
  elf_moves :
      (i : ℕ) {g : Shared} {p : ElfPc} {signal : Signal}
      → i < elves_number
      → elf_step (i + 1) w.shared (w.elf i) ≡ some (g, p, signal)
      → Step wakes w (broadcast signal (record w { shared = g; elf = moved w.elf i p }))
  santa_stirs :
      wakes ≡ true → w.santa ≡ SantaPc.asleep → Step wakes w (record w { santa = SantaPc.woken })
  reindeer_stirs :
      (i : ℕ) {p : ReindeerPc}
      → wakes ≡ true
      → i < reindeers_number
      → reindeer_wakes (w.reindeer i) ≡ some p
      → Step wakes w (record w { reindeer = moved w.reindeer i p })
  elf_stirs :
      (i : ℕ) {p : ElfPc}
      → wakes ≡ true
      → i < elves_number
      → elf_wakes (w.elf i) ≡ some p
      → Step wakes w (record w { elf = moved w.elf i p })

pub data Reach (wakes : Bool) (w : World) : World → Type 0 where
  here : Reach wakes w w
  next : {u v : World} → Reach wakes w u → Step wakes u v → Reach wakes w v
