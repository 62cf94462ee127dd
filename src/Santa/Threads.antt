-- ===== src/Santa/Threads.antt =====
-- The loops of `santa_function`, `reindeer_function` and `elf_function` of cw09/zad1/main.c, a step
-- at a time: a lock, a wait, a broadcast, or the writes up to an unlock. A thread that cannot lock
-- takes no step. The pauses and the printing are left out.
use operating_systems_course.Common.{
  ℕ, ◌+◌, ◌-◌, true, false, not, ◌||◌, Option, none, some, set, ltb, ◌==◌, if◌then◌else◌,
}
use operating_systems_course.Santa.{
  Shared, Signal, silent, santa_task, santa_sleeps, santa_helping, delivery_ended, SantaPc,
  ReindeerPc, ElfPc, reindeers_number, delivers_number, required_elves_number,
}

-- A free mutex is taken.
abbrev pub lock {ℓ} : {A : Type ℓ} → ℕ → Shared → A → Option (Shared × A × Signal)
lock mutex g p = if mutex == 0 then some (g, p, silent) else none

unfoldable pub santa_step : Shared → SantaPc → Option (Shared × SantaPc × Signal)
santa_step g SantaPc.before_sleep = lock g.sleep_mutex (record g { sleep_mutex = 1 }) SantaPc.dozing
santa_step g SantaPc.dozing = some (record g { sleep_mutex = 0 }, SantaPc.asleep, silent)
santa_step g SantaPc.asleep = none
santa_step g SantaPc.woken = lock g.sleep_mutex (record g { sleep_mutex = 1 }) SantaPc.awake
santa_step g SantaPc.awake =
    some (record g { santa_sleeping = false; sleep_mutex = 0 }, SantaPc.up, silent)
santa_step g SantaPc.up = lock g.reindeers_mutex (record g { reindeers_mutex = 1 }) SantaPc.judging
santa_step g SantaPc.judging =
    if g.waiting_reindeers == reindeers_number
    then some (g, SantaPc.delivering, silent)
    else some (record g { reindeers_mutex = 0 }, SantaPc.to_elves, silent)
santa_step g SantaPc.delivering =
    some (record g { deliveries = g.deliveries + 1 }, SantaPc.announcing, silent)
santa_step g SantaPc.announcing = some (g, SantaPc.resetting, delivery_ended)
santa_step g SantaPc.resetting = some (
  record g { waiting_reindeers = 0; reindeers_mutex = 0 },
  (if g.deliveries == delivers_number then SantaPc.finished else SantaPc.to_bed),
  silent,
)
santa_step g SantaPc.to_elves = lock g.elves_mutex (record g { elves_mutex = 1 }) SantaPc.greeting
santa_step g SantaPc.greeting = some (g, SantaPc.greeted, santa_helping)
santa_step g SantaPc.greeted = some (record g { elves_mutex = 0 }, SantaPc.solving, silent)
santa_step g SantaPc.solving = lock g.elves_mutex (record g { elves_mutex = 1 }) SantaPc.parting
santa_step g SantaPc.parting = some (g, SantaPc.parted, santa_helping)
santa_step g SantaPc.parted =
    some (record g { waiting_elves = 0; elves_mutex = 0 }, SantaPc.to_bed, silent)
santa_step g SantaPc.to_bed = lock g.sleep_mutex (record g { sleep_mutex = 1 }) SantaPc.lying
santa_step g SantaPc.lying = some (record g { santa_sleeping = true }, SantaPc.lain, santa_sleeps)
santa_step g SantaPc.lain = some (record g { sleep_mutex = 0 }, SantaPc.before_sleep, silent)
santa_step g SantaPc.finished = none

unfoldable pub reindeer_step : Shared → ReindeerPc → Option (Shared × ReindeerPc × Signal)
reindeer_step g ReindeerPc.running =
    some (
      g,
      (if ltb g.deliveries delivers_number then ReindeerPc.resting else ReindeerPc.gone),
      silent,
    )
reindeer_step g ReindeerPc.resting =
    lock g.reindeers_mutex (record g { reindeers_mutex = 1 }) ReindeerPc.counting
reindeer_step g ReindeerPc.counting =
    let waiting = g.waiting_reindeers + 1 in
    some (
      record g { waiting_reindeers = waiting; reindeers_mutex = 0 },
      (if waiting == reindeers_number then ReindeerPc.to_santa else ReindeerPc.to_wait),
      silent,
    )
reindeer_step g ReindeerPc.to_santa =
    lock g.sleep_mutex (record g { sleep_mutex = 1 }) ReindeerPc.looking
reindeer_step g ReindeerPc.looking = some (
  record g { sleep_mutex = 0 },
  (if g.santa_sleeping then ReindeerPc.calling else ReindeerPc.napping),
  silent,
)
reindeer_step g ReindeerPc.napping = none
reindeer_step g ReindeerPc.roused =
    lock g.sleep_mutex (record g { sleep_mutex = 1 }) ReindeerPc.looking
reindeer_step g ReindeerPc.calling = some (g, ReindeerPc.to_wait, santa_task)
reindeer_step g ReindeerPc.to_wait =
    lock g.reindeers_waiting_mutex (record g { reindeers_waiting_mutex = 1 }) ReindeerPc.entering
reindeer_step g ReindeerPc.entering =
    some (record g { reindeers_waiting_mutex = 0 }, ReindeerPc.harnessed, silent)
reindeer_step g ReindeerPc.harnessed = none
reindeer_step g ReindeerPc.freed =
    lock g.reindeers_waiting_mutex (record g { reindeers_waiting_mutex = 1 }) ReindeerPc.leaving
reindeer_step g ReindeerPc.leaving =
    some (record g { reindeers_waiting_mutex = 0 }, ReindeerPc.running, silent)
reindeer_step g ReindeerPc.gone = none

-- The elf of number `id`.
unfoldable pub elf_step : ℕ → Shared → ElfPc → Option (Shared × ElfPc × Signal)
elf_step id g ElfPc.working =
    lock g.elves_waiting_mutex (record g { elves_waiting_mutex = 1 }) ElfPc.at_gate
elf_step id g ElfPc.at_gate =
    if g.waiting_elves == required_elves_number
    then some (record g { elves_waiting_mutex = 0 }, ElfPc.shut_out, silent)
    else some (g, ElfPc.passed, silent)
elf_step id g ElfPc.shut_out = none
elf_step id g ElfPc.passed = lock g.elves_mutex (record g { elves_mutex = 1 }) ElfPc.joining
elf_step id g ElfPc.joining = some (
  record g { waiting_elves = g.waiting_elves + 1; elves_waiting_mutex = 0 },
  ElfPc.queueing,
  silent,
)
elf_step id g ElfPc.queueing =
    let queued = record g { elves_queue = set g.elves_queue (g.waiting_elves - 1) id } in
    if g.waiting_elves == required_elves_number
    then some (record queued { elves_mutex = 0 }, ElfPc.third, silent)
    else some (queued, ElfPc.asking, silent)
elf_step id g ElfPc.third = lock g.sleep_mutex (record g { sleep_mutex = 1 }) ElfPc.near
elf_step id g ElfPc.near = lock g.reindeers_mutex (record g { reindeers_mutex = 1 }) ElfPc.peering
elf_step id g ElfPc.peering = some (
  record g { reindeers_mutex = 0 },
  (if not g.santa_sleeping || (g.waiting_reindeers == reindeers_number)
      then ElfPc.held_back
      else ElfPc.to_queue),
  silent,
)
elf_step id g ElfPc.held_back = some (record g { sleep_mutex = 0 }, ElfPc.napping, silent)
elf_step id g ElfPc.napping = none
elf_step id g ElfPc.roused = lock g.sleep_mutex (record g { sleep_mutex = 1 }) ElfPc.near
elf_step id g ElfPc.to_queue = lock g.elves_mutex (record g { elves_mutex = 1 }) ElfPc.calling
elf_step id g ElfPc.calling = some (g, ElfPc.called, santa_task)
elf_step id g ElfPc.called = some (record g { sleep_mutex = 0 }, ElfPc.asking, silent)
elf_step id g ElfPc.asking = some (record g { elves_mutex = 0 }, ElfPc.waiting, silent)
elf_step id g ElfPc.waiting = none
elf_step id g ElfPc.helped = lock g.elves_mutex (record g { elves_mutex = 1 }) ElfPc.thanking
elf_step id g ElfPc.thanking = some (record g { elves_mutex = 0 }, ElfPc.working, silent)
