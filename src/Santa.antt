-- ===== src/Santa.antt =====
-- Santa, nine reindeers and ten elves, the threads of cw09/zad1/main.c: their mutexes, condition
-- variables and counters, and where each thread stands.
pub mod Threads
pub mod World
pub mod Elves
pub mod Reindeers
pub mod Invariant
pub mod Safety
mod Tests
use operating_systems_course.Common.{ℕ, Bool, true, false, List, [], ◌∷◌, replicate}

abbrev pub elves_number : ℕ
elves_number = 10

abbrev pub reindeers_number : ℕ
reindeers_number = 9

abbrev pub delivers_number : ℕ
delivers_number = 3

abbrev pub required_elves_number : ℕ
required_elves_number = 3

-- The globals. A mutex is 0 when it is free, and 1 when a thread has it.
pub record Shared : Type 0 where
  pub waiting_reindeers : ℕ
  pub waiting_elves : ℕ
  pub deliveries : ℕ
  pub santa_sleeping : Bool
  pub elves_queue : List ℕ
  pub sleep_mutex : ℕ
  pub reindeers_mutex : ℕ
  pub elves_mutex : ℕ
  pub reindeers_waiting_mutex : ℕ
  pub elves_waiting_mutex : ℕ

abbrev pub start : Shared
start = record {
  waiting_reindeers = 0;
  waiting_elves = 0;
  deliveries = 0;
  santa_sleeping = true;
  elves_queue = replicate required_elves_number 0;
  sleep_mutex = 0;
  reindeers_mutex = 0;
  elves_mutex = 0;
  reindeers_waiting_mutex = 0;
  elves_waiting_mutex = 0;
}

-- The condition variable that a step broadcasts, if any. Nothing broadcasts `santa_helped_cond`.
pub data Signal : Type 0 where
  silent : Signal
  santa_task : Signal
  santa_sleeps : Signal
  santa_helping : Signal
  delivery_ended : Signal

-- Where Santa stands.
pub data SantaPc : Type 0 where
  before_sleep : SantaPc  -- before locking sleep_mutex
  dozing : SantaPc  -- with it, before waiting for santa_task_cond
  asleep : SantaPc  -- in that wait
  woken : SantaPc  -- before locking sleep_mutex again
  awake : SantaPc  -- before `santa_sleeping = 0`
  up : SantaPc  -- before locking reindeers_mutex
  judging : SantaPc  -- with it, before `waiting_reindeers == REINDEERS_NUMBER`
  delivering : SantaPc  -- before `deliveries++`
  announcing : SantaPc  -- before broadcasting delivery_ended_cond
  resetting : SantaPc  -- before `waiting_reindeers = 0`
  to_elves : SantaPc  -- before locking elves_mutex
  greeting : SantaPc  -- with it, before broadcasting santa_helping_cond
  greeted : SantaPc  -- before unlocking it
  solving : SantaPc  -- before locking it again
  parting : SantaPc  -- with it, before broadcasting once more
  parted : SantaPc  -- before `waiting_elves = 0`
  to_bed : SantaPc  -- before locking sleep_mutex
  lying : SantaPc  -- with it, before `santa_sleeping = 1`
  lain : SantaPc  -- before unlocking it
  finished : SantaPc

-- Where a reindeer stands.
pub data ReindeerPc : Type 0 where
  running : ReindeerPc  -- before `deliveries < DELIVERS_NUMBER`
  resting : ReindeerPc  -- before locking reindeers_mutex
  counting : ReindeerPc  -- with it, before `waiting_reindeers++`
  to_santa : ReindeerPc  -- before locking sleep_mutex
  looking : ReindeerPc  -- with it, before `santa_sleeping == 0`
  napping : ReindeerPc  -- waiting for santa_sleeping_cond
  roused : ReindeerPc  -- before locking sleep_mutex again
  calling : ReindeerPc  -- before broadcasting santa_task_cond
  to_wait : ReindeerPc  -- before locking reindeers_waiting_mutex
  entering : ReindeerPc  -- with it, before waiting for delivery_ended_cond
  harnessed : ReindeerPc  -- in that wait
  freed : ReindeerPc  -- before locking reindeers_waiting_mutex again
  leaving : ReindeerPc  -- before unlocking it
  gone : ReindeerPc

-- Where an elf stands.
pub data ElfPc : Type 0 where
  working : ElfPc  -- before locking elves_waiting_mutex
  at_gate : ElfPc  -- with it, before `waiting_elves == REQUIRED_ELVES_NUMBER`
  shut_out : ElfPc  -- waiting for santa_helped_cond
  passed : ElfPc  -- with elves_waiting_mutex, before locking elves_mutex
  joining : ElfPc  -- with both, before `waiting_elves++`
  queueing : ElfPc  -- with elves_mutex, before writing to elves_queue
  third : ElfPc  -- before locking sleep_mutex
  near : ElfPc  -- with it, before locking reindeers_mutex
  peering : ElfPc  -- with both, before the test of the loop
  held_back : ElfPc  -- with sleep_mutex, before waiting for santa_sleeping_cond
  napping : ElfPc  -- in that wait
  roused : ElfPc  -- before locking sleep_mutex again
  to_queue : ElfPc  -- with sleep_mutex, before locking elves_mutex
  calling : ElfPc  -- with both, before broadcasting santa_task_cond
  called : ElfPc  -- before unlocking sleep_mutex
  asking : ElfPc  -- with elves_mutex, before waiting for santa_helping_cond
  waiting : ElfPc  -- in that wait
  helped : ElfPc  -- before locking elves_mutex again
  thanking : ElfPc  -- before unlocking it
