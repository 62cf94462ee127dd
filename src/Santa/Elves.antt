-- ===== src/Santa/Elves.antt =====
-- What the mutexes of the elves of cw09/zad1/main.c and `waiting_elves` count, and that every step
-- keeps the counts.
use operating_systems_course.Common.{
  ℕ, ◌+◌, ◌-◌, ◌≤◌, ◌<◌, ◌≡◌, refl, some, arith, length, length-set,
}
use operating_systems_course.Common.Crowd.{moved, crowd, crowd-moved, crowd-same}
use operating_systems_course.Santa.{
  Shared, Signal, silent, SantaPc, ReindeerPc, ElfPc, elves_number, required_elves_number,
}
use operating_systems_course.Santa.Threads.{santa_step, reindeer_step, elf_step}
use operating_systems_course.Santa.World.{wake_santa, wake_elf, elf_wakes}

-- With elves_waiting_mutex, before the test of `waiting_elves`.
abbrev pub before_gate : ElfPc → ℕ
before_gate ElfPc.at_gate = 1
before_gate _ = 0

-- With elves_waiting_mutex, after the test.
abbrev pub behind_gate : ElfPc → ℕ
behind_gate ElfPc.passed = 1
behind_gate ElfPc.joining = 1
behind_gate _ = 0

-- Counted, and not yet in the queue.
abbrev pub writes : ElfPc → ℕ
writes ElfPc.queueing = 1
writes _ = 0

-- With elves_mutex at another point.
abbrev pub has_elves : ElfPc → ℕ
has_elves ElfPc.joining = 1
has_elves ElfPc.calling = 1
has_elves ElfPc.called = 1
has_elves ElfPc.asking = 1
has_elves ElfPc.thanking = 1
has_elves _ = 0

abbrev pub santa_has_elves : SantaPc → ℕ
santa_has_elves SantaPc.greeting = 1
santa_has_elves SantaPc.greeted = 1
santa_has_elves SantaPc.parting = 1
santa_has_elves SantaPc.parted = 1
santa_has_elves _ = 0

pub record Elves (g : Shared) (santa : SantaPc) (elf : ℕ → ElfPc) : Type 0 where
  pub gate :
      g.elves_waiting_mutex
      ≡ crowd before_gate elves_number elf + crowd behind_gate elves_number elf
  pub gate_le : g.elves_waiting_mutex ≤ 1
  pub elves :
      g.elves_mutex
      ≡ crowd has_elves elves_number elf + crowd writes elves_number elf + santa_has_elves santa
  pub elves_le : g.elves_mutex ≤ 1
  pub room : g.waiting_elves + crowd behind_gate elves_number elf ≤ required_elves_number
  pub written : crowd writes elves_number elf ≤ g.waiting_elves
  pub queue : length g.elves_queue ≡ required_elves_number

-- The sums before and behind a step of elf `i` from `p` to `p'`.
pub record ElfSums (elf : ℕ → ElfPc) (i : ℕ) (p p' : ElfPc) : Type 0 where
  pub befores :
      crowd before_gate elves_number (moved elf i p') + before_gate p
      ≡ crowd before_gate elves_number elf + before_gate p'
  pub behinds :
      crowd behind_gate elves_number (moved elf i p') + behind_gate p
      ≡ crowd behind_gate elves_number elf + behind_gate p'
  pub writers :
      crowd writes elves_number (moved elf i p') + writes p
      ≡ crowd writes elves_number elf + writes p'
  pub holders :
      crowd has_elves elves_number (moved elf i p') + has_elves p
      ≡ crowd has_elves elves_number elf + has_elves p'

pub elf_sums : (elf : ℕ → ElfPc) (i : ℕ) (p' : ElfPc) → i < elves_number → ElfSums elf i (elf i) p'
elf_sums elf i p' lt = record {
  befores = crowd-moved before_gate elves_number elf i p' lt;
  behinds = crowd-moved behind_gate elves_number elf i p' lt;
  writers = crowd-moved writes elves_number elf i p' lt;
  holders = crowd-moved has_elves elves_number elf i p' lt;
}

pub elf_step-Elves :
    (id : ℕ) (g g' : Shared) (santa : SantaPc) (elf : ℕ → ElfPc) (i : ℕ) (p p' : ElfPc)
    (signal : Signal)
    → Elves g santa elf
    → ElfSums elf i p p'
    → before_gate p ≤ crowd before_gate elves_number elf
    → elf_step id g p ≡ some (g', p', signal)
    → Elves g' santa (moved elf i p')
unfolding elf_step
elf_step-Elves id g g' santa elf i ElfPc.working p' signal v s at e = ground arith
elf_step-Elves id g g' santa elf i ElfPc.queueing p' signal v s at e =
    ground (arith, length-set g.elves_queue (g.waiting_elves - 1) id)
elf_step-Elves id g g' santa elf i p p' signal v s at e = ground arith

pub santa_step-Elves :
    (g g' : Shared) (elf : ℕ → ElfPc) (p p' : SantaPc) (signal : Signal)
    → Elves g p elf
    → santa_step g p ≡ some (g', p', signal)
    → Elves g' p' elf
unfolding santa_step
santa_step-Elves g g' elf SantaPc.before_sleep p' signal v e = ground arith
santa_step-Elves g g' elf p p' signal v e = ground arith

pub reindeer_step-Elves :
    (g g' : Shared) (santa : SantaPc) (elf : ℕ → ElfPc) (p p' : ReindeerPc) (signal : Signal)
    → Elves g santa elf
    → reindeer_step g p ≡ some (g', p', signal)
    → Elves g' santa elf
unfolding reindeer_step
reindeer_step-Elves g g' santa elf ReindeerPc.running p' signal v e = ground arith
reindeer_step-Elves g g' santa elf p p' signal v e = ground arith

pub elf_wakes-Elves :
    (g : Shared) (santa : SantaPc) (elf : ℕ → ElfPc) (i : ℕ) (p p' : ElfPc)
    → Elves g santa elf
    → ElfSums elf i p p'
    → elf_wakes p ≡ some p'
    → Elves g santa (moved elf i p')
unfolding elf_wakes
elf_wakes-Elves g santa elf i ElfPc.working p' v s e = ground arith
elf_wakes-Elves g santa elf i p p' v s e = ground arith

pub santa_stirs-Elves :
    (g : Shared) (elf : ℕ → ElfPc) (p : SantaPc)
    → p ≡ SantaPc.asleep
    → Elves g p elf
    → Elves g SantaPc.woken elf
santa_stirs-Elves g elf SantaPc.asleep e v = ground arith
santa_stirs-Elves g elf SantaPc.before_sleep e v = ground arith
santa_stirs-Elves g elf p e v = ground arith

-- Waking leaves every weight as it was.
record SameWeights (p q : ElfPc) : Type 0 where
  before : before_gate q ≡ before_gate p
  behind : behind_gate q ≡ behind_gate p
  write : writes q ≡ writes p
  hold : has_elves q ≡ has_elves p

wake_elf-SameWeights : (signal : Signal) (p : ElfPc) → SameWeights p (wake_elf signal p)
unfolding wake_elf
wake_elf-SameWeights silent p = ground arith
wake_elf-SameWeights signal p = ground arith

santa_has_elves-wake_santa :
    (signal : Signal) (p : SantaPc) → santa_has_elves (wake_santa signal p) ≡ santa_has_elves p
unfolding wake_santa
santa_has_elves-wake_santa silent p = refl
santa_has_elves-wake_santa signal p = ground arith

pub wake-Elves :
    (signal : Signal) (g : Shared) (santa : SantaPc) (elf : ℕ → ElfPc)
    → Elves g santa elf
    → Elves g (wake_santa signal santa) (λ i. wake_elf signal (elf i))
wake-Elves signal g santa elf v =
    let same = wake_elf-SameWeights signal in
    let befores =
      crowd-same before_gate elves_number elf (wake_elf signal) (λ p. (same p).before) in
    let behinds =
      crowd-same behind_gate elves_number elf (wake_elf signal) (λ p. (same p).behind) in
    let writers = crowd-same writes elves_number elf (wake_elf signal) (λ p. (same p).write) in
    let holders = crowd-same has_elves elves_number elf (wake_elf signal) (λ p. (same p).hold) in
    ground (arith, befores, behinds, writers, holders, santa_has_elves-wake_santa signal santa)
