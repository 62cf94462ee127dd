-- ===== src/Santa/Reindeers.antt =====
-- What reindeers_mutex and `waiting_reindeers` of cw09/zad1/main.c count, and that every step keeps
-- the counts.
use operating_systems_course.Common.{ℕ, ◌+◌, ◌*◌, ◌≤◌, ◌<◌, ◌≡◌, refl, some, arith}
use operating_systems_course.Common.Crowd.{
  moved, crowd, crowd-moved, crowd-same, crowd-le, weight-le-crowd,
}
use operating_systems_course.Santa.{
  Shared, Signal, silent, santa_task, santa_sleeps, santa_helping, delivery_ended, SantaPc,
  ReindeerPc, ElfPc, elves_number, reindeers_number,
}
use operating_systems_course.Santa.Threads.{santa_step, reindeer_step, elf_step}
use operating_systems_course.Santa.World.{wake_santa, wake_reindeer, wake_elf}

-- With reindeers_mutex, before counting itself.
abbrev pub counts : ReindeerPc → ℕ
counts ReindeerPc.counting = 1
counts _ = 0

-- Counted since the last delivery, and not set free.
abbrev pub counted : ReindeerPc → ℕ
counted ReindeerPc.to_santa = 1
counted ReindeerPc.looking = 1
counted ReindeerPc.napping = 1
counted ReindeerPc.roused = 1
counted ReindeerPc.calling = 1
counted ReindeerPc.to_wait = 1
counted ReindeerPc.entering = 1
counted ReindeerPc.harnessed = 1
counted _ = 0

abbrev pub peers : ElfPc → ℕ
peers ElfPc.peering = 1
peers _ = 0

abbrev pub santa_has_reindeers : SantaPc → ℕ
santa_has_reindeers SantaPc.judging = 1
santa_has_reindeers SantaPc.delivering = 1
santa_has_reindeers SantaPc.announcing = 1
santa_has_reindeers SantaPc.resetting = 1
santa_has_reindeers _ = 0

-- Santa has found all reindeers waiting.
abbrev pub gathered : SantaPc → ℕ
gathered SantaPc.delivering = 1
gathered SantaPc.announcing = 1
gathered SantaPc.resetting = 1
gathered _ = 0

abbrev pub resets : SantaPc → ℕ
resets SantaPc.resetting = 1
resets _ = 0

pub record Reindeers (g : Shared) (santa : SantaPc) (reindeer : ℕ → ReindeerPc) (elf : ℕ → ElfPc)
    : Type 0 where
  pub mutex :
      g.reindeers_mutex
      ≡ crowd counts reindeers_number reindeer
        + crowd peers elves_number elf
        + santa_has_reindeers santa
  pub mutex_le : g.reindeers_mutex ≤ 1
  pub bound :
      g.waiting_reindeers
      ≤ crowd counted reindeers_number reindeer + reindeers_number * resets santa
  pub most : g.waiting_reindeers ≤ reindeers_number
  pub all : reindeers_number * gathered santa ≤ g.waiting_reindeers

-- The sums before and behind a step of reindeer `i`.
pub record ReindeerSums (reindeer : ℕ → ReindeerPc) (i : ℕ) (p p' : ReindeerPc) : Type 0 where
  pub counters :
      crowd counts reindeers_number (moved reindeer i p') + counts p
      ≡ crowd counts reindeers_number reindeer + counts p'
  pub counteds :
      crowd counted reindeers_number (moved reindeer i p') + counted p
      ≡ crowd counted reindeers_number reindeer + counted p'
  pub bounded : crowd counted reindeers_number (moved reindeer i p') ≤ reindeers_number
  pub here : counts p ≤ crowd counts reindeers_number reindeer

pub counted_le : (p : ReindeerPc) → counted p ≤ 1
counted_le ReindeerPc.running = omega arith
counted_le p = omega arith

pub crowd-counted-le :
    (reindeer : ℕ → ReindeerPc) → crowd counted reindeers_number reindeer ≤ reindeers_number
crowd-counted-le reindeer = crowd-le counted reindeers_number reindeer counted_le

gathered-le : (p : SantaPc) → gathered p ≤ santa_has_reindeers p
gathered-le SantaPc.before_sleep = omega arith
gathered-le p = omega arith

resets-le : (p : SantaPc) → resets p ≤ santa_has_reindeers p
resets-le SantaPc.before_sleep = omega arith
resets-le p = omega arith

resets_le_one : (p : SantaPc) → resets p ≤ 1
resets_le_one SantaPc.before_sleep = omega arith
resets_le_one p = omega arith

pub reindeer_sums :
    (reindeer : ℕ → ReindeerPc) (i : ℕ) (p' : ReindeerPc)
    → i < reindeers_number
    → ReindeerSums reindeer i (reindeer i) p'
reindeer_sums reindeer i p' lt = record {
  counters = crowd-moved counts reindeers_number reindeer i p' lt;
  counteds = crowd-moved counted reindeers_number reindeer i p' lt;
  bounded = crowd-counted-le (moved reindeer i p');
  here = weight-le-crowd counts reindeers_number reindeer i lt;
}

pub reindeer_step-Reindeers :
    (g g' : Shared) (santa : SantaPc) (reindeer : ℕ → ReindeerPc) (elf : ℕ → ElfPc) (i : ℕ)
    (p p' : ReindeerPc) (signal : Signal)
    → Reindeers g santa reindeer elf
    → ReindeerSums reindeer i p p'
    → reindeer_step g p ≡ some (g', p', signal)
    → Reindeers g' santa (moved reindeer i p') elf
unfolding reindeer_step
reindeer_step-Reindeers g g' santa reindeer elf i ReindeerPc.running p' signal v s e = ground arith
reindeer_step-Reindeers g g' santa reindeer elf i ReindeerPc.counting p' signal v s e =
    ground (arith, gathered-le santa, resets-le santa)
reindeer_step-Reindeers g g' santa reindeer elf i p p' signal v s e = ground arith

pub santa_step-Reindeers :
    (g g' : Shared) (reindeer : ℕ → ReindeerPc) (elf : ℕ → ElfPc) (p p' : SantaPc) (signal : Signal)
    → Reindeers g p reindeer elf
    → santa_step g p ≡ some (g', p', signal)
    → Reindeers g' p' reindeer elf
unfolding santa_step
santa_step-Reindeers g g' reindeer elf SantaPc.before_sleep p' signal v e = ground arith
santa_step-Reindeers g g' reindeer elf p p' signal v e = ground arith

pub elf_step-Reindeers :
    (id : ℕ) (g g' : Shared) (santa : SantaPc) (reindeer : ℕ → ReindeerPc) (elf : ℕ → ElfPc) (i : ℕ)
    (p p' : ElfPc) (signal : Signal)
    → Reindeers g santa reindeer elf
    → crowd peers elves_number (moved elf i p') + peers p ≡ crowd peers elves_number elf + peers p'
    → elf_step id g p ≡ some (g', p', signal)
    → Reindeers g' santa reindeer (moved elf i p')
unfolding elf_step
elf_step-Reindeers id g g' santa reindeer elf i ElfPc.working p' signal v s e = ground arith
elf_step-Reindeers id g g' santa reindeer elf i p p' signal v s e = ground arith

-- A broadcast keeps the weights, but that of the end of a delivery, which Santa makes before
-- `waiting_reindeers = 0`.
counts-wake_reindeer :
    (signal : Signal) (p : ReindeerPc) → counts (wake_reindeer signal p) ≡ counts p
unfolding wake_reindeer
counts-wake_reindeer silent p = refl
counts-wake_reindeer signal p = ground arith

peers-wake_elf : (signal : Signal) (p : ElfPc) → peers (wake_elf signal p) ≡ peers p
unfolding wake_elf
peers-wake_elf silent p = refl
peers-wake_elf signal p = ground arith

-- Santa is woken outside his part with the mutex.
record SameSanta (p q : SantaPc) : Type 0 where
  has : santa_has_reindeers q ≡ santa_has_reindeers p
  gather : gathered q ≡ gathered p
  reset : resets q ≡ resets p

wake_santa-SameSanta : (signal : Signal) (p : SantaPc) → SameSanta p (wake_santa signal p)
unfolding wake_santa
wake_santa-SameSanta silent p = ground arith
wake_santa-SameSanta signal p = ground arith

-- The reindeers counted before a broadcast still are, or Santa is about to reset the counter.
abbrev pub Spared : Signal → SantaPc → Type 0
Spared delivery_ended p = resets p ≡ 1
Spared _ p = Unit

crowd-counted-wake :
    (signal : Signal) (p : SantaPc) (reindeer : ℕ → ReindeerPc)
    → Spared signal p
    → crowd counted reindeers_number reindeer
      ≤ crowd counted reindeers_number (λ i. wake_reindeer signal (reindeer i))
        + reindeers_number * resets p
unfolding wake_reindeer
crowd-counted-wake delivery_ended p reindeer h = omega (arith, h, crowd-counted-le reindeer)
crowd-counted-wake silent p reindeer h =
    omega (arith, crowd-same counted reindeers_number reindeer (wake_reindeer silent) (λ q. refl))
crowd-counted-wake santa_task p reindeer h =
    omega
      (arith, crowd-same counted reindeers_number reindeer (wake_reindeer santa_task) (λ q. refl))
crowd-counted-wake santa_sleeps p reindeer h =
    omega (
      arith,
      crowd-same counted reindeers_number reindeer (wake_reindeer santa_sleeps) roused_counts,
    )
  where
    roused_counts : (q : ReindeerPc) → counted (wake_reindeer santa_sleeps q) ≡ counted q
    roused_counts ReindeerPc.running = refl
    roused_counts q = refl
crowd-counted-wake santa_helping p reindeer h =
    omega (
      arith,
      crowd-same counted reindeers_number reindeer (wake_reindeer santa_helping) (λ q. refl),
    )

pub wake-Reindeers :
    (signal : Signal) (g : Shared) (santa : SantaPc) (reindeer : ℕ → ReindeerPc) (elf : ℕ → ElfPc)
    → Spared signal santa
    → Reindeers g santa reindeer elf
    → Reindeers g
        (wake_santa signal santa)
        (λ i. wake_reindeer signal (reindeer i))
        (λ i. wake_elf signal (elf i))
wake-Reindeers signal g santa reindeer elf spared v =
    let same = wake_santa-SameSanta signal santa in
    let counters =
      crowd-same counts reindeers_number reindeer (wake_reindeer signal)
        (counts-wake_reindeer signal) in
    let peering = crowd-same peers elves_number elf (wake_elf signal) (peers-wake_elf signal) in
    record {
      mutex = ground (arith, counters, peering, same.has);
      mutex_le = v.mutex_le;
      bound = omega (
        arith,
        v.bound,
        v.most,
        crowd-counted-wake signal santa reindeer spared,
        same.reset,
        resets_le_one santa,
      );
      most = v.most;
      all = ground (arith, same.gather);
    }

-- What each thread broadcasts.
pub santa_step-Spared :
    (g g' : Shared) (p p' : SantaPc) (signal : Signal)
    → santa_step g p ≡ some (g', p', signal)
    → Spared signal p'
unfolding santa_step
santa_step-Spared g g' SantaPc.before_sleep p' signal e = ground arith
santa_step-Spared g g' p p' signal e = ground arith

pub reindeer_step-Spared :
    (g g' : Shared) (santa : SantaPc) (p p' : ReindeerPc) (signal : Signal)
    → reindeer_step g p ≡ some (g', p', signal)
    → Spared signal santa
unfolding reindeer_step
reindeer_step-Spared g g' santa ReindeerPc.running p' signal e = ground arith
reindeer_step-Spared g g' santa p p' signal e = ground arith

pub elf_step-Spared :
    (id : ℕ) (g g' : Shared) (santa : SantaPc) (p p' : ElfPc) (signal : Signal)
    → elf_step id g p ≡ some (g', p', signal)
    → Spared signal santa
unfolding elf_step
elf_step-Spared id g g' santa ElfPc.working p' signal e = ground arith
elf_step-Spared id g g' santa p p' signal e = ground arith
