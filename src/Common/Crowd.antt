-- ===== src/Common/Crowd.antt =====
-- Counting the processes that stand at some points of their code.
use operating_systems_course.Common.{
  ℕ, zero, suc, ◌+◌, ◌≤◌, ◌<◌, ◌≡◌, refl, arith, ◌==◌, if◌then◌else◌, ℕ_discrete, dec_lt,
}

-- Process `i` goes to `a`; the others stay.
abbrev pub moved {ℓ} : {A : Type ℓ} → (ℕ → A) → ℕ → A → ℕ → A
moved f i a j = if i == j then a else f j

module _ {ℓ} {A : Type ℓ} (weight : A → ℕ) where
  -- The weights of the first `n` processes, added up.
  pub crowd : ℕ → (ℕ → A) → ℕ
  crowd zero f = 0
  crowd (suc n) f = weight (f n) + crowd n f

  crowd-moved_outside :
      (n : ℕ) (f : ℕ → A) (i : ℕ) (a : A) → n ≤ i → crowd n (moved f i a) ≡ crowd n f
  unfolding crowd
  crowd-moved_outside zero f i a h = refl
  crowd-moved_outside (suc n) f i a h = ground (arith, crowd-moved_outside n f i a)

  -- One process that moves changes the sum by its own weight.
  pub crowd-moved :
      (n : ℕ) (f : ℕ → A) (i : ℕ) (a : A)
      → i < n
      → crowd n (moved f i a) + weight (f i) ≡ crowd n f + weight a
  unfolding crowd
  crowd-moved zero f i a h = absurd (omega arith)
  crowd-moved (suc n) f i a h = elim (ℕ_discrete i n) [
    | yes last ↦ ground (arith, last, crowd-moved_outside n f i a)
    | no earlier ↦ ground (arith, crowd-moved n f i a)
  ]

  pub weight-le-crowd : (n : ℕ) (f : ℕ → A) (i : ℕ) → i < n → weight (f i) ≤ crowd n f
  unfolding crowd
  weight-le-crowd zero f i h = absurd (omega arith)
  weight-le-crowd (suc n) f i h = elim (ℕ_discrete i n) [
    | yes last ↦ ground (arith, last)
    | no earlier ↦ ground (arith, weight-le-crowd n f i)
  ]

  -- Two different processes weigh no more than all.
  pub weights-le-crowd :
      (n : ℕ) (f : ℕ → A) (i j : ℕ) → i < n → j < i → weight (f i) + weight (f j) ≤ crowd n f
  unfolding crowd
  weights-le-crowd zero f i j h l = absurd (omega arith)
  weights-le-crowd (suc n) f i j h l = elim (ℕ_discrete i n) [
    | yes last ↦ ground (arith, last, weight-le-crowd n f j)
    | no earlier ↦ ground (arith, weights-le-crowd n f i j)
  ]

  pub crowd_zero : (n : ℕ) (f : ℕ → A) → ((i : ℕ) → weight (f i) ≡ 0) → crowd n f ≡ 0
  unfolding crowd
  crowd_zero zero f h = refl
  crowd_zero (suc n) f h = omega (arith, h n, crowd_zero n f h)

  -- A positive sum has a process with a positive weight.
  pub crowd_positive : (n : ℕ) (f : ℕ → A) → 0 < crowd n f → (i : ℕ) × (i < n) × (0 < weight (f i))
  unfolding crowd
  crowd_positive zero f h = absurd (omega arith)
  crowd_positive (suc n) f h = elim (dec_lt 0 (weight (f n))) [
    | yes here ↦ (n, omega arith, here)
    | no before ↦ let (i, lt, w) = crowd_positive n f (omega arith) in (i, omega arith, w)
  ]

  -- No weight above 1 adds up to at most the number of processes.
  pub crowd-le : (n : ℕ) (f : ℕ → A) → ((a : A) → weight a ≤ 1) → crowd n f ≤ n
  unfolding crowd
  crowd-le zero f h = omega arith
  crowd-le (suc n) f h = omega (arith, h (f n), crowd-le n f h)

  -- If it adds up to that number, then every weight is 1.
  pub crowd_full :
      (n : ℕ) (f : ℕ → A)
      → ((a : A) → weight a ≤ 1)
      → n ≤ crowd n f
      → (i : ℕ) → i < n
      → weight (f i) ≡ 1
  unfolding crowd
  crowd_full zero f h full i lt = absurd (omega arith)
  crowd_full (suc n) f h full i lt = elim (ℕ_discrete i n) [
    | yes last ↦ ground (arith, last, h (f n), crowd-le n f h)
    | no earlier ↦ crowd_full n f h (omega (arith, h (f n))) i (omega arith)
  ]

  -- A change of all processes that keeps each weight keeps the sum.
  pub crowd-same :
      (n : ℕ) (f : ℕ → A) (g : A → A)
      → ((a : A) → weight (g a) ≡ weight a)
      → crowd n (λ i. g (f i)) ≡ crowd n f
  unfolding crowd
  crowd-same zero f g h = refl
  crowd-same (suc n) f g h = omega (arith, h (f n), crowd-same n f g h)
