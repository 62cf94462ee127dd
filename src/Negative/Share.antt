-- ===== src/Negative/Share.antt =====
-- The shares of the threads of cw08/zad1/main.c: every grey value and every column belongs to
-- a thread.
use native.Mathlib.Nat.{mul_comm, div-mul-le_self, lt-div-mul-add, div-lt_iff_lt-mul}
use operating_systems_course.Common.{
  ℕ, zero, suc, ◌+◌, ◌-◌, ◌*◌, ◌/◌, ◌≤◌, ◌<◌, ◌≡◌, refl, ◌≢◌, arith, dec_lt,
}
use operating_systems_course.Negative.{from, to}

-- `x` is in the share of thread `index`.
abbrev pub InShare : ℕ → ℕ → ℕ → ℕ → Type 0
InShare total threads_number index x =
    (from total threads_number index ≤ x) × (x < to total threads_number index)

to_last : (total n i : ℕ) → i ≡ n - 1 → to total n i ≡ total
unfolding to
to_last total n i h = ground arith

to_other : (total n i : ℕ) → i ≢ n - 1 → to total n i ≡ total / n * (i + 1)
unfolding to
to_other total n i h = ground arith

mul_step : (q i : ℕ) → q * (i + 1) ≡ q * i + q
mul_step q i = omega arith

-- A product is positive only if its first factor is.
factor_pos : (q m x : ℕ) → x < q * m → 0 < q
factor_pos zero m x h = omega arith
factor_pos (suc q) m x h = omega arith

-- Division finds the share of equal size `q` that holds `x`.
equal_share : (q m x : ℕ) → x < q * m → (x / q < m) × (q * (x / q) ≤ x) × (x < q * (x / q + 1))
equal_share q m x h =
    let pos = factor_pos q m x h in
    (
      (div-lt_iff_lt-mul pos).1 (rw (mul_comm m q) h),
      omega (arith, div-mul-le_self x q, mul_comm q (x / q)),
      omega (arith, lt-div-mul-add {a = x} pos, mul_comm q (x / q), mul_step q (x / q)),
    )

-- Each of the `total` things is in the share of a thread.
pub share_exists :
    (total threads_number x : ℕ)
    → 0 < threads_number
    → x < total
    → (index : ℕ) × (index < threads_number) × InShare total threads_number index x
unfolding from
share_exists total n x pos h = elim (dec_lt x (total / n * (n - 1))) [
  | no last ↦ (n - 1, omega arith, (omega arith, omega (arith, to_last total n (n - 1) refl)))
  | yes inner ↦
      let (small, above, below) = equal_share (total / n) (n - 1) x inner in
      (
        x / (total / n),
        omega arith,
        (above, rw (to_other total n (x / (total / n)) (λ e. omega arith)) below),
      )
]
