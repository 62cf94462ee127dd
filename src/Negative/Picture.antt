-- ===== src/Negative/Picture.antt =====
-- The picture that the threads of cw08/zad1/main.c leave, in whatever order they run.
use operating_systems_course.Common.{
  ℕ, zero, suc, ◌+◌, ◌<◌, ◌≡◌, refl, ◌∙◌, ap, ◌⊎◌, inl, inr, Bool, true, ◌&&◌, List, [], ◌∷◌,
  Option, none, some, arith, ltb, leb, get_elem?, if◌then◌else◌,
}
use operating_systems_course.Common.Int.{ℤ}
use operating_systems_course.Negative.{
  Image, NegativeImage, inverse, from, to, write_row, write_image, has_number, has_column,
  numbers_method, block_method, run_threads,
}
use operating_systems_course.Negative.Share.{InShare, share_exists}

-- The value in row `y` and column `x`.
abbrev pub pixel {ℓ} : {A : Type ℓ} → List (List A) → ℕ → ℕ → Option A
pixel image y x = elim (get_elem? image y) [ none ↦ none | some row ↦ get_elem? row x ]

abbrev mixed : (ℕ → ℕ → Bool) → ℕ → ℕ → ℤ → ℤ
mixed mine j p q = if mine j p then inverse p else q

write_row-value :
    (mine : ℕ → ℕ → Bool) (j x : ℕ) (row : List ℕ) (old : List ℤ) (p : ℕ) (q : ℤ)
    → get_elem? row x ≡ some p
    → get_elem? old x ≡ some q
    → get_elem? (write_row mine j row old) x ≡ some (mixed mine (j + x) p q)
unfolding write_row
write_row-value mine j x [] old p q a b = ground arith
write_row-value mine j x (r ∷ row) [] p q a b = ground arith
write_row-value mine j zero (r ∷ row) (o ∷ old) p q a b =
    let here : j + 0 ≡ j = omega arith in rw here (ground arith)
write_row-value mine j (suc x) (r ∷ row) (o ∷ old) p q a b =
    write_row-value mine (j + 1) x row old p q a b ∙ ap (λ k. some (mixed mine k p q)) (omega arith)

write_image-value :
    (mine : ℕ → ℕ → Bool) (y x : ℕ) (image : Image) (old : NegativeImage) (p : ℕ) (q : ℤ)
    → pixel image y x ≡ some p
    → pixel old y x ≡ some q
    → pixel (write_image mine image old) y x ≡ some (mixed mine x p q)
unfolding write_image
write_image-value mine y x [] old p q a b = ground arith
write_image-value mine y x (r ∷ image) [] p q a b = ground arith
write_image-value mine zero x (r ∷ image) (o ∷ old) p q a b =
    write_row-value mine 0 x r o p q a b ∙ ap (λ k. some (mixed mine k p q)) (omega arith)
write_image-value mine (suc y) x (r ∷ image) (o ∷ old) p q a b =
    write_image-value mine y x image old p q a b

-- One of the threads in the list writes the place.
abbrev Covered : (ℕ → ℕ → ℕ → Bool) → List ℕ → ℕ → ℕ → Type 0
Covered mine [] x p = ⊥
Covered mine (i ∷ order) x p = (mine i x p ≡ true) ⊎ Covered mine order x p

-- A place that one of the threads writes, or that is right already, ends up inverted.
run_threads-inverse :
    (mine : ℕ → ℕ → ℕ → Bool) (image : Image) (y x : ℕ) (order : List ℕ) (old : NegativeImage)
    (p : ℕ) (q : ℤ)
    → pixel image y x ≡ some p
    → pixel old y x ≡ some q
    → (q ≡ inverse p) ⊎ Covered mine order x p
    → pixel (run_threads (λ i. write_image (mine i) image) order old) y x ≡ some (inverse p)
unfolding run_threads
run_threads-inverse mine image y x [] old p q a b (inl right) = b ∙ ap some right
run_threads-inverse mine image y x [] old p q a b (inr nobody) = absurd nobody
run_threads-inverse mine image y x (i ∷ order) old p q a b c =
    run_threads-inverse mine image y x order (write_image (mine i) image old) p
      (mixed (mine i) x p q) a (write_image-value (mine i) y x image old p q a b) (next c)
  where
    next :
        (q ≡ inverse p) ⊎ ((mine i x p ≡ true) ⊎ Covered mine order x p)
        → (mixed (mine i) x p q ≡ inverse p) ⊎ Covered mine order x p
    next (inl right) = inl (ground (arith, right))
    next (inr (inl here)) = inl (rw here refl)
    next (inr (inr later)) = inr later

-- The thread occurs in the order.
abbrev pub Runs : ℕ → List ℕ → Type 0
Runs i [] = ⊥
Runs i (j ∷ order) = (j ≡ i) ⊎ Runs i order

Runs-Covered :
    (mine : ℕ → ℕ → ℕ → Bool) (i x p : ℕ) (order : List ℕ)
    → Runs i order
    → mine i x p ≡ true
    → Covered mine order x p
Runs-Covered mine i x p [] r m = r
Runs-Covered mine i x p (j ∷ order) (inl here) m = inl (rw here m)
Runs-Covered mine i x p (j ∷ order) (inr later) m = inr (Runs-Covered mine i x p order later m)

InShare-test :
    (total n i x : ℕ)
    → InShare total n i x
    → (leb (from total n i) x && ltb x (to total n i)) ≡ true
InShare-test total n i x h = ground arith

-- Once all threads of `numbers` have run, in any order and each at least once, every grey value up
-- to 255 is inverted.
numbers_inverts :
    (threads_number : ℕ) (image : Image) (order : List ℕ) (old : NegativeImage) (y x p : ℕ) (q : ℤ)
    → 0 < threads_number
    → ((i : ℕ) → i < threads_number → Runs i order)
    → pixel image y x ≡ some p
    → p < 256
    → pixel old y x ≡ some q
    → pixel (run_threads (numbers_method threads_number image) order old) y x ≡ some (inverse p)
unfolding numbers_method
numbers_inverts n image order old y x p q pos all a small b =
    let (i, lt, share) = share_exists 256 n p pos small in
    run_threads-inverse (has_number n) image y x order old p q a b
      (inr (Runs-Covered (has_number n) i x p order (all i lt) (InShare-test 256 n i p share)))

-- Once all threads of `block` have run, in any order and each at least once, every place in the
-- first `width` columns is inverted.
block_inverts :
    (width threads_number : ℕ) (image : Image) (order : List ℕ) (old : NegativeImage) (y x p : ℕ)
    (q : ℤ)
    → 0 < threads_number
    → ((i : ℕ) → i < threads_number → Runs i order)
    → pixel image y x ≡ some p
    → x < width
    → pixel old y x ≡ some q
    → pixel (run_threads (block_method width threads_number image) order old) y x ≡ some (inverse p)
unfolding block_method
block_inverts width n image order old y x p q pos all a inside b =
    let (i, lt, share) = share_exists width n x pos inside in
    run_threads-inverse (has_column width n) image y x order old p q a b (
      inr
        (Runs-Covered (has_column width n) i x p order (all i lt) (InShare-test width n i x share)))

-- Once all threads of either method have run, in any order and each at least once, every grey value
-- up to 255 in the first width columns is inverted.
pub threads_invert :
    (width threads_number : ℕ) (image : Image) (order : List ℕ) (old : NegativeImage) (y x p : ℕ)
    (q : ℤ)
    → 0 < threads_number
    → ((i : ℕ) → i < threads_number → Runs i order)
    → pixel image y x ≡ some p
    → p < 256
    → x < width
    → pixel old y x ≡ some q
    → (pixel (run_threads (numbers_method threads_number image) order old) y x ≡ some (inverse p))
      × (pixel (run_threads (block_method width threads_number image) order old) y x
          ≡ some (inverse p))
threads_invert width n image order old y x p q pos all a small inside b = (
  numbers_inverts n image order old y x p q pos all a small b,
  block_inverts width n image order old y x p q pos all a inside b,
)
