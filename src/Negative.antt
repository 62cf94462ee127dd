-- ===== src/Negative.antt =====
-- The threads of cw08/zad1/main.c, which turn a picture into its negative: `numbers_method` shares
-- out the grey values, `block_method` the columns.
pub mod Share
pub mod Picture
pub mod File
pub mod Header
pub mod Reload
mod Tests
use operating_systems_course.Common.{
  ℕ, zero, suc, ◌+◌, ◌-◌, ◌*◌, ◌/◌, Bool, true, false, ◌&&◌, List, [], ◌∷◌, ltb, leb, ◌==◌,
  if◌then◌else◌,
}
use operating_systems_course.Common.Int.{ℤ, sub_ℕ}

-- Grey values by rows; a value of the negative is an `int`.
abbrev pub Image : Type 0
Image = List (List ℕ)

abbrev pub NegativeImage : Type 0
NegativeImage = List (List ℤ)

-- `255 - pixel`
abbrev pub inverse : ℕ → ℤ
inverse pixel = sub_ℕ 255 pixel

-- The part of `total` things that thread `index` of `threads_number` takes: from `from` on, and up
-- to `to`, exclusive. The last thread takes what is left.
unfoldable pub from : ℕ → ℕ → ℕ → ℕ
from total threads_number index = total / threads_number * index

unfoldable pub to : ℕ → ℕ → ℕ → ℕ
to total threads_number index =
    if index == threads_number - 1 then total else total / threads_number * (index + 1)

-- The loop over the columns of one row, from column `j` on; `mine` says what the thread writes.
write_row : (ℕ → ℕ → Bool) → ℕ → List ℕ → List ℤ → List ℤ
write_row mine j [] old = old
write_row mine j (pixel ∷ row) [] = []
write_row mine j (pixel ∷ row) (q ∷ old) =
    (if mine j pixel then inverse pixel else q) ∷ write_row mine (j + 1) row old

-- The loop over the rows.
write_image : (ℕ → ℕ → Bool) → Image → NegativeImage → NegativeImage
write_image mine [] old = old
write_image mine (row ∷ image) [] = []
write_image mine (row ∷ image) (q ∷ old) = write_row mine 0 row q ∷ write_image mine image old

-- `pixel >= from && pixel < to`, where the 256 grey values are shared out.
abbrev pub has_number : ℕ → ℕ → ℕ → ℕ → Bool
has_number threads_number index j pixel =
    leb (from 256 threads_number index) pixel && ltb pixel (to 256 threads_number index)

-- `for (int j = from; j <= to; j++)`, where the columns are shared out. `width / threads_number` is
-- a division of integers, so `ceil` changes nothing.
abbrev pub has_column : ℕ → ℕ → ℕ → ℕ → ℕ → Bool
has_column width threads_number index j pixel =
    leb (from width threads_number index) j && ltb j (to width threads_number index)

-- One thread, started with its index.
unfoldable pub numbers_method : ℕ → Image → ℕ → NegativeImage → NegativeImage
unfolding write_image write_row
numbers_method threads_number image index = write_image (has_number threads_number index) image

unfoldable pub block_method : ℕ → ℕ → Image → ℕ → NegativeImage → NegativeImage
unfolding write_image write_row
block_method width threads_number image index =
    write_image (has_column width threads_number index) image

-- The threads one after another, in the order in which they run.
unfoldable pub run_threads :
    (ℕ → NegativeImage → NegativeImage) → List ℕ → NegativeImage → NegativeImage
run_threads method [] old = old
run_threads method (index ∷ order) old = run_threads method order (method index old)
