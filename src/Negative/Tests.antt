-- ===== src/Negative/Tests.antt =====
-- The theorems on cw08 at a small picture, with three threads that run last to first.
use operating_systems_course.Common.{
  ℕ, zero, suc, ◌<◌, ◌≡◌, ◌≢◌, refl, inl, inr, List, [], ◌∷◌, some, arith, replicate, length, Bool,
  true, false, ◌++◌,
}
use operating_systems_course.Common.Int.{pos, negsuc}
use operating_systems_course.Negative.{
  Image, NegativeImage, numbers_method, block_method, run_threads,
}
use operating_systems_course.Negative.File.{
  line_limit, Unset, unfinished, loaded, exited, size_line, header_loop, load_sizes, load_picture,
  save_negative_picture,
}
use operating_systems_course.Negative.Reload.{
  load_picture-save, load_picture-save_unset, header_loop-ends,
}
use operating_systems_course.Common.Bytes.{Bytes, codes}
use operating_systems_course.Common.Decimal.{show}
use operating_systems_course.Common.Scanf.{fgets, scan_d}
use operating_systems_course.Negative.Picture.{pixel, Runs, threads_invert}

abbrev picture : Image
picture = (0 ∷ 85 ∷ 200 ∷ 255 ∷ []) ∷ (7 ∷ 8 ∷ 9 ∷ 10 ∷ []) ∷ []

abbrev blank : NegativeImage
blank = replicate 2 (replicate 4 (pos 0))

abbrev backwards : List ℕ
backwards = 2 ∷ 1 ∷ 0 ∷ []

all_run : (i : ℕ) → i < 3 → Runs i backwards
all_run zero h = inr (inr (inl refl))
all_run (suc zero) h = inr (inl refl)
all_run (suc (suc zero)) h = inl refl
all_run (suc (suc (suc i))) h = absurd (omega arith)

threads_invert_example :
    (pixel (run_threads (numbers_method 3 picture) backwards blank) 0 2 ≡ some (pos 55))
    × (pixel (run_threads (block_method 4 3 picture) backwards blank) 0 2 ≡ some (pos 55))
threads_invert_example =
    threads_invert 4 3 picture backwards blank 0 2 200 (pos 0) (omega arith) all_run refl
      (omega arith) (omega arith) refl

abbrev negative : NegativeImage
negative = (pos 255 ∷ pos 170 ∷ pos 55 ∷ []) ∷ (pos 0 ∷ pos 7 ∷ negsuc 44 ∷ []) ∷ []

-- The variables that are not set, with what get_max_pixel happens to be.
abbrev unset : Bool → Unset
unset get_max_pixel = record { get_max_pixel = get_max_pixel; max_pixel = pos 9; pixel = negsuc 3 }

size_line-short : length (size_line (pos 3) (pos 2)) < line_limit
unfolding show
size_line-short = omega arith

load_picture-save_example :
    load_picture (unset false) (save_negative_picture (pos 3) (pos 2) negative)
    ≡ loaded (record { width = pos 3; height = pos 2; image = negative })
load_picture-save_example =
    load_picture-save (unset false) 3 2 negative refl refl (refl, (refl, tt)) size_line-short

load_picture-save_unset_example :
    load_picture (unset true) (save_negative_picture (pos 3) (pos 2) negative) ≡ exited
load_picture-save_unset_example =
    load_picture-save_unset (unset true) 3 2 negative refl (omega arith) size_line-short

-- A header with a comment in it, and a picture of one row.
abbrev small_file : Bytes
small_file =
    codes "2 1" ++ 10 ∷ (codes "# grey" ++ 10 ∷ (codes "255" ++ 10 ∷ (codes "7 8" ++ 10 ∷ [])))

header_loop-ends_example : header_loop 20 (unset false) (pos 0) (pos 0) small_file ≢ unfinished
header_loop-ends_example =
    header_loop-ends 20 (unset false) (pos 0) (pos 0) small_file (omega arith)

small_file_run :
    load_sizes (unset false) small_file
    ≡ loaded (record { width = pos 2; height = pos 1; image = (pos 7 ∷ pos 8 ∷ []) ∷ [] })
unfolding load_sizes fgets scan_d
small_file_run = refl

-- A picture that breaks off repeats its last value.
short_file_run :
    load_sizes (unset false) (codes "2 1" ++ 10 ∷ (codes "255" ++ 10 ∷ (codes "7" ++ 10 ∷ [])))
    ≡ loaded (record { width = pos 2; height = pos 1; image = (pos 7 ∷ pos 7 ∷ []) ∷ [] })
unfolding load_sizes fgets scan_d
short_file_run = refl
