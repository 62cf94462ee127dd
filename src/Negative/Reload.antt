-- ===== src/Negative/Reload.antt =====
-- A picture that cw08/zad1/main.c saves, when it loads it again.
use operating_systems_course.Common.{
  ℕ, zero, suc, ◌<◌, ◌≡◌, ◌≢◌, refl, ◌∙◌, ap, true, false, [], ◌∷◌, ◌++◌, arith, length,
}
use operating_systems_course.Common.Int.{ℤ, pos}
use operating_systems_course.Common.Bytes.{Bytes, codes}
use operating_systems_course.Common.Scanf.{fgets-line, fgets-nil, fgets-shorter}
use operating_systems_course.Negative.{NegativeImage}
use operating_systems_course.Negative.File.{
  line_limit, Unset, sized, refused, unfinished, loaded, exited, read_sizes, header_loop, rounds,
  read_image, load_sizes, load_picture, rows_text, size_line, save_negative_picture,
}
use operating_systems_course.Negative.Header.{
  HasWidth, read_image-rows_text, header_loop-comment, header_loop-sizes, header_loop-no_sizes,
  header_loop_end,
}

load_picture-magic :
    (u : Unset) (rest : Bytes) → load_picture u (codes "P2" ++ 10 ∷ rest) ≡ load_sizes u rest
unfolding load_picture
load_picture-magic u rest =
    rw (load_picture, fgets-line line_limit (codes "P2") rest (omega arith) (omega arith)) refl

-- The file behind its first line.
abbrev tail_text : ℕ → ℕ → NegativeImage → Bytes
tail_text w h negative =
    codes "# Processed picture"
    ++ 10 ∷ (size_line (pos w) (pos h) ++ 10 ∷ (codes "255" ++ 10 ∷ rows_text negative))

load_picture-tail :
    (u : Unset) (w h : ℕ) (negative : NegativeImage)
    → load_picture u (save_negative_picture (pos w) (pos h) negative)
      ≡ load_sizes u (tail_text w h negative)
unfolding save_negative_picture
load_picture-tail u w h negative = load_picture-magic u (tail_text w h negative)

load_sizes-header :
    (u : Unset) (s rest : Bytes) (w h : ℤ)
    → header_loop (suc (length s)) u (pos 0) (pos 0) s ≡ sized w h rest
    → load_sizes u s
      ≡ loaded
          (record { width = w; height = h; image = read_image (rounds h) (rounds w) u.pixel rest })
unfolding load_sizes
load_sizes-header u s rest w h e = rw (load_sizes, e) refl

load_sizes-none :
    (u : Unset) (s : Bytes)
    → header_loop (suc (length s)) u (pos 0) (pos 0) s ≡ refused
    → load_sizes u s ≡ exited
unfolding load_sizes
load_sizes-none u s e = rw (load_sizes, e) refl

-- A picture of height rows and width columns that save_negative_picture has written is loaded as it
-- was by load_picture, if get_max_pixel happens to be false at first and the line of the sizes is
-- shorter than LINE_MAX.
pub load_picture-save :
    (u : Unset) (width height : ℕ) (negative : NegativeImage)
    → u.get_max_pixel ≡ false
    → length negative ≡ height
    → HasWidth width negative
    → length (size_line (pos width) (pos height)) < line_limit
    → load_picture u (save_negative_picture (pos width) (pos height) negative)
      ≡ loaded (record { width = pos width; height = pos height; image = negative })
load_picture-save u width height negative e rows columns short =
    load_picture-tail u width height negative
    ∙ (load_sizes-header u (tail_text width height negative) (rows_text negative) (pos width)
          (pos height)
          (header_loop-comment _ u _
            ∙ (header_loop-sizes _ u width height _ e short ∙ header_loop_end _ _ _ _ _ refl))
        ∙ ap (λ image. loaded (record { width = pos width; height = pos height; image = image }))
            (rw (← rows)
              (read_image-rows_text width negative u.pixel (rows_text negative) columns refl)))

-- If get_max_pixel happens to be true at first, load_picture takes the width for the largest grey
-- value, and exits with an error on every picture that save_negative_picture has written, unless it
-- is 255 wide.
pub load_picture-save_unset :
    (u : Unset) (width height : ℕ) (negative : NegativeImage)
    → u.get_max_pixel ≡ true
    → width ≢ 255
    → length (size_line (pos width) (pos height)) < line_limit
    → load_picture u (save_negative_picture (pos width) (pos height) negative) ≡ exited
load_picture-save_unset u width height negative e ne short =
    load_picture-tail u width height negative
    ∙ load_sizes-none u (tail_text width height negative)
        (header_loop-comment _ u _ ∙ header_loop-no_sizes _ u width height _ e ne short)

-- With more fuel than the file is long, the loop over the header ends: its result is never that the
-- fuel ran out.
pub header_loop-ends :
    (fuel : ℕ) (u : Unset) (width height : ℤ) (s : Bytes)
    → length s < fuel
    → header_loop fuel u width height s ≢ unfinished
unfolding header_loop
header_loop-ends zero u width height s enough = absurd (omega (arith, enough))
header_loop-ends (suc fuel) u width height [] enough =
    rw (header_loop, fgets-nil line_limit) (λ e. ground arith)
header_loop-ends (suc fuel) u width height (c ∷ s) enough =
    let (buffer, rest, read, shorter) = fgets-shorter line_limit c s (omega arith) in
    let (w, h) = read_sizes buffer width height in
    let on = header_loop-ends fuel u width height rest (omega (arith, enough, shorter)) in
    let on' =
      header_loop-ends fuel (record u { get_max_pixel = true }) w h rest
        (omega (arith, enough, shorter)) in
    λ e. ground (arith, read, on, on', e)
