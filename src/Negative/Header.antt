-- ===== src/Negative/Header.antt =====
-- The files of cw08/zad1/main.c as its loops read them: the rows of a picture, and the header.
use operating_systems_course.Common.{
  ℕ, suc, ◌<◌, ◌≡◌, ◌≢◌, refl, ◌∙◌, ap, true, false, List, [], ◌∷◌, ◌++◌, some, arith, length,
  append_assoc,
}
use operating_systems_course.Common.Int.{ℤ, pos}
use operating_systems_course.Common.Bytes.{Bytes, codes}
use operating_systems_course.Common.Decimal.{show, Digits, show-Digits, show-ne-nil}
use operating_systems_course.Common.Strtok.{Avoids, append-Avoids, show-Avoids}
use operating_systems_course.Common.Scanf.{scan_d, scan_d-show, scan_d-space, fgets-line}
use operating_systems_course.Negative.{NegativeImage}
use operating_systems_course.Negative.File.{
  line_limit, Unset, refused, sized, read_sizes, is_comment, header_loop, read_row, read_image,
  row_text, rows_text, size_line,
}

-- Every row of the picture has `width` values.
abbrev pub HasWidth : ℕ → NegativeImage → Type 0
HasWidth width [] = Unit
HasWidth width (row ∷ rows) = (length row ≡ width) × HasWidth width rows

-- Two texts from which `%d` reads the same.
abbrev Alike : Bytes → Bytes → Type 0
Alike s t = scan_d s ≡ scan_d t

-- What `read_row` leaves behind a row.
record RowRead (row : List ℤ) (pixel : ℤ) (s rest : Bytes) : Type 0 where
  last : ℤ
  left : Bytes
  reads : read_row (length row) pixel s ≡ (row, last, left)
  alike : Alike left rest

read_row-row_text :
    (row : List ℤ) (pixel : ℤ) (s rest : Bytes)
    → Alike s (row_text row ++ rest)
    → RowRead row pixel s rest
unfolding row_text read_row
read_row-row_text [] pixel s rest a = record { last = pixel; left = s; reads = refl; alike = a }
read_row-row_text (value ∷ row) pixel s rest a =
    let first : scan_d s ≡ (some value, 32 ∷ (row_text row ++ rest)) =
      a
      ∙ (ap scan_d (append_assoc (show value) (32 ∷ row_text row) rest)
          ∙ scan_d-show value 32 (row_text row ++ rest) refl) in
    let r =
      read_row-row_text row value (32 ∷ (row_text row ++ rest)) rest
        (scan_d-space 32 (row_text row ++ rest) refl) in
    record { last = r.last; left = r.left; reads = ground (arith, first, r.reads); alike = r.alike }

pub read_image-rows_text :
    (width : ℕ) (rows : NegativeImage) (pixel : ℤ) (s : Bytes)
    → HasWidth width rows
    → Alike s (rows_text rows)
    → read_image (length rows) width pixel s ≡ rows
unfolding read_image rows_text
read_image-rows_text width [] pixel s h a = refl
read_image-rows_text width (row ∷ rows) pixel s h a =
    let r = read_row-row_text row pixel s (10 ∷ rows_text rows) a in
    ground (
      arith,
      h.0,
      r.reads,
      read_image-rows_text width rows r.last r.left h.1
          (r.alike ∙ scan_d-space 10 (rows_text rows) refl),
    )

is_comment-Digits : (s t : Bytes) → s ≢ [] → Digits s → is_comment (s ++ t) ≡ false
is_comment-Digits [] t ne h = absurd (ne refl)
is_comment-Digits (c ∷ s) t ne h = ground (arith, h.0)

size_line-Avoids : (w h : ℕ) → Avoids 10 (size_line (pos w) (pos h))
size_line-Avoids w h =
    append-Avoids 10 (show (pos w)) (32 ∷ show (pos h)) (show-Avoids 10 w refl)
      ((λ same. ground (arith, same)), show-Avoids 10 h refl)

-- The line of the sizes as the loop reads it.
abbrev size_buffer : ℕ → ℕ → Bytes
size_buffer w h = size_line (pos w) (pos h) ++ 10 ∷ []

scan_d-size_buffer :
    (w h : ℕ) → scan_d (size_buffer w h) ≡ (some (pos w), 32 ∷ (show (pos h) ++ 10 ∷ []))
scan_d-size_buffer w h =
    ap scan_d (append_assoc (show (pos w)) (32 ∷ show (pos h)) (10 ∷ []))
    ∙ scan_d-show (pos w) 32 (show (pos h) ++ 10 ∷ []) refl

read_sizes-size_buffer : (w h : ℕ) (w0 h0 : ℤ) → read_sizes (size_buffer w h) w0 h0 ≡ (pos w, pos h)
unfolding read_sizes
read_sizes-size_buffer w h w0 h0 = ground (
  arith,
  scan_d-size_buffer w h,
  scan_d-space 32 (show (pos h) ++ 10 ∷ []) refl ∙ scan_d-show (pos h) 10 [] refl,
)

is_comment-size_buffer : (w h : ℕ) → is_comment (size_buffer w h) ≡ false
is_comment-size_buffer w h =
    ap is_comment (append_assoc (show (pos w)) (32 ∷ show (pos h)) (10 ∷ []))
    ∙ is_comment-Digits (show (pos w)) _ (show-ne-nil (pos w)) (show-Digits w)

scan_d-grey : (scan_d (codes "255" ++ 10 ∷ [])).0 ≡ some (pos 255)
unfolding scan_d
scan_d-grey = refl

module _ (fuel : ℕ) (u : Unset) where
  pub header_loop-comment :
      (rest : Bytes)
      → header_loop (suc fuel) u (pos 0) (pos 0) (codes "# Processed picture" ++ 10 ∷ rest)
        ≡ header_loop fuel u (pos 0) (pos 0) rest
  unfolding header_loop
  header_loop-comment rest =
      ground (
        arith,
        fgets-line line_limit (codes "# Processed picture") rest (omega arith) (omega arith),
      )

  pub header_loop-sizes :
      (w h : ℕ) (rest : Bytes)
      → u.get_max_pixel ≡ false
      → length (size_line (pos w) (pos h)) < line_limit
      → header_loop (suc fuel) u (pos 0) (pos 0) (size_line (pos w) (pos h) ++ 10 ∷ rest)
        ≡ header_loop fuel (record u { get_max_pixel = true }) (pos w) (pos h) rest
  unfolding header_loop
  header_loop-sizes w h rest e short = ground (
    arith,
    e,
    fgets-line line_limit (size_line (pos w) (pos h)) rest short (size_line-Avoids w h),
    read_sizes-size_buffer w h (pos 0) (pos 0),
    is_comment-size_buffer w h,
  )

  pub header_loop-no_sizes :
      (w h : ℕ) (rest : Bytes)
      → u.get_max_pixel ≡ true
      → w ≢ 255
      → length (size_line (pos w) (pos h)) < line_limit
      → header_loop (suc fuel) u (pos 0) (pos 0) (size_line (pos w) (pos h) ++ 10 ∷ rest) ≡ refused
  unfolding header_loop
  header_loop-no_sizes w h rest e ne short = ground (
    arith,
    e,
    ne,
    fgets-line line_limit (size_line (pos w) (pos h)) rest short (size_line-Avoids w h),
    scan_d-size_buffer w h,
    is_comment-size_buffer w h,
  )

  pub header_loop_end :
      (w h : ℤ) (rest : Bytes)
      → u.get_max_pixel ≡ true
      → header_loop (suc fuel) u w h (codes "255" ++ 10 ∷ rest) ≡ sized w h rest
  unfolding header_loop
  header_loop_end w h rest e =
      ground (
        arith,
        e,
        fgets-line line_limit (codes "255") rest (omega arith) (omega arith),
        scan_d-grey,
      )
