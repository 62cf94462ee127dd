-- ===== src/Negative/File.antt =====
-- The files of cw08/zad1/main.c: `load_picture` and `save_negative_picture`, on the bytes of a file.
use operating_systems_course.Common.{
  ℕ, zero, suc, Bool, true, false, List, [], ◌∷◌, ◌++◌, none, some, Option, length, ◌==◌,
  if◌then◌else◌,
}
use operating_systems_course.Common.Int.{ℤ, pos, negsuc, eq_ℤ}
use operating_systems_course.Common.Bytes.{Bytes, codes}
use operating_systems_course.Common.Decimal.{show}
use operating_systems_course.Common.Scanf.{scan_d, fgets}
use operating_systems_course.Negative.{NegativeImage}

-- The longest line that `fgets(buffer, LINE_MAX, file)` reads.
abbrev pub line_limit : ℕ
line_limit = 2047

-- What the variables hold that the code does not set.
pub record Unset : Type 0 where
  pub get_max_pixel : Bool
  pub max_pixel : ℤ
  pub pixel : ℤ

-- The globals that `load_picture` sets.
pub record Loaded : Type 0 where
  pub width : ℤ
  pub height : ℤ
  pub image : List (List ℤ)

abbrev pub or_kept : Option ℤ → ℤ → ℤ
or_kept none old = old
or_kept (some i) old = i

-- `sscanf(buffer, "%d %d\n", &width, &height)`, which stops at the first failure.
unfoldable pub read_sizes : Bytes → ℤ → ℤ → ℤ × ℤ
read_sizes buffer width height =
    let (first, rest) = scan_d buffer in
    elim first [ none ↦ (width, height) | some w ↦ (w, or_kept (scan_d rest).0 height) ]

abbrev pub is_comment : Bytes → Bool
is_comment [] = false
is_comment (c ∷ line) = c == b'#'

-- How the loop over the lines before the picture ends: with the width, the height and the rest of
-- the file, or with exit(1), for a wrong grey value. `unfinished` is the model out of fuel.
pub data Header : Type 0 where
  sized : ℤ → ℤ → Bytes → Header
  refused unfinished : Header

-- How `load_picture` ends: with the globals set, or with exit(1).
pub data LoadResult : Type 0 where
  loaded : Loaded → LoadResult
  exited out_of_fuel : LoadResult

-- The loop over the lines before the picture. A round reads at least a byte and the last one none,
-- so one more than the length of the file is fuel for all rounds.
unfoldable pub header_loop : ℕ → Unset → ℤ → ℤ → Bytes → Header
unfolding read_sizes
header_loop zero u width height s = unfinished
header_loop (suc fuel) u width height s = elim (fgets line_limit s) [
  | none ↦ sized width height s
  | some (buffer, rest) ↦
      let skipped = header_loop fuel u width height rest in
      let (w, h) = read_sizes buffer width height in
      let counted = header_loop fuel (record u { get_max_pixel = true }) w h rest in
      if is_comment buffer
      then skipped
      else if u.get_max_pixel
      then if eq_ℤ (or_kept (scan_d buffer).0 u.max_pixel) (pos 255)
        then sized width height rest
        else refused
      else counted
]

-- The number of rounds of `for (int i = 0; i < n; i++)`.
abbrev pub rounds : ℤ → ℕ
rounds (pos n) = n
rounds (negsuc n) = 0

-- The loop over the columns of a row. A failed `fscanf` leaves the last pixel as it is.
unfoldable pub read_row : ℕ → ℤ → Bytes → List ℤ × ℤ × Bytes
read_row zero pixel s = ([], pixel, s)
read_row (suc columns) pixel s =
    let (read, rest) = scan_d s in
    let value = or_kept read pixel in
    let (row, last, rest') = read_row columns value rest in (value ∷ row, last, rest')

-- The loop over the rows.
unfoldable pub read_image : ℕ → ℕ → ℤ → Bytes → List (List ℤ)
unfolding read_row
read_image zero columns pixel s = []
read_image (suc rows) columns pixel s =
    let (row, last, rest) = read_row columns pixel s in row ∷ read_image rows columns last rest

-- The picture behind the header.
load_rows : Unset → Header → LoadResult
unfolding read_image
load_rows u unfinished = out_of_fuel
load_rows u refused = exited
load_rows u (sized width height rest) = loaded (record {
  width = width;
  height = height;
  image = read_image (rounds height) (rounds width) u.pixel rest;
})

-- What follows the first line.
unfoldable pub load_sizes : Unset → Bytes → LoadResult
unfolding header_loop load_rows
load_sizes u s = load_rows u (header_loop (suc (length s)) u (pos 0) (pos 0) s)

-- `load_picture` on the bytes of a file that opens. `width` and `height` are globals, 0 at first.
unfoldable pub load_picture : Unset → Bytes → LoadResult
unfolding load_sizes
load_picture u file = elim (fgets line_limit file) [
  | none ↦ exited
  | some (_, rest) ↦ load_sizes u rest
]

-- `save_negative_picture`, where the picture has `height` rows of `width` values.
unfoldable pub row_text : List ℤ → Bytes
row_text [] = []
row_text (value ∷ row) = show value ++ 32 ∷ row_text row

unfoldable pub rows_text : NegativeImage → Bytes
unfolding row_text
rows_text [] = []
rows_text (row ∷ rows) = row_text row ++ 10 ∷ rows_text rows

abbrev pub size_line : ℤ → ℤ → Bytes
size_line width height = show width ++ 32 ∷ show height

unfoldable pub save_negative_picture : ℤ → ℤ → NegativeImage → Bytes
unfolding rows_text
save_negative_picture width height negative =
    codes "P2"
    ++ 10
      ∷ (codes "# Processed picture"
          ++ 10 ∷ (size_line width height ++ 10 ∷ (codes "255" ++ 10 ∷ rows_text negative)))
