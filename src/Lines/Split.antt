-- ===== src/Lines/Split.antt =====
-- A file as its lines, each with its newline, the last perhaps without: the specification of the
-- loops of cw02.
use operating_systems_course.Common.{
  ℕ, ◌≤◌, ◌≡◌, refl, Bool, true, false, not, ◌||◌, List, [], ◌∷◌, ◌++◌, arith, ◌==◌, if◌then◌else◌,
  length,
}
use operating_systems_course.Common.Bytes.{Bytes}
use operating_systems_course.Common.Decimal.{is_space}
use operating_systems_course.Lines.{scan_line, copy_line}

-- A byte in front of the first line.
abbrev pub put_first : ℕ → List Bytes → List Bytes
put_first c [] = (c ∷ []) ∷ []
put_first c (l ∷ ls) = (c ∷ l) ∷ ls

abbrev pub split : Bytes → List Bytes
split [] = []
split (c ∷ s) = if c == 10 then (c ∷ []) ∷ split s else put_first c (split s)

-- The line has a byte that is not white space.
abbrev pub has_text : Bytes → Bool
has_text [] = false
has_text (c ∷ s) = not (is_space c) || has_text s

abbrev pub keep_text : List Bytes → Bytes
keep_text [] = []
keep_text (l ∷ ls) = if has_text l then l ++ keep_text ls else keep_text ls

-- Copying takes exactly the first line.
pub split-copy_line :
    (c : ℕ) (s : Bytes) → split (c ∷ s) ≡ (copy_line (c ∷ s)).line ∷ split (copy_line (c ∷ s)).rest
unfolding copy_line
split-copy_line c [] = ground arith
split-copy_line c (d ∷ s) = ground (arith, split-copy_line d s)

pub length-copy_line : (c : ℕ) (s : Bytes) → length (copy_line (c ∷ s)).rest ≤ length s
unfolding copy_line
length-copy_line c [] = ground arith
length-copy_line c (d ∷ s) = ground (arith, length-copy_line d s)

-- A read that met the end left nothing.
pub copy_line-eof : (s : Bytes) → (copy_line s).eof ≡ true → (copy_line s).rest ≡ []
unfolding copy_line
copy_line-eof [] h = refl
copy_line-eof (c ∷ s) h = ground (arith, copy_line-eof s)

-- Scanning tells whether the first line has text, and if it has none, passes over that line.
pub scan_line-text : (s : Bytes) → (scan_line s).write_line ≡ has_text (copy_line s).line
unfolding scan_line copy_line
scan_line-text [] = refl
scan_line-text (c ∷ s) = ground (arith, scan_line-text s)

pub scan_line-blank :
    (s : Bytes)
    → (scan_line s).write_line ≡ false
    → ((scan_line s).rest ≡ (copy_line s).rest) × ((scan_line s).eof ≡ (copy_line s).eof)
unfolding scan_line copy_line
scan_line-blank [] h = (refl, refl)
scan_line-blank (c ∷ s) h = ground (arith, scan_line-blank s)
