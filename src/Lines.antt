-- ===== src/Lines.antt =====
-- The file loops of cw02: `lib_open_file` and `sys_open_file` of zad1 copy the lines that are not
-- blank, `lib_find_character` and `sys_find_character` of zad2 count a character. A file is the
-- bytes from its position on.
pub mod Split
pub mod Copy
pub mod Find
mod Tests
use operating_systems_course.Common.{
  ℕ, zero, suc, ◌+◌, Bool, true, false, not, List, [], ◌∷◌, ◌++◌, Option, none, some, ◌==◌,
  if◌then◌else◌, length,
}
use operating_systems_course.Common.Bytes.{Bytes}
use operating_systems_course.Common.Decimal.{is_space}

-- What the inner loop finds from the start of a line on: whether the line has a byte that is not
-- white space, what is left of the file, and whether a read met the end.
pub record Scan : Type 0 where
  pub write_line : Bool
  pub rest : Bytes
  pub eof : Bool

unfoldable pub scan_line : Bytes → Scan
scan_line [] = record { write_line = false; rest = []; eof = true }
scan_line (c ∷ s) =
    let more = scan_line s in
    if c == 10
    then record { write_line = false; rest = s; eof = false }
    else if not (is_space c)
    then record { write_line = true; rest = s; eof = false }
    else more

-- The loop that copies a line to the output.
pub record Copied : Type 0 where
  pub line : Bytes
  pub rest : Bytes
  pub eof : Bool

abbrev pub copied_byte : ℕ → Copied → Copied
copied_byte c more = record more { line = c ∷ more.line }

unfoldable pub copy_line : Bytes → Copied
copy_line [] = record { line = []; rest = []; eof = true }
copy_line (c ∷ s) =
    let more = copied_byte c (copy_line s) in
    if c == 10 then record { line = c ∷ []; rest = s; eof = false } else more

-- `while (!feof(in_file))`: a line to be written is read again from its start, which clears the
-- end-of-file mark. The output is built on `out`; `none` means that the fuel ran out.
unfoldable pub lib_loop : ℕ → Bytes → Bool → Bytes → Option Bytes
lib_loop zero file eof out = none
lib_loop (suc fuel) file eof out = elim eof [
  | true ↦ some out
  | false ↦ elim (scan_line file).write_line [
    | true ↦ lib_loop fuel (copy_line file).rest (copy_line file).eof (out ++ (copy_line file).line)
    | false ↦ lib_loop fuel (scan_line file).rest (scan_line file).eof out
  ]
]

-- `while (read(in_file, &c, 1) == 1)`: the byte is put back, and so are the bytes of a line that is
-- to be written.
unfoldable pub sys_loop : ℕ → Bytes → Bytes → Option Bytes
sys_loop zero file out = none
sys_loop (suc fuel) [] out = some out
sys_loop (suc fuel) (c ∷ s) out = elim (scan_line (c ∷ s)).write_line [
  | true ↦ sys_loop fuel (copy_line (c ∷ s)).rest (out ++ (copy_line (c ∷ s)).line)
  | false ↦ sys_loop fuel (scan_line (c ∷ s)).rest out
]

-- Each round but the last reads at least one byte.
unfoldable pub lib_open_file : Bytes → Option Bytes
unfolding lib_loop
lib_open_file file = lib_loop (length file + 2) file false []

unfoldable pub sys_open_file : Bytes → Option Bytes
unfolding sys_loop
sys_open_file file = sys_loop (length file + 1) file []

-- The counters of the two functions that look for a character.
pub record Tally : Type 0 where
  pub count : ℕ
  pub rows : ℕ
  pub found : Bool

-- The body of their loops.
abbrev pub see : ℕ → ℕ → Tally → Tally
see character c t =
    let found = if c == 10 then false else t.found in
    if character == c
    then record { count = t.count + 1; rows = if found then t.rows else t.rows + 1; found = true }
    else record t { found = found }

find_loop : ℕ → Bytes → Tally → Tally
find_loop character [] t = t
find_loop character (c ∷ s) t = find_loop character s (see character c t)

abbrev pub no_tally : Tally
no_tally = record { count = 0; rows = 0; found = false }

-- The two numbers that are printed.
unfoldable pub lib_find_character : Bytes → ℕ → ℕ × ℕ
unfolding find_loop
lib_find_character file character = let t = find_loop character file no_tally in (t.count, t.rows)

unfoldable pub sys_find_character : Bytes → ℕ → ℕ × ℕ
unfolding find_loop
sys_find_character file character = let t = find_loop character file no_tally in (t.count, t.rows)
