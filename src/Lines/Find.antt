-- ===== src/Lines/Find.antt =====
-- `lib_find_character` and `sys_find_character` of cw02/zad2 against the list of lines.
use operating_systems_course.Common.{
  ℕ, ◌+◌, ◌≡◌, refl, ◌≢◌, Bool, true, false, List, [], ◌∷◌, arith, ◌==◌, if◌then◌else◌, ◌||◌,
}
use operating_systems_course.Common.Bytes.{Bytes}
use operating_systems_course.Lines.{
  Tally, see, no_tally, find_loop, lib_find_character, sys_find_character,
}
use operating_systems_course.Lines.Split.{split, put_first}

-- How often the character stands in a line.
abbrev pub occurrences : ℕ → Bytes → ℕ
occurrences character [] = 0
occurrences character (c ∷ s) =
    if character == c then occurrences character s + 1 else occurrences character s

abbrev pub has : ℕ → Bytes → Bool
has character [] = false
has character (c ∷ s) = (character == c) || has character s

-- How many lines have the character.
abbrev pub lines_with : ℕ → List Bytes → ℕ
lines_with character [] = 0
lines_with character (l ∷ ls) =
    if has character l then lines_with character ls + 1 else lines_with character ls

-- A row that was counted already is the first one of what is left.
abbrev lines_after : ℕ → Bool → List Bytes → ℕ
lines_after character found [] = 0
lines_after character found (l ∷ ls) =
    if found then lines_with character ls else lines_with character (l ∷ ls)

lines_after-put_first :
    (character c : ℕ) (found : Bool) (ls : List Bytes)
    → lines_after character found (put_first c ls) ≡ (
        if found
        then lines_after character true ls
        else if character == c
        then lines_after character true ls + 1
        else lines_after character false ls)
lines_after-put_first character c found [] = ground arith
lines_after-put_first character c found (l ∷ ls) = ground arith

lines_after-false :
    (character : ℕ) (ls : List Bytes) → lines_after character false ls ≡ lines_with character ls
lines_after-false character [] = refl
lines_after-false character (l ∷ ls) = refl

find_loop_lem :
    (character : ℕ) (s : Bytes) (t : Tally)
    → character ≢ 10
    → let u = find_loop character s t in
      (u.count ≡ t.count + occurrences character s)
      × (u.rows ≡ t.rows + lines_after character t.found (split s))
unfolding find_loop
find_loop_lem character [] t n = (omega arith, omega arith)
find_loop_lem character (c ∷ s) t n = ground (
  arith,
  find_loop_lem character s (see character c t) n,
  lines_after-put_first character c t.found (split s),
  lines_after-false character (split s),
)

-- For any character but the newline, lib_find_character and sys_find_character print how often it
-- stands in the file and how many lines have it.
pub find_character-occurrences :
    (file : Bytes) (character : ℕ)
    → character ≢ 10
    → (lib_find_character file character
        ≡ (occurrences character file, lines_with character (split file)))
      × (sys_find_character file character
          ≡ (occurrences character file, lines_with character (split file)))
unfolding lib_find_character sys_find_character
find_character-occurrences file character n =
    ground
      (arith, find_loop_lem character file no_tally n, lines_after-false character (split file))
