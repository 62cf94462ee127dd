-- ===== src/Lines/Tests.antt =====
-- Concrete runs for cw02.
use operating_systems_course.Common.{◌≡◌, refl, some, ◌∷◌, arith, ◌++◌}
use operating_systems_course.Common.Bytes.{Bytes, codes}
use operating_systems_course.Lines.{
  lib_open_file, sys_open_file, lib_find_character, sys_find_character,
}
use operating_systems_course.Lines.Split.{split, keep_text}
use operating_systems_course.Lines.Copy.{open_file-keep_text}
use operating_systems_course.Lines.Find.{occurrences, lines_with, find_character-occurrences}

-- A blank line between two others; the last has no newline.
abbrev text : Bytes
text = codes "ab" ++ 10 ∷ 32 ∷ 10 ∷ codes "ba"

text-kept : keep_text (split text) ≡ codes "ab" ++ 10 ∷ codes "ba"
text-kept = refl

open_file-keep_text_example :
    (lib_open_file text ≡ some (keep_text (split text)))
    × (sys_open_file text ≡ some (keep_text (split text)))
open_file-keep_text_example = open_file-keep_text text

find_character-occurrences_example :
    (lib_find_character text 97 ≡ (occurrences 97 text, lines_with 97 (split text)))
    × (sys_find_character text 97 ≡ (occurrences 97 text, lines_with 97 (split text)))
find_character-occurrences_example = find_character-occurrences text 97 (λ e. absurd (omega arith))
