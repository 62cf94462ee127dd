-- ===== src/Blocks/Tests.antt =====
-- Concrete runs for cw01/zad1.
use operating_systems_course.Common.{ℕ, ◌≡◌, refl, [], ◌∷◌, some, arith}
use operating_systems_course.Common.Int.{pos}
use operating_systems_course.Common.Bytes.{codes}
use operating_systems_course.Blocks.{WrappedArray, new_array, wc_files, live, create_table, null}
use operating_systems_course.Blocks.Save.{Saved, filled, save_in_memory-Saved}

abbrev one_saved : WrappedArray
one_saved = filled (new_array 2) 0 (codes "1 2 3 f")

save_in_memory-Saved_example : (i : ℕ) × Saved (codes "4 5 6 g") one_saved i
save_in_memory-Saved_example =
    save_in_memory-Saved (codes "4 5 6 g") one_saved (record { counted = omega arith; room = refl })

wc_files_run : wc_files (codes "a" ∷ codes "b" ∷ []) ≡ some (codes "wc a b > tmp_file.txt")
unfolding wc_files
wc_files_run = refl

create_table_run : create_table (pos 2) null ≡ live (new_array 2)
unfolding create_table
create_table_run = refl
