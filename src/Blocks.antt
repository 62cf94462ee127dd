-- ===== src/Blocks.antt =====
-- The table of results of cw01/zad1/lib.c. Allocations succeed; what the shell makes of a command,
-- and so what is in the temporary file, is an argument.
pub mod Save
mod Tests
use operating_systems_course.Common.{
  ℕ, zero, suc, ◌+◌, ◌*◌, ◌%◌, ◌^◌, Bool, true, false, ◌||◌, List, [], ◌∷◌, ◌++◌, Option, none,
  some, get_elem?, set, replicate, length, take, ltb, leb, if◌then◌else◌,
}
use operating_systems_course.Common.Int.{ℤ, pos, negsuc}
use operating_systems_course.Common.Bytes.{Bytes, codes}

-- `memory_block`
pub record MemoryBlock : Type 0 where
  pub size : ℕ
  pub result : Bytes

-- `wrapped_array`; `none` is a null pointer.
pub record WrappedArray : Type 0 where
  pub size : ℕ
  pub blocks : List (Option MemoryBlock)

-- The global `array`: null at first, and left pointing at freed memory by `remove_array`.
pub data Array : Type 0 where
  null : Array
  live : WrappedArray → Array
  freed : Array

-- `calloc(size, sizeof(memory_block))`: a block takes the room of two pointers.
abbrev pub new_array : ℕ → WrappedArray
new_array size = record { size = size; blocks = replicate (size * 2) none }

unfoldable pub create_table : ℤ → Array → Array
create_table (negsuc _) a = a
create_table (pos zero) a = a
create_table (pos (suc n)) a = live (new_array (suc n))

abbrev pub spaced : List Bytes → Bytes
spaced [] = []
spaced (file ∷ files) = 32 ∷ file ++ spaced files

-- The command of `wc_files`; one that overflows its buffer is `none`.
unfoldable pub wc_files : List Bytes → Option Bytes
wc_files files =
    let command = codes "wc" ++ spaced files ++ codes " > tmp_file.txt" in
    if ltb (length command) 100000 then some command else none

-- `while (array->blocks[index] != NULL && index < array->size) index++;`, with `rest` the blocks from
-- `index` on. Past the last one it is undefined.
unfoldable pub empty_index : ℕ → ℕ → List (Option MemoryBlock) → Option ℕ
empty_index size index [] = none
empty_index size index (none ∷ rest) = some index
empty_index size index (some _ ∷ rest) =
    let more = empty_index size (index + 1) rest in if ltb index size then more else some index

-- The block for a file whose size is cut to 32 bits.
abbrev pub block_of : Bytes → MemoryBlock
block_of file =
    let file_size = length file % 2 ^ 32 in
    record { size = file_size; result = take file_size file }

unfoldable pub save_at : Bytes → WrappedArray → Option ℕ → Option (ℕ × Array)
save_at file a none = none
save_at file a (some index) =
    some (index, live (record a { blocks = set a.blocks index (some (block_of file)) }))

-- `save_in_memory`: the index of the block. `none` is undefined behaviour; with no temporary file
-- the code seeks in a null pointer.
unfoldable pub save_in_memory : Option Bytes → Array → Option (ℕ × Array)
unfolding empty_index save_at
save_in_memory none a = none
save_in_memory (some file) null = none
save_in_memory (some file) freed = none
save_in_memory (some file) (live a) = save_at file a (empty_index a.size 0 a.blocks)

-- A second call reads freed memory.
unfoldable pub remove_array : Array → Option Array
remove_array null = some null
remove_array (live a) = some freed
remove_array freed = none

unfoldable pub remove_found : ℕ → WrappedArray → Option (Option MemoryBlock) → Option Array
remove_found index a none = none
remove_found index a (some none) = some (live a)
remove_found index a (some (some _)) = some (live (record a { blocks = set a.blocks index none }))

unfoldable pub remove_block : ℤ → Array → Option Array
unfolding remove_found
remove_block (negsuc _) a = some a
remove_block (pos index) null = none
remove_block (pos index) freed = none
remove_block (pos index) (live a) =
    if leb a.size index then some (live a) else remove_found index a (get_elem? a.blocks index)
