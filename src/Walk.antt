-- ===== src/Walk.antt =====
-- The walk over a file tree in cw02/zad3/read_directories.c: the files by their kinds, what is
-- printed of each, and the path that the recursion shares. Of a printed line the model keeps the
-- path and the kind.
pub mod Listing
pub mod Visits
pub mod Search
pub mod Wanted
pub mod Found
mod Tests
use operating_systems_course.Common.{
  ℕ, zero, suc, ◌+◌, ◌-◌, Bool, true, false, ◌||◌, List, [], ◌∷◌, ◌++◌, Option, none, some, length,
  take, ltb, if◌then◌else◌,
}
use operating_systems_course.Common.Bytes.{Bytes, codes, str_eq}

-- What `st_mode` tells. A `strange` file is none of the kinds that the code knows.
pub data Kind : Type 0 where
  regular : Kind
  directory : Kind
  block_device : Kind
  char_device : Kind
  fifo : Kind
  symbolic_link : Kind
  socket : Kind
  strange : Kind

-- A directory holds what `readdir` returns, `.` and `..` among it. A locked one cannot be opened, and
-- a sealed file is a regular one that cannot.
mutual
  pub data Node : Type 0 where
    file : Kind → Bytes → Node
    folder : Entries → Node
    locked : Node
    sealed : Node

  pub data Entries : Type 0 where
    end : Entries
    entry : Bytes → Node → Entries → Entries

-- The counters and `fullpath`, with what was printed.
pub record Walk : Type 0 where
  pub nreg : ℕ
  pub ndir : ℕ
  pub nblk : ℕ
  pub nchr : ℕ
  pub nfifo : ℕ
  pub nslink : ℕ
  pub nsock : ℕ
  pub fullpath : Bytes
  pub printed : List (Bytes × Kind)

-- The counters of `get_file_type`.
unfoldable pub counted : Kind → Walk → Walk
counted regular w = record w { nreg = w.nreg + 1 }
counted directory w = record w { ndir = w.ndir + 1 }
counted block_device w = record w { nblk = w.nblk + 1 }
counted char_device w = record w { nchr = w.nchr + 1 }
counted fifo w = record w { nfifo = w.nfifo + 1 }
counted symbolic_link w = record w { nslink = w.nslink + 1 }
counted socket w = record w { nsock = w.nsock + 1 }
counted strange w = w

unfoldable pub get_file_type : Kind → Walk → Walk
unfolding counted
get_file_type kind w = counted kind (record w { printed = w.printed ++ ((w.fullpath, kind) ∷ []) })

-- `strcmp(d_name, ".") == 0 || strcmp(d_name, "..") == 0`
abbrev pub is_dots : Bytes → Bool
is_dots name = str_eq name (codes ".") || str_eq name (codes "..")

-- A path in the buffer of 1000 bytes, of which the last is for the final zero; past its end C leaves
-- everything undefined.
abbrev pub fits : Bytes → Bool
fits path = ltb (length path) 1000

abbrev pub slash : Bytes → Bytes
slash path = path ++ (b'/' ∷ [])

-- `fullpath[n - 1] = 0`
abbrev pub close : ℕ → Option Walk → Option Walk
close n none = none
close n (some w) = some (record w { fullpath = take (n - 1) w.fullpath })

abbrev pub then_go : Option Walk → (Walk → Option Walk) → Option Walk
then_go none f = none
then_go (some w) f = f w

-- `do_recur_path` at the file that `fullpath` names, and its loop over the directory, where `n` is
-- the length of `fullpath` with the slash. `readdir` of a directory that did not open is undefined.
unfoldable mutual
  unfolding get_file_type

  pub do_recur_path : Node → Walk → Option Walk
  do_recur_path (file kind content) w = some (get_file_type kind w)
  do_recur_path sealed w = some (get_file_type regular w)
  do_recur_path locked w = none
  do_recur_path (folder entries) w =
      let listed = get_file_type directory w in
      let path = slash listed.fullpath in
      let n = length path in
      let read = read_entries n entries (record listed { fullpath = path }) in
      if fits path then close n read else none

  pub read_entries : ℕ → Entries → Walk → Option Walk
  read_entries n end w = some w
  read_entries n (entry name node rest) w =
      let skipped = read_entries n rest w in
      let path = take n w.fullpath ++ name in
      let more =
        then_go (do_recur_path node (record w { fullpath = path })) (read_entries n rest) in
      if is_dots name then skipped else if fits path then more else none
