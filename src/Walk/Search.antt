-- ===== src/Walk/Search.antt =====
-- The search of cw03/zad3/main.c for a text in the files of a tree, with a process for every
-- directory, and where what it prints goes. Of a printed line the model keeps the
-- path, and not the number of the process.
use operating_systems_course.Common.{
  ℕ, zero, suc, ◌-◌, Bool, true, false, ◌&&◌, ◌||◌, List, [], ◌∷◌, ◌++◌, length, take, ◌==◌,
  if◌then◌else◌,
}
use operating_systems_course.Common.Bytes.{Bytes}
use operating_systems_course.Walk.{
  regular, Node, file, folder, locked, sealed, Entries, end, entry, is_dots, fits, slash,
}

-- The globals of one process, its lines that `stdout` still holds back, and those that have got out.
pub record Searcher : Type 0 where
  pub fullpath : Bytes
  pub relativepath : Bytes
  pub pending : List Bytes
  pub written : List Bytes

-- What the search is for, and whether `stdout` is a terminal, which gets each line at once.
pub record Search : Type 0 where
  pub substring : Bytes
  pub terminal : Bool

-- The process goes on, or has called `exit`, or has done what C leaves undefined.
pub data Outcome : Type 0 where
  goes : Searcher → Outcome
  ends : Searcher → Outcome
  undefined : Outcome

-- `exit`, which writes what `stdout` holds back.
abbrev pub exit : Searcher → Outcome
exit s = ends (record s { pending = []; written = s.written ++ s.pending })

-- The text that `strstr` sees: up to the first zero.
unfoldable pub c_string : Bytes → Bytes
c_string [] = []
c_string (c ∷ s) = let more = c_string s in if c == 0 then [] else c ∷ more

unfoldable pub begins : Bytes → Bytes → Bool
begins [] s = true
begins (d ∷ t) [] = false
begins (d ∷ t) (c ∷ s) = (c == d) && begins t s

-- `strstr(buffer, substring) != NULL`
unfoldable pub contains : Bytes → Bytes → Bool
unfolding begins
contains t [] = begins t []
contains t (c ∷ s) = begins t (c ∷ s) || contains t s

-- `fprintf(stdout, …)` of one line.
abbrev pub print_line : Search → Bytes → Searcher → Searcher
print_line search line s =
    if search.terminal
    then record s { written = s.written ++ (line ∷ []) }
    else record s { pending = s.pending ++ (line ∷ []) }

-- `search_in_file` on a file that opens.
unfoldable pub search_in_file : Search → Bytes → Searcher → Searcher
search_in_file search content s =
    if contains search.substring (c_string content) then print_line search s.relativepath s else s

-- The child has its own copy of everything, and calls `exit` at the end, if not before; the parent
-- goes on with what it had before, whatever the child's exit code is.
unfoldable pub after_child : Searcher → Outcome → Outcome
after_child parent undefined = undefined
after_child parent (ends child) = goes (record parent { written = child.written })
after_child parent (goes child) = goes (record parent { written = child.written ++ child.pending })

-- The slashes are cut off again.
abbrev pub cut_slashes : ℕ → ℕ → Outcome → Outcome
cut_slashes n_full n_relative undefined = undefined
cut_slashes n_full n_relative (ends s) = ends s
cut_slashes n_full n_relative (goes s) = goes (record s {
  fullpath = take (n_full - 1) s.fullpath;
  relativepath = take (n_relative - 1) s.relativepath;
})

-- `search_for_substring` up to its loop, which is an argument.
abbrev pub in_directory : ℕ → (ℕ → ℕ → Searcher → Outcome) → Searcher → Outcome
in_directory zero loop s = goes s
in_directory (suc current_depth) loop s =
    let full = slash s.fullpath in
    let relative = slash s.relativepath in
    let read =
      loop (length full) (length relative)
        (record s { fullpath = full; relativepath = relative }) in
    if fits full && fits relative
    then cut_slashes (length full) (length relative) read
    else undefined

abbrev pub then_search : Outcome → (Searcher → Outcome) → Outcome
then_search undefined f = undefined
then_search (ends s) f = ends s
then_search (goes s) f = f s

-- A directory that does not open, where it is read at all.
abbrev pub in_locked : ℕ → Searcher → Outcome
in_locked zero s = goes s
in_locked (suc depth) s = undefined

-- The file that the loop has come to, and the loop over a directory, at a depth.
unfoldable mutual
  unfolding search_in_file after_child

  pub visit : Search → ℕ → Node → Searcher → Outcome
  visit search depth (file regular content) s = goes (search_in_file search content s)
  visit search depth sealed s = exit s
  visit search depth (file _ content) s = goes s
  visit search depth (folder entries) s =
      after_child s (in_directory (depth - 1) (search_loop search (depth - 1) entries) s)
  visit search depth locked s = after_child s (in_locked (depth - 1) s)

  pub search_loop : Search → ℕ → Entries → ℕ → ℕ → Searcher → Outcome
  search_loop search depth end n_full n_relative s = goes s
  search_loop search depth (entry name node rest) n_full n_relative s =
      let skipped = search_loop search depth rest n_full n_relative s in
      let full = take n_full s.fullpath ++ name in
      let relative = take n_relative s.relativepath ++ name in
      let more =
        then_search
          (visit search depth node (record s { fullpath = full; relativepath = relative }))
          (search_loop search depth rest n_full n_relative) in
      if is_dots name then skipped else if fits full && fits relative then more else undefined

-- `search_for_substring` at the directory that `fullpath` names; a file is no directory.
unfoldable pub search_for_substring : Search → ℕ → Node → Searcher → Outcome
unfolding search_loop
search_for_substring search current_depth (file kind content) s = in_locked current_depth s
search_for_substring search current_depth sealed s = in_locked current_depth s
search_for_substring search current_depth locked s = in_locked current_depth s
search_for_substring search current_depth (folder entries) s =
    in_directory current_depth (search_loop search current_depth entries) s
