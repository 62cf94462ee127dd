-- ===== src/Walk/Tests.antt =====
-- The theorems on cw02/zad3 and cw03/zad3 at a small tree, and runs of the two programs.
use operating_systems_course.Common.{◌≡◌, refl, Bool, true, false, [], ◌∷◌, some}
use operating_systems_course.Common.Bytes.{codes, str_eq}
use operating_systems_course.Walk.{
  regular, directory, symbolic_link, Node, file, folder, locked, sealed, Entries, end, entry, Walk,
  do_recur_path,
}
use operating_systems_course.Walk.Listing.{visits, walkable, Listed}
use operating_systems_course.Walk.Visits.{do_recur_path-Listed}
use operating_systems_course.Walk.Search.{
  Searcher, Search, goes, search_for_substring, contains, c_string,
}
use operating_systems_course.Walk.Wanted.{found_at, searchable, Wrote}
use operating_systems_course.Walk.Found.{search_for_substring-Wrote}

-- /t holds a file, a link and a directory with one file.
abbrev inner : Entries
inner = entry (codes ".") locked (entry (codes "b") (file regular (codes "an ant")) end)

abbrev outer : Entries
outer = entry (codes "a") (file regular (codes "ants")) (
    entry (codes "..") locked
      (entry (codes "d") (folder inner) (entry (codes "l") (file symbolic_link []) end)))

abbrev tree : Node
tree = folder outer

abbrev walk : Walk
walk = record {
  nreg = 0;
  ndir = 0;
  nblk = 0;
  nchr = 0;
  nfifo = 0;
  nslink = 0;
  nsock = 0;
  fullpath = codes "/t";
  printed = [];
}

do_recur_path-Listed_example :
    (w : Walk) × (do_recur_path tree walk ≡ some w)
    × (w.fullpath ≡ codes "/t")
    × Listed (visits (codes "/t") tree) walk w
unfolding walkable str_eq
do_recur_path-Listed_example = do_recur_path-Listed tree walk refl

visits_run :
    visits (codes "/t") tree
    ≡ (codes "/t", directory)
      ∷ (codes "/t/a", regular)
      ∷ (codes "/t/d", directory)
      ∷ (codes "/t/d/b", regular)
      ∷ (codes "/t/l", symbolic_link)
      ∷ []
unfolding visits str_eq
visits_run = refl

abbrev ants : Bool → Search
ants terminal = record { substring = codes "ant"; terminal = terminal }

abbrev searcher : Searcher
searcher = record { fullpath = codes "/t"; relativepath = codes ".."; pending = []; written = [] }

search_for_substring-Wrote_example :
    Wrote
      (found_at (codes "ant") 2 (codes "..") tree)
      (search_for_substring (ants true) 2 tree searcher)
      searcher
unfolding searchable str_eq
search_for_substring-Wrote_example =
    search_for_substring-Wrote (ants true) 2 outer searcher refl refl refl

found_run : found_at (codes "ant") 2 (codes "..") tree ≡ codes "../a" ∷ codes "../d/b" ∷ []
unfolding found_at contains c_string str_eq
found_run = refl

-- Where stdout is no terminal, the child writes the line of ../a that the parent still holds back,
-- and the parent writes it again at its end.
twice_run :
    search_for_substring (ants false) 2 tree searcher
    ≡ goes (record searcher {
      pending = codes "../a" ∷ [];
      written = codes "../a" ∷ codes "../d/b" ∷ [];
    })
unfolding search_for_substring contains c_string str_eq
twice_run = refl

-- A file that does not open ends the process that searches its directory, and only that: what the
-- directory holds behind it is not searched.
abbrev guarded : Node
guarded = folder (
    entry (codes "d") (folder (entry (codes "s") sealed inner))
      (entry (codes "a") (file regular (codes "ants")) end))

sealed_run :
    search_for_substring (ants true) 2 guarded searcher
    ≡ goes (record searcher { written = codes "../a" ∷ [] })
unfolding search_for_substring contains c_string str_eq
sealed_run = refl
