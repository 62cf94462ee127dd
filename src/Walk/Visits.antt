-- ===== src/Walk/Visits.antt =====
-- What `do_recur_path` of cw02/zad3/read_directories.c lists, against the paths of the tree.
use operating_systems_course.Common.{
  ℕ, ◌-◌, ◌≡◌, refl, ◌∙◌, ap, true, false, List, [], ◌∷◌, ◌++◌, Option, some, arith, length, take,
  Bool-cases, inl, inr,
}
use operating_systems_course.Common.Bytes.{Bytes}
use operating_systems_course.Walk.{
  Kind, regular, directory, Node, file, folder, locked, sealed, Entries, end, entry, Walk, counted,
  get_file_type, is_dots, fits, slash, do_recur_path, read_entries,
}
use operating_systems_course.Walk.Listing.{
  visits, visits_of, walkable, walkable_of, Listed, nothing-Listed, append-Listed,
  get_file_type-Listed, get_file_type-fullpath, take_all, take-path, take-slash,
}

-- What the walk below a path does.
record Done (files : List (Bytes × Kind)) (result : Option Walk) (w : Walk) (n : ℕ) (path : Bytes)
    : Type 0 where
  after : Walk
  returns : result ≡ some after
  back : take n after.fullpath ≡ path
  listed : Listed files w after

-- The path is no part of what is listed.
pub move-Listed :
    (xs : List (Bytes × Kind)) (u w : Walk) (p q : Bytes)
    → Listed xs u w
    → Listed xs (record u { fullpath = p }) (record w { fullpath = q })
move-Listed xs u w p q a = record {
  printed = a.printed;
  nreg = a.nreg;
  ndir = a.ndir;
  nblk = a.nblk;
  nchr = a.nchr;
  nfifo = a.nfifo;
  nslink = a.nslink;
  nsock = a.nsock;
}

-- The walk of a node, which gives the path back.
abbrev Visited : Node → Walk → Type 0
Visited node w =
    (w' : Walk) × (do_recur_path node w ≡ some w')
    × (w'.fullpath ≡ w.fullpath)
    × Listed (visits w.fullpath node) w w'

-- The directory is listed, and its entries are read below its path.
abbrev opened : Walk → Walk
opened w = record (get_file_type directory w) { fullpath = slash w.fullpath }

folder-Visited :
    (entries : Entries) (w : Walk)
    → fits (slash w.fullpath) ≡ true
    → let n = length (slash w.fullpath) in
      Done
        (visits_of w.fullpath entries)
        (read_entries n entries (opened w))
        (opened w)
        n
        (slash w.fullpath)
      → Visited (folder entries) w
unfolding do_recur_path visits get_file_type counted
folder-Visited entries w fit d = (
  record d.after { fullpath = take (length (slash w.fullpath) - 1) d.after.fullpath },
  ground (arith, fit, d.returns),
  take-slash w.fullpath d.after.fullpath d.back,
  append-Listed ((w.fullpath, directory) ∷ []) (visits_of w.fullpath entries) w (opened w) _
      (move-Listed _ w (get_file_type directory w) w.fullpath (slash w.fullpath)
        (get_file_type-Listed directory w))
      (move-Listed _ (opened w) d.after (slash w.fullpath) _ d.listed),
)

-- The entries of a directory, read below its path.
abbrev ReadAll : Entries → Bytes → Walk → Type 0
ReadAll entries path w =
    Done (visits_of path entries) (read_entries (length (slash path)) entries w) w
      (length (slash path)) (slash path)

dots-ReadAll :
    (name : Bytes) (node : Node) (rest : Entries) (path : Bytes) (w : Walk)
    → is_dots name ≡ true
    → ReadAll rest path w
    → ReadAll (entry name node rest) path w
unfolding read_entries visits_of
dots-ReadAll name node rest path w dots d = record {
  after = d.after;
  returns = ground (arith, dots, d.returns);
  back = d.back;
  listed = rw skipped d.listed;
}
  where
    skipped : visits_of path (entry name node rest) ≡ visits_of path rest
    skipped = ground (arith, dots)

-- The state in which the walk of an entry starts.
abbrev below : Bytes → Bytes → Walk → Walk
below path name w = record w { fullpath = slash path ++ name }

entry-ReadAll :
    (name : Bytes) (node : Node) (rest : Entries) (path : Bytes) (w : Walk)
    → is_dots name ≡ false
    → fits (slash path ++ name) ≡ true
    → take (length (slash path)) w.fullpath ≡ slash path
    → (v : Visited node (below path name w)) → ReadAll rest path v.0
    → ReadAll (entry name node rest) path w
unfolding read_entries visits_of
entry-ReadAll name node rest path w named fit e v d = record {
  after = d.after;
  returns = ground (arith, named, fit, e, v.1, d.returns);
  back = d.back;
  listed = rw counted_in (
      append-Listed (visits (slash path ++ name) node) (visits_of path rest) w v.0 d.after
        (move-Listed _ (below path name w) v.0 w.fullpath v.0.fullpath v.3) d.listed);
}
  where
    counted_in :
        visits_of path (entry name node rest)
        ≡ visits (slash path ++ name) node ++ visits_of path rest
    counted_in = ground (arith, named)

mutual
  unfolding do_recur_path visits walkable

  do_recur_path-visits : (node : Node) (w : Walk) → walkable w.fullpath node ≡ true → Visited node w
  do_recur_path-visits (file kind content) w h =
      (get_file_type kind w, refl, get_file_type-fullpath kind w, get_file_type-Listed kind w)
  do_recur_path-visits sealed w h = (
    get_file_type regular w,
    refl,
    get_file_type-fullpath regular w,
    get_file_type-Listed regular w,
  )
  do_recur_path-visits locked w h = ground arith
  do_recur_path-visits (folder entries) w h = folder-Visited entries w (ground (arith, h)) (
      read_entries-visits entries w.fullpath (opened w) (take_all (slash w.fullpath))
        (ground (arith, h)))

  read_entries-visits :
      (entries : Entries) (path : Bytes) (w : Walk)
      → take (length (slash path)) w.fullpath ≡ slash path
      → walkable_of path entries ≡ true
      → ReadAll entries path w
  read_entries-visits end path w e h = record {
    after = w;
    returns = refl;
    back = e;
    listed = nothing-Listed w;
  }
  read_entries-visits (entry name node rest) path w e h = elim (Bool-cases (is_dots name)) [
    | inl dots ↦
        dots-ReadAll name node rest path w dots
          (read_entries-visits rest path w e (ground (arith, h, dots)))
    | inr named ↦
        let v = do_recur_path-visits node (below path name w) (ground (arith, h, named)) in
        entry-ReadAll name node rest path w named (ground (arith, h, named)) e v (
          read_entries-visits rest path v.0
            (ap (take (length (slash path))) v.2 ∙ take-path (slash path) name)
            (ground (arith, h, named)))
  ]

-- If every directory opens and every path fits into the buffer of fullpath, then do_recur_path comes
-- to an end with fullpath as it was; it has printed each file of the tree but the dots under its
-- path, a directory before what is in it, and each counter has grown by the files of its kind.
pub do_recur_path-Listed :
    (node : Node) (w : Walk)
    → walkable w.fullpath node ≡ true
    → (w' : Walk) × (do_recur_path node w ≡ some w')
      × (w'.fullpath ≡ w.fullpath)
      × Listed (visits w.fullpath node) w w'
do_recur_path-Listed node w h = do_recur_path-visits node w h
