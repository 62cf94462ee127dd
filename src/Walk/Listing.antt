-- ===== src/Walk/Listing.antt =====
-- The files of a tree by their paths, and what it means that they are listed and counted.
use operating_systems_course.Common.{
  ℕ, suc, ◌+◌, ◌-◌, ◌≡◌, refl, sym, ◌∙◌, ap, Bool, true, false, List, [], ◌∷◌, ◌++◌, arith, length,
  take, ◌==◌, ◌&&◌, if◌then◌else◌, append_assoc, append-nil, length-append,
}
use operating_systems_course.Common.Bytes.{Bytes}
use operating_systems_course.Walk.{
  Kind, regular, directory, block_device, char_device, fifo, symbolic_link, socket, strange, Node,
  file, folder, locked, sealed, Entries, end, entry, Walk, counted, get_file_type, is_dots, fits,
  slash,
}

-- The files of a tree under a path, each directory before what is in it.
unfoldable mutual
  pub visits : Bytes → Node → List (Bytes × Kind)
  visits path (file kind content) = (path, kind) ∷ []
  visits path (folder entries) = (path, directory) ∷ visits_of path entries
  visits path sealed = (path, regular) ∷ []
  visits path locked = []

  pub visits_of : Bytes → Entries → List (Bytes × Kind)
  visits_of path end = []
  visits_of path (entry name node rest) =
      let more = visits_of path rest in
      if is_dots name then more else visits (slash path ++ name) node ++ more

-- Every directory of the tree opens, and every path fits into the buffer.
unfoldable mutual
  pub walkable : Bytes → Node → Bool
  walkable path (file kind content) = true
  walkable path (folder entries) = fits (slash path) && walkable_of path entries
  walkable path sealed = true
  walkable path locked = false

  pub walkable_of : Bytes → Entries → Bool
  walkable_of path end = true
  walkable_of path (entry name node rest) =
      let more = walkable_of path rest in
      if is_dots name
      then more
      else fits (slash path ++ name) && (walkable (slash path ++ name) node && more)

abbrev pub rank : Kind → ℕ
rank regular = 0
rank directory = 1
rank block_device = 2
rank char_device = 3
rank fifo = 4
rank symbolic_link = 5
rank socket = 6
rank strange = 7

-- How many of the files have a kind.
unfoldable pub occurrences : Kind → List (Bytes × Kind) → ℕ
occurrences kind [] = 0
occurrences kind ((path, k) ∷ rest) =
    let more = occurrences kind rest in if rank kind == rank k then more + 1 else more

-- The files are printed behind what was printed before, and each counter grows by those of its kind.
pub record Listed (files : List (Bytes × Kind)) (w w' : Walk) : Type 0 where
  pub printed : w'.printed ≡ w.printed ++ files
  pub nreg : w'.nreg ≡ w.nreg + occurrences regular files
  pub ndir : w'.ndir ≡ w.ndir + occurrences directory files
  pub nblk : w'.nblk ≡ w.nblk + occurrences block_device files
  pub nchr : w'.nchr ≡ w.nchr + occurrences char_device files
  pub nfifo : w'.nfifo ≡ w.nfifo + occurrences fifo files
  pub nslink : w'.nslink ≡ w.nslink + occurrences symbolic_link files
  pub nsock : w'.nsock ≡ w.nsock + occurrences socket files

occurrences-append :
    (kind : Kind) (xs ys : List (Bytes × Kind))
    → occurrences kind (xs ++ ys) ≡ occurrences kind xs + occurrences kind ys
unfolding occurrences
occurrences-append kind [] ys = omega arith
occurrences-append kind ((path, k) ∷ xs) ys = ground (arith, occurrences-append kind xs ys)

pub nothing-Listed : (w : Walk) → Listed [] w w
unfolding occurrences
nothing-Listed w = record {
  printed = sym (append-nil w.printed);
  nreg = omega arith;
  ndir = omega arith;
  nblk = omega arith;
  nchr = omega arith;
  nfifo = omega arith;
  nslink = omega arith;
  nsock = omega arith;
}

pub get_file_type-Listed :
    (kind : Kind) (w : Walk) → Listed ((w.fullpath, kind) ∷ []) w (get_file_type kind w)
unfolding occurrences get_file_type counted
get_file_type-Listed regular w = ground arith
get_file_type-Listed directory w = ground arith
get_file_type-Listed block_device w = ground arith
get_file_type-Listed char_device w = ground arith
get_file_type-Listed fifo w = ground arith
get_file_type-Listed symbolic_link w = ground arith
get_file_type-Listed socket w = ground arith
get_file_type-Listed strange w = ground arith

pub append-Listed :
    (xs ys : List (Bytes × Kind)) (u v w : Walk)
    → Listed xs u v
    → Listed ys v w
    → Listed (xs ++ ys) u w
append-Listed xs ys u v w a b = record {
  printed = b.printed ∙ (ap (λ l. l ++ ys) a.printed ∙ append_assoc u.printed xs ys);
  nreg = omega (arith, a.nreg, b.nreg, occurrences-append regular xs ys);
  ndir = omega (arith, a.ndir, b.ndir, occurrences-append directory xs ys);
  nblk = omega (arith, a.nblk, b.nblk, occurrences-append block_device xs ys);
  nchr = omega (arith, a.nchr, b.nchr, occurrences-append char_device xs ys);
  nfifo = omega (arith, a.nfifo, b.nfifo, occurrences-append fifo xs ys);
  nslink = omega (arith, a.nslink, b.nslink, occurrences-append symbolic_link xs ys);
  nsock = omega (arith, a.nsock, b.nsock, occurrences-append socket xs ys);
}

pub get_file_type-fullpath : (kind : Kind) (w : Walk) → (get_file_type kind w).fullpath ≡ w.fullpath
unfolding get_file_type counted
get_file_type-fullpath kind w = ground arith

pub take_all : (p : Bytes) → take (length p) p ≡ p
take_all [] = refl
take_all (c ∷ p) = ap (λ s. c ∷ s) (take_all p)

pub take-path : (p name : Bytes) → take (length p) (p ++ name) ≡ p
take-path [] name = refl
take-path (c ∷ p) name = ap (λ s. c ∷ s) (take-path p name)

take_init : (p s : Bytes) (c : ℕ) → take (suc (length p)) s ≡ p ++ (c ∷ []) → take (length p) s ≡ p
take_init [] s c e = refl
take_init (d ∷ p) [] c e = ground (arith, e)
take_init (d ∷ p) (b ∷ s) c e = ground (arith, e, take_init p s c)

-- The path without the slash.
pub take-slash :
    (p s : Bytes) → take (length (slash p)) s ≡ slash p → take (length (slash p) - 1) s ≡ p
take-slash p s e =
    let longer : length (slash p) ≡ suc (length p) = omega (arith, length-append p (b'/' ∷ [])) in
    let one_less : length (slash p) - 1 ≡ length p = omega (arith, longer) in
    ap (λ n. take n s) one_less ∙ take_init p s b'/' (ap (λ n. take n s) (sym longer) ∙ e)
