-- ===== src/Walk/Wanted.antt =====
-- The files that the search of cw03/zad3/main.c should write, and the steps that write them.
use operating_systems_course.Common.{
  ℕ, suc, ◌-◌, ◌≡◌, refl, sym, ◌∙◌, ap, Bool, true, false, ◌&&◌, ◌||◌, List, [], ◌∷◌, ◌++◌, arith,
  length, take, ◌==◌, if◌then◌else◌, append-nil, Bool-cases, inl, inr,
}
use operating_systems_course.Common.Bytes.{Bytes}
use operating_systems_course.Walk.{
  regular, Node, file, folder, locked, sealed, Entries, end, entry, is_dots, fits, slash,
}
use operating_systems_course.Walk.Listing.{take-slash}
use operating_systems_course.Walk.Search.{
  Searcher, Search, Outcome, goes, c_string, contains, search_in_file, after_child, in_directory,
}

-- The regular files that have the text, by their paths from `..`, in directories that lie less deep
-- than `depth`; `left` is the depth that is left for a directory.
unfoldable mutual
  pub found_at : Bytes → ℕ → Bytes → Node → List Bytes
  found_at text left path (file regular content) =
      if contains text (c_string content) then path ∷ [] else []
  found_at text left path (file _ content) = []
  found_at text left path sealed = []
  found_at text left path locked = []
  found_at text left path (folder entries) =
      let inside = found_in text left path entries in if left == 0 then [] else inside

  pub found_in : Bytes → ℕ → Bytes → Entries → List Bytes
  found_in text depth path end = []
  found_in text depth path (entry name node rest) =
      let more = found_in text depth path rest in
      if is_dots name then more else found_at text (depth - 1) (slash path ++ name) node ++ more

-- Every directory that lies less deep opens, and every regular file in one, and all paths fit into
-- their buffers.
unfoldable mutual
  pub searchable : ℕ → Bytes → Bytes → Node → Bool
  searchable left full path (file kind content) = true
  searchable left full path sealed = false
  searchable left full path locked = left == 0
  searchable left full path (folder entries) =
      let inside = all_searchable left full path entries in
      (left == 0) || ((fits (slash full) && fits (slash path)) && inside)

  pub all_searchable : ℕ → Bytes → Bytes → Entries → Bool
  all_searchable depth full path end = true
  all_searchable depth full path (entry name node rest) =
      let more = all_searchable depth full path rest in
      if is_dots name
      then more
      else (fits (slash full ++ name) && fits (slash path ++ name))
        && (searchable (depth - 1) (slash full ++ name) (slash path ++ name) node && more)

-- The search ends, with both paths as they were and nothing held back, and has written the lines.
pub record Wrote (lines : List Bytes) (result : Outcome) (s : Searcher) : Type 0 where
  pub after : Searcher
  pub returns : result ≡ goes after
  pub fullpath : after.fullpath ≡ s.fullpath
  pub relativepath : after.relativepath ≡ s.relativepath
  pub quiet : after.pending ≡ []
  pub written : after.written ≡ s.written ++ lines

-- The same for a loop, which leaves more behind the slashes.
pub record WroteBelow (lines : List Bytes) (result : Outcome) (full path : Bytes) (s : Searcher)
    : Type 0 where
  pub after : Searcher
  pub returns : result ≡ goes after
  pub fullpath : take (length (slash full)) after.fullpath ≡ slash full
  pub relativepath : take (length (slash path)) after.relativepath ≡ slash path
  pub quiet : after.pending ≡ []
  pub written : after.written ≡ s.written ++ lines

pub nothing-Wrote : (s : Searcher) → s.pending ≡ [] → Wrote [] (goes s) s
nothing-Wrote s q = record {
  after = s;
  returns = refl;
  fullpath = refl;
  relativepath = refl;
  quiet = q;
  written = sym (append-nil s.written);
}

-- The state in which the loop over a directory starts.
abbrev pub opened : Searcher → Searcher
opened s = record s { fullpath = slash s.fullpath; relativepath = slash s.relativepath }

pub in_directory-Wrote :
    (left : ℕ) (lines : List Bytes) (loop : ℕ → ℕ → Searcher → Outcome) (s : Searcher)
    → fits (slash s.fullpath) ≡ true
    → fits (slash s.relativepath) ≡ true
    → WroteBelow lines
        (loop (length (slash s.fullpath)) (length (slash s.relativepath)) (opened s))
        s.fullpath
        s.relativepath
        (opened s)
    → Wrote lines (in_directory (suc left) loop s) s
in_directory-Wrote left lines loop s f r d = record {
  after = record d.after {
    fullpath = take (length (slash s.fullpath) - 1) d.after.fullpath;
    relativepath = take (length (slash s.relativepath) - 1) d.after.relativepath;
  };
  returns = ground (arith, f, r, d.returns);
  fullpath = take-slash s.fullpath d.after.fullpath d.fullpath;
  relativepath = take-slash s.relativepath d.after.relativepath d.relativepath;
  quiet = d.quiet;
  written = d.written;
}

-- A child that is quiet has written all that it found.
pub after_child-Wrote :
    (lines : List Bytes) (result : Outcome) (s : Searcher)
    → s.pending ≡ []
    → Wrote lines result s
    → Wrote lines (after_child s result) s
unfolding after_child
after_child-Wrote lines result s q d = record {
  after = record s { written = d.after.written ++ d.after.pending };
  returns = ground (arith, d.returns);
  fullpath = refl;
  relativepath = refl;
  quiet = q;
  written = ap (λ more. d.after.written ++ more) d.quiet ∙ (append-nil d.after.written ∙ d.written);
}

pub search_in_file-Wrote :
    (search : Search) (content : Bytes) (s : Searcher)
    → search.terminal ≡ true
    → s.pending ≡ []
    → Wrote
        (if contains search.substring (c_string content) then s.relativepath ∷ [] else [])
        (goes (search_in_file search content s))
        s
unfolding search_in_file
search_in_file-Wrote search content s t q =
    elim (Bool-cases (contains search.substring (c_string content))) [
      | inl has ↦ record {
        after = search_in_file search content s;
        returns = refl;
        fullpath = ground (arith, has, t);
        relativepath = ground (arith, has, t);
        quiet = ground (arith, has, t, q);
        written = ground (arith, has, t);
      }
      | inr lacks ↦ record {
        after = search_in_file search content s;
        returns = refl;
        fullpath = ground (arith, lacks);
        relativepath = ground (arith, lacks);
        quiet = ground (arith, lacks, q);
        written = rw lacks (sym (append-nil s.written));
      }
    ]
