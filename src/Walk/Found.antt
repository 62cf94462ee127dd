-- ===== src/Walk/Found.antt =====
-- What the search of cw03/zad3/main.c writes on a terminal, against the files that have the text.
use operating_systems_course.Common.{
  ℕ, zero, suc, ◌-◌, ◌≡◌, refl, sym, ◌∙◌, ap, true, false, [], ◌++◌, arith, length, take, ◌==◌,
  append_assoc, append-nil, Bool-cases, inl, inr,
}
use operating_systems_course.Common.Bytes.{Bytes}
use operating_systems_course.Walk.{
  regular, directory, block_device, char_device, fifo, symbolic_link, socket, strange, Node, file,
  folder, locked, sealed, Entries, end, entry, is_dots, fits, slash,
}
use operating_systems_course.Walk.Listing.{take-path, take_all}
use operating_systems_course.Walk.Search.{
  Searcher, Search, in_directory, in_locked, visit, search_loop, search_for_substring,
}
use operating_systems_course.Walk.Wanted.{
  found_at, found_in, searchable, all_searchable, Wrote, WroteBelow, nothing-Wrote, opened,
  in_directory-Wrote, after_child-Wrote, search_in_file-Wrote,
}

-- The entries of a directory, read below its paths.
abbrev LoopWrote : Search → ℕ → Entries → Bytes → Bytes → Searcher → Type 0
LoopWrote search depth entries full path s =
    WroteBelow (found_in search.substring depth path entries)
      (search_loop search depth entries (length (slash full)) (length (slash path)) s) full path s

dots-LoopWrote :
    (search : Search) (depth : ℕ) (name : Bytes) (node : Node) (rest : Entries) (full path : Bytes)
    (s : Searcher)
    → is_dots name ≡ true
    → LoopWrote search depth rest full path s
    → LoopWrote search depth (entry name node rest) full path s
unfolding search_loop found_in
dots-LoopWrote search depth name node rest full path s dots d = record {
  after = d.after;
  returns = ground (arith, dots, d.returns);
  fullpath = d.fullpath;
  relativepath = d.relativepath;
  quiet = d.quiet;
  written = ground (arith, dots, d.written);
}

-- The state in which an entry is visited.
abbrev below : Bytes → Bytes → Bytes → Searcher → Searcher
below full path name s = record s {
  fullpath = slash full ++ name;
  relativepath = slash path ++ name;
}

entry-LoopWrote :
    (search : Search) (depth : ℕ) (name : Bytes) (node : Node) (rest : Entries) (full path : Bytes)
    (s : Searcher)
    → is_dots name ≡ false
    → fits (slash full ++ name) ≡ true
    → fits (slash path ++ name) ≡ true
    → take (length (slash full)) s.fullpath ≡ slash full
    → take (length (slash path)) s.relativepath ≡ slash path
    → (v : Wrote
        (found_at search.substring (depth - 1) (slash path ++ name) node)
        (visit search depth node (below full path name s))
        (below full path name s))
    → LoopWrote search depth rest full path v.after
    → LoopWrote search depth (entry name node rest) full path s
unfolding search_loop found_in
entry-LoopWrote search depth name node rest full path s named f r e g v d = record {
  after = d.after;
  returns = ground (arith, named, f, r, e, g, v.returns, d.returns);
  fullpath = d.fullpath;
  relativepath = d.relativepath;
  quiet = d.quiet;
  written = rw counted_in (
      d.written
      ∙ (ap (λ l. l ++ found_in search.substring depth path rest) v.written
          ∙ append_assoc s.written _ _));
}
  where
    counted_in :
        found_in search.substring depth path (entry name node rest)
        ≡ found_at search.substring (depth - 1) (slash path ++ name) node
          ++ found_in search.substring depth path rest
    counted_in = ground (arith, named)

locked-Wrote :
    (left : ℕ) (s : Searcher) → s.pending ≡ [] → (left == 0) ≡ true → Wrote [] (in_locked left s) s
locked-Wrote zero s q h = nothing-Wrote s q
locked-Wrote (suc left) s q h = ground arith

-- A directory, where its entries are read if there is depth left.
folder-Wrote :
    (search : Search) (left : ℕ) (entries : Entries) (s : Searcher)
    → s.pending ≡ []
    → searchable left s.fullpath s.relativepath (folder entries) ≡ true
    → (all_searchable left s.fullpath s.relativepath entries ≡ true
        → LoopWrote search left entries s.fullpath s.relativepath (opened s))
    → Wrote
        (found_at search.substring left s.relativepath (folder entries))
        (in_directory left (search_loop search left entries) s)
        s
unfolding found_at searchable
folder-Wrote search zero entries s q h loop = nothing-Wrote s q
folder-Wrote search (suc left) entries s q h loop = rw deep (
    in_directory-Wrote left (found_in search.substring (suc left) s.relativepath entries)
      (search_loop search (suc left) entries) s (ground (arith, h)) (ground (arith, h))
      (loop (ground (arith, h))))
  where
    deep :
        found_at search.substring (suc left) s.relativepath (folder entries)
        ≡ found_in search.substring (suc left) s.relativepath entries
    deep = ground arith

module _ (search : Search) (t : search.terminal ≡ true) where
  mutual
    unfolding visit found_at searchable

    visit-Wrote :
        (depth : ℕ) (node : Node) (s : Searcher)
        → s.pending ≡ []
        → searchable (depth - 1) s.fullpath s.relativepath node ≡ true
        → Wrote
            (found_at search.substring (depth - 1) s.relativepath node)
            (visit search depth node s)
            s
    visit-Wrote depth (file regular content) s q h = search_in_file-Wrote search content s t q
    visit-Wrote depth (file directory content) s q h = nothing-Wrote s q
    visit-Wrote depth (file block_device content) s q h = nothing-Wrote s q
    visit-Wrote depth (file char_device content) s q h = nothing-Wrote s q
    visit-Wrote depth (file fifo content) s q h = nothing-Wrote s q
    visit-Wrote depth (file symbolic_link content) s q h = nothing-Wrote s q
    visit-Wrote depth (file socket content) s q h = nothing-Wrote s q
    visit-Wrote depth (file strange content) s q h = nothing-Wrote s q
    visit-Wrote depth sealed s q h = ground arith
    visit-Wrote depth locked s q h =
        after_child-Wrote [] (in_locked (depth - 1) s) s q (locked-Wrote (depth - 1) s q h)
    visit-Wrote depth (folder entries) s q h =
        after_child-Wrote (found_at search.substring (depth - 1) s.relativepath (folder entries))
          (in_directory (depth - 1) (search_loop search (depth - 1) entries) s) s q
          (folder-Wrote search (depth - 1) entries s q h (λ ok.
            search_loop-Wrote (depth - 1) entries s.fullpath s.relativepath (opened s) q
              (take_all (slash s.fullpath)) (take_all (slash s.relativepath)) ok))

    search_loop-Wrote :
        (depth : ℕ) (entries : Entries) (full path : Bytes) (s : Searcher)
        → s.pending ≡ []
        → take (length (slash full)) s.fullpath ≡ slash full
        → take (length (slash path)) s.relativepath ≡ slash path
        → all_searchable depth full path entries ≡ true
        → LoopWrote search depth entries full path s
    search_loop-Wrote depth end full path s q e g h = record {
      after = s;
      returns = refl;
      fullpath = e;
      relativepath = g;
      quiet = q;
      written = sym (append-nil s.written);
    }
    search_loop-Wrote depth (entry name node rest) full path s q e g h =
        elim (Bool-cases (is_dots name)) [
          | inl dots ↦
              dots-LoopWrote search depth name node rest full path s dots
                (search_loop-Wrote depth rest full path s q e g (ground (arith, h, dots)))
          | inr named ↦
              let v =
                visit-Wrote depth node (below full path name s) q (ground (arith, h, named)) in
              entry-LoopWrote search depth name node rest full path s named
                (ground (arith, h, named)) (ground (arith, h, named)) e g v
                (search_loop-Wrote depth rest full path v.after v.quiet
                  (ap (take (length (slash full))) v.fullpath ∙ take-path (slash full) name)
                  (ap (take (length (slash path))) v.relativepath ∙ take-path (slash path) name)
                  (ground (arith, h, named)))
        ]

-- On a terminal, if every directory that lies less deep than max_depth opens, every regular file in
-- those directories opens, and every path fits into its buffer, then search_for_substring returns
-- with both paths as they were, and has written the paths of the regular files of those directories
-- that have the text, in the order in which they are read.
pub search_for_substring-Wrote :
    (search : Search) (max_depth : ℕ) (entries : Entries) (s : Searcher)
    → search.terminal ≡ true
    → s.pending ≡ []
    → searchable max_depth s.fullpath s.relativepath (folder entries) ≡ true
    → Wrote
        (found_at search.substring max_depth s.relativepath (folder entries))
        (search_for_substring search max_depth (folder entries) s)
        s
unfolding search_for_substring
search_for_substring-Wrote search max_depth entries s t q h =
    folder-Wrote search max_depth entries s q h (λ ok.
      search_loop-Wrote search t max_depth entries s.fullpath s.relativepath (opened s) q
        (take_all (slash s.fullpath)) (take_all (slash s.relativepath)) ok)
