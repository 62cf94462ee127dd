-- ===== src/Game/Board/Winner.antt =====
-- `check_winner` against the rules: who owns one of the eight lines of the board.
use operating_systems_course.Common.{
  ℕ, ◌≡◌, refl, sym, ◌≢◌, ◌⊎◌, inl, inr, true, List, [], ◌∷◌, arith,
}
use operating_systems_course.Game.Board.{
  Object, free, o_mark, x_mark, Board, cell, line, column_loop, row_loop, or_else, check_winner,
}

-- The eight lines, as squares: three columns, three rows, two diagonals.
abbrev pub lines : List (ℕ × ℕ × ℕ)
lines =
    (0, 3, 6)
    ∷ (1, 4, 7)
    ∷ (2, 5, 8)
    ∷ (0, 1, 2)
    ∷ (3, 4, 5)
    ∷ (6, 7, 8)
    ∷ (0, 4, 8)
    ∷ (2, 4, 6)
    ∷ []

abbrev pub Owns : Object → Board → ℕ × ℕ × ℕ → Type 0
Owns p b (i, j, k) = (cell b i ≡ p) × (cell b j ≡ p) × (cell b k ≡ p)

-- The player owns one of the lines.
abbrev pub Won : Object → Board → List (ℕ × ℕ × ℕ) → Type 0
Won p b [] = ⊥
Won p b (l ∷ ls) = Owns p b l ⊎ Won p b ls

-- What one test finds: what was found before, or the owner of the line.
line_cases :
    (f s t found p : Object)
    → p ≢ free
    → line f s t found ≡ p
    → (found ≡ p) ⊎ ((f ≡ p) × (s ≡ p) × (t ≡ p))
unfolding line
line_cases f s t found p ne h = ground arith

-- A line that was found stays found, and a test of an owned line finds something.
line_keeps : (f s t found : Object) → found ≢ free → line f s t found ≢ free
unfolding line
line_keeps f s t found h = ground arith

line_finds : (f s t found p : Object) → p ≢ free → f ≡ p → s ≡ p → t ≡ p → line f s t found ≢ free
unfolding line
line_finds f s t found p ne h1 h2 h3 = ground arith

module _ (b : Board) where
  columns_cases :
      (p : Object)
      → p ≢ free
      → column_loop 3 0 b free ≡ p
      → Owns p b (0, 3, 6) ⊎ (Owns p b (1, 4, 7) ⊎ Owns p b (2, 5, 8))
  unfolding column_loop
  columns_cases p ne h = ground (
    arith,
    line_cases (cell b 2) (cell b 5) (cell b 8)
        (line (cell b 1) (cell b 4) (cell b 7) (line (cell b 0) (cell b 3) (cell b 6) free)) p ne,
    line_cases (cell b 1) (cell b 4) (cell b 7) (line (cell b 0) (cell b 3) (cell b 6) free) p ne,
    line_cases (cell b 0) (cell b 3) (cell b 6) free p ne,
  )

  rows_cases :
      (p : Object)
      → p ≢ free
      → row_loop 3 0 b free ≡ p
      → Owns p b (0, 1, 2) ⊎ (Owns p b (3, 4, 5) ⊎ Owns p b (6, 7, 8))
  unfolding row_loop
  rows_cases p ne h = ground (
    arith,
    line_cases (cell b 6) (cell b 7) (cell b 8)
        (line (cell b 3) (cell b 4) (cell b 5) (line (cell b 0) (cell b 1) (cell b 2) free)) p ne,
    line_cases (cell b 3) (cell b 4) (cell b 5) (line (cell b 0) (cell b 1) (cell b 2) free) p ne,
    line_cases (cell b 0) (cell b 1) (cell b 2) free p ne,
  )

  columns_complete :
      (p : Object)
      → p ≢ free
      → Owns p b (0, 3, 6) ⊎ (Owns p b (1, 4, 7) ⊎ Owns p b (2, 5, 8))
      → column_loop 3 0 b free ≢ free
  unfolding column_loop
  columns_complete p ne (inl o) =
      line_keeps _ _ _ _ (line_keeps _ _ _ _ (line_finds _ _ _ free p ne o.0 o.1 o.2))
  columns_complete p ne (inr (inl o)) = line_keeps _ _ _ _ (line_finds _ _ _ _ p ne o.0 o.1 o.2)
  columns_complete p ne (inr (inr o)) = line_finds _ _ _ _ p ne o.0 o.1 o.2

  rows_complete :
      (p : Object)
      → p ≢ free
      → Owns p b (0, 1, 2) ⊎ (Owns p b (3, 4, 5) ⊎ Owns p b (6, 7, 8))
      → row_loop 3 0 b free ≢ free
  unfolding row_loop
  rows_complete p ne (inl o) =
      line_keeps _ _ _ _ (line_keeps _ _ _ _ (line_finds _ _ _ free p ne o.0 o.1 o.2))
  rows_complete p ne (inr (inl o)) = line_keeps _ _ _ _ (line_finds _ _ _ _ p ne o.0 o.1 o.2)
  rows_complete p ne (inr (inr o)) = line_finds _ _ _ _ p ne o.0 o.1 o.2

or_else_cases : (a n p : Object) → p ≢ free → or_else a n ≡ p → (a ≡ p) ⊎ (n ≡ p)
unfolding or_else
or_else_cases free n p ne h = inr h
or_else_cases o_mark n p ne h = inl h
or_else_cases x_mark n p ne h = inl h

or_else_free : (a n : Object) → or_else a n ≡ free → (a ≡ free) × (n ≡ free)
unfolding or_else
or_else_free free n h = (refl, h)
or_else_free o_mark n h = ground arith
or_else_free x_mark n h = ground arith

-- The player that `check_winner` names owns one of the eight lines.
pub check_winner-Won : (b : Board) (p : Object) → p ≢ free → check_winner b ≡ p → Won p b lines
unfolding check_winner
check_winner-Won b p ne h = elim (or_else_cases _ _ p ne h) [
  | inl column ↦ elim (columns_cases b p ne column) [
    | inl o ↦ inl o
    | inr (inl o) ↦ inr (inl o)
    | inr (inr o) ↦ inr (inr (inl o))
  ]
  | inr rest ↦ elim (or_else_cases _ _ p ne rest) [
    | inl row ↦ elim (rows_cases b p ne row) [
      | inl o ↦ inr (inr (inr (inl o)))
      | inr (inl o) ↦ inr (inr (inr (inr (inl o))))
      | inr (inr o) ↦ inr (inr (inr (inr (inr (inl o)))))
    ]
    | inr diagonals ↦ elim (or_else_cases _ _ p ne diagonals) [
      | inl low ↦ elim (line_cases (cell b 0) (cell b 4) (cell b 8) free p ne low) [
        | inl none_before ↦ absurd (ne (sym none_before))
        | inr o ↦ inr (inr (inr (inr (inr (inr (inl o))))))
      ]
      | inr up ↦ elim (line_cases (cell b 2) (cell b 4) (cell b 6) free p ne up) [
        | inl none_before ↦ absurd (ne (sym none_before))
        | inr o ↦ inr (inr (inr (inr (inr (inr (inr (inl o)))))))
      ]
    ]
  ]
]

-- Where `check_winner` names nobody, no player owns a line.
pub check_winner-free :
    (b : Board) (p : Object) → p ≢ free → check_winner b ≡ free → ¬ (Won p b lines)
unfolding check_winner
check_winner-free b p ne h w =
    let (columns, rest) = or_else_free _ _ h in
    let (rows, diagonals) = or_else_free _ _ rest in
    let (low, up) = or_else_free _ _ diagonals in
    elim w [
      | inl o ↦ columns_complete b p ne (inl o) columns
      | inr (inl o) ↦ columns_complete b p ne (inr (inl o)) columns
      | inr (inr (inl o)) ↦ columns_complete b p ne (inr (inr o)) columns
      | inr (inr (inr (inl o))) ↦ rows_complete b p ne (inl o) rows
      | inr (inr (inr (inr (inl o)))) ↦ rows_complete b p ne (inr (inl o)) rows
      | inr (inr (inr (inr (inr (inl o))))) ↦ rows_complete b p ne (inr (inr o)) rows
      | inr (inr (inr (inr (inr (inr (inl o)))))) ↦ line_finds _ _ _ free p ne o.0 o.1 o.2 low
      | inr (inr (inr (inr (inr (inr (inr (inl o))))))) ↦ line_finds _ _ _ free p ne o.0 o.1 o.2 up
      | inr (inr (inr (inr (inr (inr (inr (inr none_left))))))) ↦ none_left
    ]

-- The first line found decides: with both players on a column, the later column wins.
two_columns :
    check_winner (record {
      move = true;
      objects = o_mark ∷ x_mark ∷ free ∷ o_mark ∷ x_mark ∷ free ∷ o_mark ∷ x_mark ∷ free ∷ [];
    })
    ≡ x_mark
unfolding check_winner
two_columns = refl
