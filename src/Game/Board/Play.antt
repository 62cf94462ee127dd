-- ===== src/Game/Board/Play.antt =====
-- `move` on a board: the position it accepts, the alternation of the players, and its progress.
use operating_systems_course.Common.{
  ℕ, zero, suc, ◌+◌, ◌≤◌, ◌≡◌, refl, sym, ◌↔◌, Bool, true, not, List, [], ◌∷◌, none, some, arith,
  get_elem?, set, length, length-set, if◌then◌else◌,
}
use mathlib.Core.Path.{subst}
use operating_systems_course.Common.Int.{ℤ, pos, negsuc}
use operating_systems_course.Game.Board.{
  Object, free, o_mark, x_mark, same, Board, new_board, mark, move, no_free,
}

-- How many squares show the object.
abbrev pub count : Object → List Object → ℕ
count p [] = 0
count p (q ∷ qs) = (if same p q then 1 else 0) + count p qs

-- The board has nine squares, and O, who begins, is level with X or one ahead.
pub record IsBoard (b : Board) : Type 0 where
  pub nine : length b.objects ≡ 9
  pub turns : count o_mark b.objects ≡ count x_mark b.objects + (if b.move then 0 else 1)

pub new_board-IsBoard : IsBoard new_board
new_board-IsBoard = omega arith

-- Filling a free square changes the counts by that square alone.
count-set :
    (xs : List Object) (i : ℕ) (m : Bool) (p : Object)
    → get_elem? xs i ≡ some free
    → count p (set xs i (mark m)) + (if same p free then 1 else 0)
      ≡ count p xs + (if same p (mark m) then 1 else 0)
count-set [] i m p h = ground arith
count-set (q ∷ xs) zero m p h = ground arith
count-set (q ∷ xs) (suc i) m p h = omega (arith, count-set xs i m p h)

get_elem?-none : (xs : List Object) (i : ℕ) → (get_elem? xs i ≡ none) ↔ (length xs ≤ i)
get_elem?-none [] i = ((λ _. omega arith), λ _. refl)
get_elem?-none (x ∷ xs) zero = ground arith
get_elem?-none (x ∷ xs) (suc i) = ground (arith, get_elem?-none xs i)

-- `move` keeps a well-formed board well formed, whether it makes the move or refuses it.
pub move-IsBoard :
    (p : ℤ) {b b' : Board} {r : Bool} → IsBoard b → move p b ≡ some (r, b') → IsBoard b'
unfolding move
move-IsBoard (negsuc n) v e = ground arith
move-IsBoard (pos n) {b} v e = ground (
  arith,
  length-set b.objects n (mark b.move),
  count-set b.objects n b.move o_mark,
  count-set b.objects n b.move x_mark,
)

-- On a well-formed board `move` reads past the array exactly at position 9, which its range test
-- lets through.
pub move-none_iff : (p : ℤ) {b : Board} → IsBoard b → (move p b ≡ none) ↔ (p ≡ pos 9)
unfolding move
move-none_iff (negsuc n) v = ground arith
move-none_iff (pos n) {b} v = ground (arith, get_elem?-none b.objects n)

-- What a move to the square `n` makes of a board: the square is free, it alone changes, and the
-- turn passes.
abbrev pub Makes : ℕ → Board → Board → Type 0
Makes n b b' =
    (get_elem? b.objects n ≡ some free)
    × (b' ≡ record { move = not b.move; objects = set b.objects n (mark b.move) })

move-true_at :
    (n : ℕ) {b b' : Board} → IsBoard b → (move (pos n) b ≡ some (true, b')) ↔ Makes n b b'
unfolding move
move-true_at n {b} v = ground (arith, get_elem?-none b.objects n)

-- On a well-formed board a move is made exactly at a position that is not negative and is the
-- index of a free square; it changes that square alone and passes the turn.
pub move-true_iff :
    (p : ℤ) {b b' : Board}
    → IsBoard b
    → (move p b ≡ some (true, b')) ↔ ((n : ℕ) × (p ≡ pos n) × Makes n b b')
unfolding move
move-true_iff (negsuc k) v = ((λ e. ground arith), λ (n, e, made). ground arith)
move-true_iff (pos k) {b} {b' = b'} v = (
  (λ e. (k, refl, (move-true_at k v).0 e)),
  λ (n, e, made). subst (λ p. move p b ≡ some (true, b')) (sym e) ((move-true_at n v).1 made),
)

-- Each move made takes one free square, so at most nine are made.
pub move-count_free :
    (p : ℤ) (b : Board) {b' : Board}
    → move p b ≡ some (true, b')
    → count free b'.objects + 1 ≡ count free b.objects
unfolding move
move-count_free (negsuc n) b e = ground arith
move-count_free (pos n) b e = ground (arith, count-set b.objects n b.move free)

-- The test for a draw sees a full board.
pub no_free_iff : (xs : List Object) → (no_free xs ≡ true) ↔ (count free xs ≡ 0)
unfolding no_free
no_free_iff [] = ground arith
no_free_iff (free ∷ xs) = ground arith
no_free_iff (o_mark ∷ xs) = ground (arith, no_free_iff xs)
no_free_iff (x_mark ∷ xs) = ground (arith, no_free_iff xs)
