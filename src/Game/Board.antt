-- ===== src/Game/Board.antt =====
-- The noughts-and-crosses board of cw10/zad1/client.c: `Board`, `new_board`, `move`,
-- `check_winner` and the test for a full board.
pub mod Play
pub mod Winner
use operating_systems_course.Common.{
  ℕ, zero, suc, ◌+◌, ◌*◌, Bool, true, false, not, ◌&&◌, List, [], ◌∷◌, Option, none, some,
  get_elem?, get_or, set, replicate, ltb, if◌then◌else◌,
}
use operating_systems_course.Common.Int.{ℤ, pos, negsuc}

-- `enum object { FREE, O, X }`
pub data Object : Type 0 where
  free o_mark x_mark : Object

abbrev pub same : Object → Object → Bool
same free free = true
same o_mark o_mark = true
same x_mark x_mark = true
same _ _ = false

-- `move` is 1 when O moves next and 0 when X does; `objects` has nine entries, row by row.
pub record Board : Type 0 where
  pub move : Bool
  pub objects : List Object

abbrev pub new_board : Board
new_board = record { move = true; objects = replicate 9 free }

abbrev pub mark : Bool → Object
mark true = o_mark
mark false = x_mark

-- The part of `move` behind the test of the range, given `objects[position]`. There is no such
-- entry at position 9: C reads past the end of the array, and the model stops with `none`.
put_mark : ℕ → Board → Option Object → Option (Bool × Board)
put_mark n b none = none
put_mark n b (some free) =
    some (true, record b { move = not b.move; objects = set b.objects n (mark b.move) })
put_mark n b (some o_mark) = some (false, b)
put_mark n b (some x_mark) = some (false, b)

-- `move(position)`: whether the move was made, and the board behind it. The range test is
-- `position < 0 || position > 9`.
unfoldable pub move : ℤ → Board → Option (Bool × Board)
unfolding put_mark
move (negsuc _) b = some (false, b)
move (pos n) b = if ltb 9 n then some (false, b) else put_mark n b (get_elem? b.objects n)

abbrev pub cell : Board → ℕ → Object
cell b i = get_or b.objects i free

-- `if (first == second && first == third && first != FREE) found = first;`
line : Object → Object → Object → Object → Object
line first second third found =
    if same first second && (same first third && not (same first free)) then first else found

-- The loop over the columns, from `x` on, `rounds` times.
column_loop : ℕ → ℕ → Board → Object → Object
column_loop zero x b column = column
column_loop (suc rounds) x b column =
    column_loop rounds (x + 1) b (line (cell b x) (cell b (x + 3)) (cell b (x + 6)) column)

row_loop : ℕ → ℕ → Board → Object → Object
row_loop zero y b row = row
row_loop (suc rounds) y b row =
    row_loop rounds (y + 1) b (line (cell b (3 * y)) (cell b (3 * y + 1)) (cell b (3 * y + 2)) row)

-- `if (found != FREE) return found;` with what follows.
or_else : Object → Object → Object
or_else free next = next
or_else o_mark next = o_mark
or_else x_mark next = x_mark

unfoldable pub check_winner : Board → Object
unfolding column_loop row_loop line or_else
check_winner b =
    let column = column_loop 3 0 b free in
    let row = row_loop 3 0 b free in
    let lower_diagonal = line (cell b 0) (cell b 4) (cell b 8) free in
    let upper_diagonal = line (cell b 2) (cell b 4) (cell b 6) free in
    or_else column (or_else row (or_else lower_diagonal upper_diagonal))

-- The loop of `check_game` that clears `draw` at the first free square.
unfoldable pub no_free : List Object → Bool
no_free [] = true
no_free (free ∷ _) = false
no_free (o_mark ∷ rest) = no_free rest
no_free (x_mark ∷ rest) = no_free rest
