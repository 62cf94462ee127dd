-- ===== src/Game/Client/Rules.antt =====
-- When cw10/zad1/client.c ends a game, and that a round of `play_game` keeps the board well formed.
use operating_systems_course.Common.{
  ℕ, ◌≡◌, refl, ◌≢◌, ◌⊎◌, inl, inr, ◌↔◌, Bool, true, not, ◌||◌, List, [], ◌∷◌, Option, none, some,
  arith, Bool-cases, Option-cases,
}
use operating_systems_course.Common.Int.{ℤ}
use operating_systems_course.Common.Decimal.{atoi}
use operating_systems_course.Common.Bytes.{Bytes, codes, str_eq}
use mathlib.Core.Path.{subst}
use operating_systems_course.Game.Board.{
  Object, free, o_mark, x_mark, same, Board, check_winner, no_free, move as make_move,
}
use operating_systems_course.Game.Board.Play.{
  IsBoard, count, new_board-IsBoard, move-IsBoard, no_free_iff,
}
use operating_systems_course.Game.Board.Winner.{lines, Won, check_winner-Won, check_winner-free}
use operating_systems_course.Game.Client.{
  State, game_starting, waiting, waiting_for_move, opponent_move, quit, looping, wants_start,
  wants_move, Client, Outcome, ok, undefined, starved, check_game, settle, new_game, leave, Stand,
  send, move_message, quit_message, fits_buffer,
}
use operating_systems_course.Game.Client.Turn.{
  Typed, read_move, decrement, begin, take_opponent_move, moved_by_opponent, typed_move, left,
  by_state, woken_to_start, woken_to_move, by_stand, unless_exited, turn,
}

Object-cases : (p : Object) → (p ≡ free) ⊎ (p ≢ free)
Object-cases free = inl refl
Object-cases o_mark = inr (λ e. ground arith)
Object-cases x_mark = inr (λ e. ground arith)

-- Somebody owns a line, or no square is free.
abbrev pub IsOver : Board → Type 0
IsOver b = ((p : Object) × (p ≢ free) × Won p b lines) ⊎ (count free b.objects ≡ 0)

-- The two tests of `check_game`.
end_tests_iff :
    (b : Board) → ((not (same (check_winner b) free) || no_free b.objects) ≡ true) ↔ IsOver b
end_tests_iff b = (forth, back)
  where
    forth : (not (same (check_winner b) free) || no_free b.objects) ≡ true → IsOver b
    forth h = elim (Object-cases (check_winner b)) [
      | inl nobody ↦ inr ((no_free_iff b.objects).0 (ground (arith, nobody)))
      | inr somebody ↦
          inl (check_winner b, somebody, check_winner-Won b (check_winner b) somebody refl)
    ]

    back : IsOver b → (not (same (check_winner b) free) || no_free b.objects) ≡ true
    back (inr full) = ground (arith, (no_free_iff b.objects).1 full)
    back (inl (p, ne, w)) = elim (Object-cases (check_winner b)) [
      | inl nobody ↦ absurd (check_winner-free b p ne nobody w)
      | inr somebody ↦ ground (arith, somebody)
    ]

check_game-quit :
    (c : Client)
    → c.state ≢ quit
    → ((check_game c).state ≡ quit)
      ↔ ((not (same (check_winner c.board) free) || no_free c.board.objects) ≡ true)
unfolding check_game
check_game-quit c h = ground arith

-- `check_game` ends a running game exactly when a player owns a line or no square is free.
pub check_game-quit_iff :
    (c : Client) → c.state ≢ quit → ((check_game c).state ≡ quit) ↔ IsOver c.board
check_game-quit_iff c h = (
  λ e. (end_tests_iff c.board).0 ((check_game-quit c h).0 e),
  λ o. (check_game-quit c h).1 ((end_tests_iff c.board).1 o),
)

pub board-check_game : (c : Client) → (check_game c).board ≡ c.board
unfolding check_game
board-check_game c = ground arith

pub board-settle : (next : State) (c : Client) → (settle next c).board ≡ c.board
board-settle next c = ground (arith, board-check_game c)

-- A move that is typed in was legal.
pub read_move-legal :
    (input : List ℤ) (b : Board) {t : Typed}
    → read_move input b ≡ ok t
    → make_move t.position b ≡ some (true, t.board)
unfolding read_move
read_move-legal [] b e = ground arith
read_move-legal (i ∷ rest) b {t} e = elim (Option-cases (make_move (decrement i) b)) [
  | inl outside ↦ ground (arith, outside)
  | inr ((r, b'), made) ↦ ground (arith, made, read_move-legal rest b {t = t})
]

-- A round that ends leaves a well-formed board.
abbrev Keeps : Outcome Client → Type 0
Keeps undefined = Unit
Keeps starved = Unit
Keeps (ok c) = IsBoard c.board

settle-Keeps : (next : State) (c : Client) → IsBoard c.board → Keeps (ok (settle next c))
settle-Keeps next c v = rw (board-settle next c) v

moved_by_opponent-Keeps :
    (p : ℤ) (c : Client) → IsBoard c.board → Keeps (moved_by_opponent c (make_move p c.board))
moved_by_opponent-Keeps p c v = by_result (make_move p c.board) refl
  where
    by_result :
        (o : Option (Bool × Board)) → make_move p c.board ≡ o → Keeps (moved_by_opponent c o)
    by_result none made = unfold moved_by_opponent in tt
    by_result (some (r, b)) made =
        unfold moved_by_opponent in
        settle-Keeps State.move (record c { board = b }) (move-IsBoard p v made)

typed_move-Keeps : (c : Client) → IsBoard c.board → Keeps (typed_move c (read_move c.input c.board))
typed_move-Keeps c v = by_typed (read_move c.input c.board) refl
  where
    by_typed : (o : Outcome Typed) → read_move c.input c.board ≡ o → Keeps (typed_move c o)
    by_typed undefined h = unfold typed_move in tt
    by_typed starved h = unfold typed_move in tt
    by_typed (ok t) h =
        let kept =
          settle-Keeps waiting_for_move
            (send (move_message t.position c.name) (record c { board = t.board; input = t.input }))
            (move-IsBoard t.position v (read_move-legal c.input c.board h)) in
        unfold typed_move in
        elim (Bool-cases (fits_buffer (move_message t.position c.name))) [
          | inl fits ↦ rw fits kept
          | inr long ↦ rw long tt
        ]

new_game-Keeps : (a : Option Bytes) (c : Client) → Keeps (new_game a c)
unfolding new_game
new_game-Keeps none c = tt
new_game-Keeps (some a) c = new_board-IsBoard

begin-Keeps : (a : Option Bytes) (c : Client) → IsBoard c.board → Keeps (begin a c)
unfolding begin
begin-Keeps none c v = tt
begin-Keeps (some a) c v = elim (Bool-cases (str_eq a (codes "name_taken"))) [
  | inl taken ↦ rw taken v
  | inr free_name ↦ elim (Bool-cases (str_eq a (codes "no_enemy"))) [
    | inl alone ↦ rw (free_name, alone) v
    | inr pair ↦ rw (free_name, pair) (new_game-Keeps (some a) c)
  ]
]

take_opponent_move-Keeps :
    (a : Option Bytes) (c : Client) → IsBoard c.board → Keeps (take_opponent_move a c)
unfolding take_opponent_move
take_opponent_move-Keeps none c v = tt
take_opponent_move-Keeps (some a) c v = moved_by_opponent-Keeps (atoi a) c v

by_state-Keeps : (s : State) (c : Client) → IsBoard c.board → Keeps (by_state s c)
unfolding by_state
by_state-Keeps game_starting c v = begin-Keeps c.arg c v
by_state-Keeps waiting c v = v
by_state-Keeps waiting_for_move c v = v
by_state-Keeps opponent_move c v = take_opponent_move-Keeps c.arg c v
by_state-Keeps State.move c v = typed_move-Keeps c v
by_state-Keeps quit c v =
    unfold left leave in
    elim (Bool-cases (fits_buffer (quit_message c.name))) [
      | inl fits ↦ rw fits v
      | inr long ↦ rw long tt
    ]

woken_to_start-Keeps : (s : State) (c : Client) → IsBoard c.board → Keeps (woken_to_start s c)
unfolding woken_to_start
woken_to_start-Keeps game_starting c v = new_game-Keeps c.arg c
woken_to_start-Keeps quit c v = new_game-Keeps c.arg c
woken_to_start-Keeps _ c v = v

woken_to_move-Keeps : (s : State) (c : Client) → IsBoard c.board → Keeps (woken_to_move s c)
unfolding woken_to_move
woken_to_move-Keeps opponent_move c v = v
woken_to_move-Keeps quit c v = v
woken_to_move-Keeps _ c v = v

by_stand-Keeps : (w : Stand) (c : Client) → IsBoard c.board → Keeps (by_stand w c)
unfolding by_stand
by_stand-Keeps looping c v = by_state-Keeps c.state c v
by_stand-Keeps wants_start c v = woken_to_start-Keeps c.state c v
by_stand-Keeps wants_move c v = woken_to_move-Keeps c.state c v

unless_exited-Keeps :
    (code : Option ℕ) (c : Client) → IsBoard c.board → Keeps (unless_exited code c)
unfolding unless_exited
unless_exited-Keeps none c v = by_stand-Keeps c.stand c v
unless_exited-Keeps (some _) c v = v

turn-Keeps : (c : Client) → IsBoard c.board → Keeps (turn c)
unfolding turn
turn-Keeps c v = unless_exited-Keeps c.exit_code c v

-- A round of `play_game` that ends leaves a well-formed board well formed.
pub turn-IsBoard : (c : Client) {c' : Client} → IsBoard c.board → turn c ≡ ok c' → IsBoard c'.board
turn-IsBoard c v e = subst Keeps e (turn-Keeps c v)

-- After a move the game is left exactly when it is over.
pub settle-quit_iff :
    (next : State) (c : Client)
    → c.state ≢ quit
    → next ≢ quit
    → ((settle next c).state ≡ quit) ↔ IsOver c.board
settle-quit_iff next c h n = (
  λ e. (check_game-quit_iff c h).0 (ground arith),
  λ o. ground (arith, (check_game-quit_iff c h).1 o),
)
