-- ===== src/Game/Client/Turn.antt =====
-- One round of the loop of `play_game` in cw10/zad1/client.c, branch by branch, and its input loop.
use operating_systems_course.Common.{
  ℕ, zero, suc, Bool, true, false, List, [], ◌∷◌, Option, none, some, if◌then◌else◌,
}
use operating_systems_course.Common.Int.{ℤ, pos, negsuc}
use operating_systems_course.Common.Bytes.{Bytes, codes, str_eq}
use operating_systems_course.Common.Decimal.{atoi}
use operating_systems_course.Game.Board.{Board, move as make_move}
use operating_systems_course.Game.Client.{
  State, game_starting, waiting, waiting_for_move, opponent_move, quit, Stand, looping, wants_start,
  wants_move, name_taken, waiting_for_opponent, waiting_for_turn, Client, Outcome, ok, undefined,
  starved, move_message, quit_message, fits_buffer, send, note, exit, leave, settle, new_game,
}

-- `pos--`
abbrev pub decrement : ℤ → ℤ
decrement (pos zero) = negsuc 0
decrement (pos (suc n)) = pos n
decrement (negsuc n) = negsuc (suc n)

-- A move typed in: the position, the board behind it and the numbers left to read.
pub record Typed : Type 0 where
  pub position : ℤ
  pub board : Board
  pub input : List ℤ

tried : ℤ → List ℤ → Outcome Typed → Option (Bool × Board) → Outcome Typed
tried p rest again none = undefined
tried p rest again (some (true, b)) = ok (record { position = p; board = b; input = rest })
tried p rest again (some (false, _)) = again

-- `do { scanf("%d", &pos); pos--; } while (!move(pos));`
unfoldable pub read_move : List ℤ → Board → Outcome Typed
unfolding tried
read_move [] b = starved
read_move (i ∷ rest) b = tried (decrement i) rest (read_move rest b) (make_move (decrement i) b)

-- The branch GAME_STARTING.
unfoldable pub begin : Option Bytes → Client → Outcome Client
begin none c = undefined
begin (some a) c =
    if str_eq a (codes "name_taken")
    then ok (exit 1 (note name_taken c))
    else if str_eq a (codes "no_enemy")
    then ok (record (note waiting_for_opponent c) { state = waiting })
    else new_game (some a) c

-- The branch OPPONENT_MOVE: the result of `move` is not looked at.
unfoldable pub moved_by_opponent : Client → Option (Bool × Board) → Outcome Client
moved_by_opponent c none = undefined
moved_by_opponent c (some (_, b)) = ok (settle State.move (record c { board = b }))

unfoldable pub take_opponent_move : Option Bytes → Client → Outcome Client
unfolding moved_by_opponent
take_opponent_move none c = undefined
take_opponent_move (some a) c = moved_by_opponent c (make_move (atoi a) c.board)

-- The branch MOVE: the move is made on the own board, sent, and judged. With a long name the message
-- overflows its buffer.
unfoldable pub typed_move : Client → Outcome Typed → Outcome Client
typed_move c undefined = undefined
typed_move c starved = starved
typed_move c (ok t) =
    if fits_buffer (move_message t.position c.name)
    then ok (
        settle waiting_for_move
          (send (move_message t.position c.name) (record c { board = t.board; input = t.input })))
    else undefined

-- The branch QUIT, with the same buffer.
unfoldable pub left : Client → Outcome Client
left c = if fits_buffer (quit_message c.name) then ok (leave c) else undefined

unfoldable pub by_state : State → Client → Outcome Client
unfolding begin take_opponent_move typed_move left
by_state game_starting c = begin c.arg c
by_state waiting c = ok (record c { stand = wants_start })
by_state waiting_for_move c = ok (record (note waiting_for_turn c) { stand = wants_move })
by_state opponent_move c = take_opponent_move c.arg c
by_state State.move c = typed_move c (read_move c.input c.board)
by_state quit c = left c

-- `while (state != GAME_STARTING && state != QUIT) pthread_cond_wait(…)`, and what follows.
unfoldable pub woken_to_start : State → Client → Outcome Client
woken_to_start game_starting c = new_game c.arg c
woken_to_start quit c = new_game c.arg c
woken_to_start _ c = ok c

-- `while (state != OPPONENT_MOVE && state != QUIT) pthread_cond_wait(…)`
unfoldable pub woken_to_move : State → Client → Outcome Client
woken_to_move opponent_move c = ok (record c { stand = looping })
woken_to_move quit c = ok (record c { stand = looping })
woken_to_move _ c = ok c

unfoldable pub by_stand : Stand → Client → Outcome Client
unfolding by_state woken_to_start woken_to_move
by_stand looping c = by_state c.state c
by_stand wants_start c = woken_to_start c.state c
by_stand wants_move c = woken_to_move c.state c

unfoldable pub unless_exited : Option ℕ → Client → Outcome Client
unfolding by_stand
unless_exited none c = by_stand c.stand c
unless_exited (some _) c = ok c

-- One round of `play_game`. A process that has called `exit` does nothing more.
unfoldable pub turn : Client → Outcome Client
unfolding unless_exited
turn c = unless_exited c.exit_code c
