-- ===== src/Game/Client.antt =====
-- The player's side of cw10/zad1/client.c: `listen_server` and `play_game`, two threads over the
-- same globals. `receive` is one round of the loop of `listen_server`, `turn` one round of the
-- loop of `play_game`; a wait on the condition variable is a round that changes nothing.
pub mod Turn
pub mod Rules
pub mod Ping
use operating_systems_course.Common.{
  ℕ, zero, suc, ◌-◌, Bool, true, false, not, ◌&&◌, ◌||◌, List, [], ◌∷◌, ◌++◌, Option, none, some,
  length, drop, replicate, ltb, ◌==◌, if◌then◌else◌,
}
use operating_systems_course.Common.Int.{ℤ, pos, negsuc}
use operating_systems_course.Common.Bytes.{Bytes, codes, str_eq}
use operating_systems_course.Common.Decimal.{show, atoi}
use operating_systems_course.Common.Strtok.{strtok}
use operating_systems_course.Game.Board.{
  Object, free, o_mark, x_mark, same, Board, new_board, check_winner, no_free,
}

-- `enum State`
pub data State : Type 0 where
  game_starting waiting waiting_for_move opponent_move move quit : State

-- Where the thread of `play_game` stands: at the head of its loop, or in one of its two waits.
pub data Stand : Type 0 where
  looping wants_start wants_move : Stand

-- What `play_game` and `check_game` print, the drawing of the board apart.
pub data Note : Type 0 where
  name_taken waiting_for_opponent waiting_for_turn win lost draw : Note

-- `exit_code` is set by `exit`; `input` holds the numbers that `scanf` will read.
pub record Client : Type 0 where
  pub name : Bytes
  pub board : Board
  pub state : State
  pub stand : Stand
  pub arg : Option Bytes
  pub is_client_O : Bool
  pub game_thread_running : Bool
  pub input : List ℤ
  pub notes : List Note
  pub sent : List Bytes
  pub exit_code : Option ℕ

-- A round ends, or it does what C leaves undefined, or it still waits for input.
pub data Outcome {ℓ} (A : Type ℓ) : Type ℓ where
  ok : A → Outcome A
  undefined : Outcome A
  starved : Outcome A

abbrev pub add_message : Bytes → Bytes
add_message name = codes "add: :" ++ name

abbrev pub quit_message : Bytes → Bytes
quit_message name = codes "quit: :" ++ name

abbrev pub pong_message : Bytes → Bytes
pong_message name = codes "pong: :" ++ name

-- A text and its final zero fit into a buffer of MAX_MESSAGE_LENGTH + 1 bytes. Of a text of 256
-- bytes, `send` leaves the zero out.
abbrev pub fits_buffer : Bytes → Bool
fits_buffer text = ltb (length text) 257

-- `sprintf(temp_buffer, "move:%d:%s", pos, name)`
abbrev pub move_message : ℤ → Bytes → Bytes
move_message p name = codes "move:" ++ (show p ++ (b':' ∷ name))

abbrev pub send : Bytes → Client → Client
send m c = record c { sent = c.sent ++ (m ∷ []) }

abbrev pub note : Note → Client → Client
note n c = record c { notes = c.notes ++ (n ∷ []) }

abbrev pub exit : ℕ → Client → Client
exit code c = record c { exit_code = some code }

-- `main` behind the connection, for a name with which the request fits into its buffer: the request to join is sent, and `listen_server` begins.
abbrev pub start : Bytes → List ℤ → Client
start name input = record {
  name = name;
  board = record { move = false; objects = replicate 9 free };
  state = game_starting;
  stand = looping;
  arg = none;
  is_client_O = false;
  game_thread_running = false;
  input = input;
  notes = [];
  sent = add_message name ∷ [];
  exit_code = none;
}

-- `quit()`
unfoldable pub leave : Client → Client
leave c = exit 0 (send (quit_message c.name) c)

skip_colons : Bytes → Bytes
skip_colons [] = []
skip_colons (c ∷ s) = let rest = skip_colons s in if c == b':' then rest else c ∷ s

-- `arg` points into `buffer`, which the answer to a ping overwrites: the same place of the new text.
overwritten : Bytes → Bytes → Bytes → Option Bytes → Option Bytes
overwritten message rest text none = none
overwritten message rest text (some _) =
    some (drop (length message - length (skip_colons rest)) text)

-- The branches of `listen_server` on a message whose first token is `command`.
obey : Bytes → Bytes → Bytes → Client → Client
unfolding overwritten skip_colons
obey message command rest c =
    if str_eq command (codes "add")
    then record c { state = game_starting; game_thread_running = true }
    else if str_eq command (codes "move")
    then record c { state = opponent_move }
    else if str_eq command (codes "quit")
    then exit 0 (record c { state = quit })
    else if str_eq command (codes "ping")
    then (let text = pong_message c.name in
        send text (record c { arg = overwritten message rest text c.arg }))
    else c

second_token : Option (Bytes × Bytes) → Option Bytes
second_token none = none
second_token (some (token, _)) = some token

parsed : Bytes → Client → Option (Bytes × Bytes) → Option Client
unfolding obey second_token
parsed message c none = none
parsed message c (some (command, rest)) =
    if str_eq command (codes "ping") && not (fits_buffer (pong_message c.name))
    then none
    else some (obey message command rest (record c { arg = second_token (strtok b':' rest) }))

-- One round of `listen_server` on a received message. `none` is what C leaves undefined: with no
-- token `strcmp` gets a null pointer, and a long name overflows the buffer of the answer to a ping.
unfoldable pub receive : Bytes → Client → Option Client
unfolding parsed
receive message c = parsed message c (strtok b':' message)

-- `check_game`
abbrev pub won : Bool → Object → Note
won true o_mark = win
won false x_mark = win
won _ _ = lost

unfoldable pub check_game : Client → Client
check_game c =
    let winner = check_winner c.board in
    let is_win = not (same winner free) in
    let is_draw = no_free c.board.objects in
    let told = if is_win then note (won c.is_client_O winner) c else c in
    let told_draw = if is_draw && not is_win then note draw told else told in
    if is_win || is_draw then record told_draw { state = quit } else told_draw

abbrev pub is_quit : State → Bool
is_quit quit = true
is_quit _ = false

-- `check_game(); if (state != QUIT) state = next;`
abbrev pub settle : State → Client → Client
settle next c = let d = check_game c in if is_quit d.state then d else record d { state = next }

-- `arg[0] == 'O'`
abbrev pub begins_with_O : Bytes → Bool
begins_with_O [] = false
begins_with_O (c ∷ _) = c == b'O'

-- A new game: O moves first, X waits.
unfoldable pub new_game : Option Bytes → Client → Outcome Client
new_game none c = undefined
new_game (some a) c = ok (record c {
  board = new_board;
  is_client_O = begins_with_O a;
  state = if begins_with_O a then State.move else waiting_for_move;
  stand = looping;
})
