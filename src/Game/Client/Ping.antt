-- ===== src/Game/Client/Ping.antt =====
-- The buffer that cw10/zad1/client.c shares between its threads: a ping that comes between a move
-- and its use.
use operating_systems_course.Common.{◌≡◌, ◌<◌, refl, arith, length, [], ◌∷◌, ◌++◌, none, some}
use operating_systems_course.Common.Int.{pos}
use operating_systems_course.Common.Bytes.{Bytes, codes, str_eq}
use operating_systems_course.Common.Decimal.{atoi}
use operating_systems_course.Common.Strtok.{strtok}
use operating_systems_course.Game.Board.{move as make_move}
use operating_systems_course.Game.Client.{opponent_move, looping, Client, pong_message, receive}
use operating_systems_course.Game.Client.Turn.{turn, moved_by_opponent}

-- The answer to a ping is sent from the buffer, and `arg` is left in the middle of the answer.
abbrev after_ping : Client → Client
after_ping c = record c {
  arg = some (codes " :" ++ c.name);
  sent = c.sent ++ (pong_message c.name ∷ []);
}

-- The answer to a ping, and where it leaves `arg`: in the middle of the answer.
receive-ping : (c : Client) → length c.name < 250 → receive (codes "ping: ") c ≡ some (after_ping c)
unfolding receive strtok str_eq
receive-ping c short = ground (arith, short)

atoi_of_answer : (name : Bytes) → atoi (codes " :" ++ name) ≡ pos 0
unfolding atoi
atoi_of_answer name = refl

-- Whatever move the opponent made, if a ping arrives when `play_game` is at the head of its loop and
-- has not read it, the next round of `play_game` makes the move to position 0 in its place. The name
-- is short enough for the buffer of the answer.
pub ping-Misread :
    (c : Client)
    → c.stand ≡ looping
    → c.state ≡ opponent_move
    → c.exit_code ≡ none
    → length c.name < 250
    → (d : Client) × (receive (codes "ping: ") c ≡ some d)
      × (turn d ≡ moved_by_opponent d (make_move (pos 0) d.board))
      × (d.board ≡ c.board)
unfolding turn
ping-Misread c at s x short =
    (after_ping c, receive-ping c short, rw (x, at, s, atoi_of_answer c.name) refl, refl)
