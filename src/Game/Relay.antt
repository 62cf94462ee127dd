-- ===== src/Game/Relay.antt =====
-- A move on its way from one player of cw10 to the other: what the sender prints, how the server
-- splits it, and what the opponent plays.
use operating_systems_course.Common.{
  ◌≡◌, refl, sym, ◌∙◌, ◌≢◌, ◌↔◌, ◌<◌, length, true, [], ◌∷◌, ◌++◌, none, some, arith,
}
use operating_systems_course.Common.Int.{ℤ}
use operating_systems_course.Common.Bytes.{Bytes, codes, str_eq}
use operating_systems_course.Common.Decimal.{
  show, atoi, atoi-show, IsNumeral, show-IsNumeral, show-ne-nil,
}
use operating_systems_course.Common.Strtok.{Avoids, strtok-append, strtok_last}
use operating_systems_course.Game.Board.{Board, move as make_move}
use operating_systems_course.Game.Client.{
  State, opponent_move, quit, looping, wants_move, Client, ok, move_message, receive, settle, send,
  check_game, waiting_for_move,
}
use operating_systems_course.Game.Client.Turn.{
  Typed, read_move, turn, typed_move, take_opponent_move, moved_by_opponent,
}
use operating_systems_course.Game.Client.Rules.{read_move-legal, board-settle, settle-quit_iff}
use operating_systems_course.Game.Server.Request.{split_request}

colon_free : (s : Bytes) → IsNumeral s → Avoids b':' s
colon_free [] n = tt
colon_free (c ∷ s) n = (ground arith, colon_free s n.1)

show-Avoids : (p : ℤ) → Avoids b':' (show p)
show-Avoids p = colon_free (show p) (show-IsNumeral p)

-- The server splits a player's move into the command, the position and the name, and reads the
-- position back, if the name is not empty and has no colon.
split_request-move_message :
    (p : ℤ) (name : Bytes)
    → name ≢ []
    → Avoids b':' name
    → (split_request (move_message p name)
        ≡ some (record { command = codes "move"; arg = some (show p); name = some name }))
      × (atoi (show p) ≡ p)
unfolding split_request
split_request-move_message p name ne av = (
  ground (
    arith,
    strtok-append b':' (codes "move") (show p ++ b':' ∷ name),
    strtok-append b':' (show p) name (show-ne-nil p) (show-Avoids p),
    strtok_last b':' name ne av,
  ),
  atoi-show p,
)

-- A relayed position reaches `arg` as it was printed, and wakes the thread that plays.
receive-move :
    (p : ℤ) (c : Client)
    → receive (codes "move:" ++ show p) c
      ≡ some (record c { state = opponent_move; arg = some (show p) })
unfolding receive str_eq
receive-move p c = ground (
  arith,
  strtok-append b':' (codes "move") (show p),
  strtok_last b':' (show p) (show-ne-nil p) (show-Avoids p),
)

-- The two players during a move: `mover` is about to type it in, and `other` waits for it.
pub record Facing (mover other : Client) : Type 0 where
  pub typing : (mover.state ≡ State.move) × (mover.stand ≡ looping) × (mover.exit_code ≡ none)
  pub waits : (other.stand ≡ wants_move) × (other.exit_code ≡ none)
  pub same_board : other.board ≡ mover.board

-- What the move does on both sides.
pub record Followed (mover other : Client) (t : Typed) : Type 0 where
  pub moved : Client
  pub informed : Client
  pub awake : Client
  pub followed : Client
  pub moves : turn mover ≡ ok moved
  pub sends : moved.sent ≡ mover.sent ++ (move_message t.position mover.name ∷ [])
  pub splits :
      split_request (move_message t.position mover.name)
      ≡ some
          (record { command = codes "move"; arg = some (show t.position); name = some mover.name })
  pub informs : receive (codes "move:" ++ show (atoi (show t.position))) other ≡ some informed
  pub wakes : turn informed ≡ ok awake
  pub follows : turn awake ≡ ok followed
  pub same_board : followed.board ≡ moved.board
  pub same_end : (followed.state ≡ quit) ↔ (moved.state ≡ quit)

sent-settle : (next : State) (c : Client) → (settle next c).sent ≡ c.sent
unfolding check_game
sent-settle next c = ground arith

turn_typed :
    (c : Client) (t : Typed)
    → c.state ≡ State.move
    → c.stand ≡ looping
    → c.exit_code ≡ none
    → read_move c.input c.board ≡ ok t
    → length (move_message t.position c.name) < 256
    → turn c
      ≡ ok (
          settle waiting_for_move
            (send (move_message t.position c.name) (record c { board = t.board; input = t.input })))
unfolding turn typed_move
turn_typed c t s w x r short = ground (arith, r, short)

turn_woken :
    (c : Client)
    → c.state ≡ opponent_move
    → c.stand ≡ wants_move
    → c.exit_code ≡ none
    → turn c ≡ ok (record c { stand = looping })
unfolding turn
turn_woken c s w x = ground arith

turn_following :
    (c : Client) (a : Bytes) (b : Board)
    → c.state ≡ opponent_move
    → c.stand ≡ looping
    → c.exit_code ≡ none
    → c.arg ≡ some a
    → make_move (atoi a) c.board ≡ some (true, b)
    → turn c ≡ ok (settle State.move (record c { board = b }))
unfolding turn take_opponent_move moved_by_opponent
turn_following c a b s w x g m = ground (arith, g, m)

-- A legal move that one player types in is sent, split by the server into the command, the position
-- and the name, read by the other as it was meant, and leaves both with the same board; the game
-- ends for both or for neither. The name of the one who moves is not empty, has no colon, and leaves
-- room for the final zero in the 256 bytes of a message.
pub move-Followed :
    (mover other : Client) (t : Typed)
    → Facing mover other
    → read_move mover.input mover.board ≡ ok t
    → mover.name ≢ []
    → Avoids b':' mover.name
    → length (move_message t.position mover.name) < 256
    → Followed mover other t
move-Followed mover other t f r ne av short = record {
  moved = settle waiting_for_move sender;
  informed = informed;
  awake = awake;
  followed = settle State.move follower;
  moves = turn_typed mover t f.typing.0 f.typing.1 f.typing.2 r short;
  sends = sent-settle waiting_for_move sender;
  splits = (split_request-move_message t.position mover.name ne av).0;
  informs = rw (atoi-show t.position) (receive-move t.position other);
  wakes = turn_woken informed refl f.waits.0 f.waits.1;
  follows = turn_following awake (show t.position) t.board refl refl f.waits.1 refl legal;
  same_board = board-settle State.move follower ∙ sym (board-settle waiting_for_move sender);
  same_end = (
    λ e.
        (settle-quit_iff waiting_for_move sender mover_plays (λ h. ground arith)).1
          ((settle-quit_iff State.move follower (λ h. ground arith) (λ h. ground arith)).0 e),
    λ e.
        (settle-quit_iff State.move follower (λ h. ground arith) (λ h. ground arith)).1
          ((settle-quit_iff waiting_for_move sender mover_plays (λ h. ground arith)).0 e),
  );
}
  where
    sender : Client
    sender =
        send (move_message t.position mover.name)
          (record mover { board = t.board; input = t.input })

    informed : Client
    informed = record other { state = opponent_move; arg = some (show t.position) }

    awake : Client
    awake = record informed { stand = looping }

    follower : Client
    follower = record awake { board = t.board }

    mover_plays : mover.state ≢ quit
    mover_plays h = ground (arith, f.typing.0)

    legal : make_move (atoi (show t.position)) other.board ≡ some (true, t.board)
    legal = rw (atoi-show t.position, f.same_board) (read_move-legal mover.input mover.board r)
