-- ===== src/Game/Tests.antt =====
-- The theorems of cw10's game at concrete inputs, and runs of its functions.
use operating_systems_course.Common.{
  ℕ, zero, suc, ◌+◌, ◌<◌, ◌≡◌, refl, ◌≢◌, ◌↔◌, ◌⊎◌, true, false, [], ◌∷◌, none, some, arith,
  get_elem?, replicate, ◌==◌,
}
use operating_systems_course.Common.Int.{pos}
use operating_systems_course.Common.Bytes.{codes, str_eq}
use operating_systems_course.Common.Strtok.{strtok}
use operating_systems_course.Common.Decimal.{show}
use operating_systems_course.Game.Board.{Board, free, o_mark, x_mark, move as make_move}
use operating_systems_course.Game.Board.Play.{IsBoard, Makes, move-none_iff, move-true_iff}
use operating_systems_course.Game.Client.{
  Client, State, quit, opponent_move, waiting_for_move, wants_move, looping, start as start_client,
  receive, check_game,
}
use operating_systems_course.Game.Client.Turn.{Typed, read_move, turn, moved_by_opponent}
use operating_systems_course.Game.Client.Rules.{IsOver, check_game-quit_iff, turn-IsBoard}
use operating_systems_course.Game.Client.Ping.{ping-Misread}
use operating_systems_course.Game.Relay.{Followed, move-Followed}
use operating_systems_course.Game.Server.{
  Server, start, add_client, answer_add, choose_slot, free_seat, first_null, first_named,
  last_named, remove_client,
}
use operating_systems_course.Game.Server.Request.{split_request, handle, obey}
use operating_systems_course.Game.Server.Search.{Named}
use operating_systems_course.Game.Server.Table.{IsServer, start-IsServer}
use operating_systems_course.Game.Server.Handle.{handle-IsServer}
use operating_systems_course.Game.Server.Add.{Added, Taken, add_client-decides}
use operating_systems_course.Game.Server.Remove.{Removed, remove_client-Removed}
use operating_systems_course.Game.Server.Ping.{ping_round}
use operating_systems_course.Game.Server.Ping.Round.{Pinged, ping_round-Pinged}
use operating_systems_course.Game.Datagram.{DatagramServer, remove_datagram_client, drop_rival}
use operating_systems_course.Game.Datagram.Request.{stream, handle_datagram, quit_datagram}
use operating_systems_course.Game.Datagram.Same.{stream_result}
use operating_systems_course.Game.Datagram.Handle.{table_result, handle-table}
use operating_systems_course.Game.Server.Poll.{check_messages, first_pair_leaves}

-- X has taken the middle and the first square, O two corners.
abbrev middle_game : Board
middle_game = record {
  move = true;
  objects = x_mark ∷ free ∷ o_mark ∷ free ∷ x_mark ∷ free ∷ o_mark ∷ free ∷ free ∷ [];
}

middle_game-IsBoard : IsBoard middle_game
middle_game-IsBoard = omega arith

abbrev won_game : Board
won_game = record {
  move = false;
  objects = x_mark ∷ free ∷ o_mark ∷ free ∷ o_mark ∷ x_mark ∷ o_mark ∷ free ∷ free ∷ [];
}

move-none_iff_example : (make_move (pos 9) middle_game ≡ none) ↔ (pos 9 ≡ pos 9)
move-none_iff_example = move-none_iff (pos 9) middle_game-IsBoard

move-true_iff_example :
    (make_move (pos 4) middle_game ≡ some (true, middle_game))
    ↔ ((n : ℕ) × (pos 4 ≡ pos n) × Makes n middle_game middle_game)
move-true_iff_example = move-true_iff (pos 4) middle_game-IsBoard

-- Ann is about to type 6, which is position 5; Bob waits for her move.
abbrev ann : Client
ann = record (start_client (codes "ann") (pos 3 ∷ pos 6 ∷ [])) {
  board = middle_game;
  state = State.move;
  is_client_O = true;
}

abbrev bob : Client
bob = record (start_client (codes "bob") []) {
  board = middle_game;
  state = waiting_for_move;
  stand = wants_move;
}

abbrev sixth : Typed
sixth = record {
  position = pos 5;
  board = record {
    move = false;
    objects = x_mark ∷ free ∷ o_mark ∷ free ∷ x_mark ∷ o_mark ∷ o_mark ∷ free ∷ free ∷ [];
  };
  input = [];
}

move-Followed_example : Followed ann bob sixth
unfolding read_move make_move show
move-Followed_example =
    move-Followed ann bob sixth
      (record { typing = (refl, refl, refl); waits = (refl, refl); same_board = refl }) refl
      (λ e. ground (arith, e)) (omega arith) (omega arith)

turn-IsBoard_example : IsBoard middle_game
unfolding turn
turn-IsBoard_example = turn-IsBoard bob {c' = bob} middle_game-IsBoard refl

check_game-quit_iff_example :
    ((check_game (record ann { board = won_game })).state ≡ quit) ↔ IsOver won_game
check_game-quit_iff_example =
    check_game-quit_iff (record ann { board = won_game }) (λ e. ground arith)

-- The opponent moved to position 5, and a ping came before the move was read.
abbrev told : Client
told = record bob { stand = looping; state = opponent_move; arg = some (show (pos 5)) }

ping-Misread_example :
    (d : Client) × (receive (codes "ping: ") told ≡ some d)
    × (turn d ≡ moved_by_opponent d (make_move (pos 0) d.board))
    × (d.board ≡ told.board)
ping-Misread_example = ping-Misread told refl refl refl (omega arith)

-- The server with Ann, then with Bob, then with Cid too.
abbrev ann_in : Server
ann_in = record {
  clients = some (record { name = codes "ann"; fd = 5; online = true }) ∷ replicate 19 none;
  clients_count = 1;
  sent = (5, codes "add:no_enemy") ∷ [];
  closed = [];
}

abbrev bob_in : Server
bob_in = record {
  clients =
      some (record { name = codes "ann"; fd = 5; online = true })
      ∷ some (record { name = codes "bob"; fd = 6; online = true })
      ∷ replicate 18 none;
  clients_count = 2;
  sent = (5, codes "add:no_enemy") ∷ (6, codes "add:O") ∷ (5, codes "add:X") ∷ [];
  closed = [];
}

abbrev cid_in : Server
cid_in = record {
  clients =
      some (record { name = codes "ann"; fd = 5; online = true })
      ∷ some (record { name = codes "bob"; fd = 6; online = true })
      ∷ some (record { name = codes "cid"; fd = 7; online = true })
      ∷ replicate 17 none;
  clients_count = 3;
  sent =
      (5, codes "add:no_enemy")
      ∷ (6, codes "add:O")
      ∷ (5, codes "add:X")
      ∷ (7, codes "add:no_enemy")
      ∷ [];
  closed = [];
}

ann_comes : handle 0 5 (codes "add: :ann") start ≡ some ann_in
unfolding handle split_request obey add_client choose_slot free_seat first_null first_named
    answer_add str_eq strtok
ann_comes = refl

bob_comes : handle 0 6 (codes "add: :bob") ann_in ≡ some bob_in
unfolding handle split_request obey add_client choose_slot free_seat first_null first_named
    answer_add str_eq strtok
bob_comes = refl

cid_comes : handle 0 7 (codes "add: :cid") bob_in ≡ some cid_in
unfolding handle split_request obey add_client choose_slot free_seat first_null first_named
    answer_add str_eq strtok
cid_comes = refl

ann_in-IsServer : IsServer ann_in
ann_in-IsServer =
    handle-IsServer 0 5 (codes "add: :ann") start {s' = ann_in} start-IsServer ann_comes

bob_in-IsServer : IsServer bob_in
bob_in-IsServer =
    handle-IsServer 0 6 (codes "add: :bob") ann_in {s' = bob_in} ann_in-IsServer bob_comes

cid_in-IsServer : IsServer cid_in
cid_in-IsServer =
    handle-IsServer 0 7 (codes "add: :cid") bob_in {s' = cid_in} bob_in-IsServer cid_comes

handle-IsServer_example : IsServer bob_in
handle-IsServer_example =
    handle-IsServer 0 6 (codes "add: :bob") ann_in {s' = bob_in} ann_in-IsServer bob_comes

add_client-decides_example :
    ((k : ℕ) × (s' : Server) × (add_client (codes "cid") 7 bob_in ≡ (some k, s'))
      × Added (codes "cid") 7 bob_in k s')
    ⊎ ((add_client (codes "cid") 7 bob_in ≡ (none, bob_in))
        × (((j : ℕ) × Named (codes "cid") bob_in.clients j)
            ⊎ ((j : ℕ) → get_elem? bob_in.clients j ≢ some none)))
add_client-decides_example = add_client-decides (codes "cid") 7 bob_in bob_in-IsServer

remove_client-Removed_example :
    (s : Server) × (remove_client (codes "bob") cid_in ≡ some s) × Removed cid_in 1 s
remove_client-Removed_example =
    remove_client-Removed (codes "bob") 1 cid_in cid_in-IsServer
      (record { name = codes "bob"; fd = 6; online = true }, refl, refl)

ping_round-Pinged_example : (s : Server) × (ping_round cid_in ≡ some s) × Pinged cid_in s
ping_round-Pinged_example = ping_round-Pinged cid_in cid_in-IsServer

bob_in-Taken : (j : ℕ) → j < 2 → Taken bob_in.clients j
bob_in-Taken zero h = (record { name = codes "ann"; fd = 5; online = true }, refl)
bob_in-Taken (suc zero) h = (record { name = codes "bob"; fd = 6; online = true }, refl)
bob_in-Taken (suc (suc j)) h = absurd (omega arith)

first_pair_leaves_example :
    (s : Server) × (remove_client (codes "bob") cid_in ≡ some s)
    × (check_messages 3 4 (λ i. i == 2) (λ fd. fd + 10) s ≡ none)
first_pair_leaves_example =
    first_pair_leaves 3 4 (λ i. i == 2) (λ fd. fd + 10) (codes "bob") 1 2 cid_in cid_in-IsServer
      (record { name = codes "bob"; fd = 6; online = true }, refl, refl) (omega arith) (omega arith)
      (record { name = codes "cid"; fd = 7; online = true }, refl)

-- Two datagram players.
abbrev datagrams : DatagramServer
datagrams = record {
  clients =
      some (record { name = codes "ann"; addr = 40; fd = 3; online = true })
      ∷ some (record { name = codes "bob"; addr = 41; fd = 3; online = true })
      ∷ replicate 18 none;
  clients_count = 2;
  sent = [];
}

handle-table_example :
    table_result (handle 1 3 (codes "quit: :bob") (stream datagrams))
    ≡ stream_result (handle_datagram 1 41 3 (codes "quit: :bob") datagrams)
handle-table_example = handle-table 1 41 3 (codes "quit: :bob") datagrams

-- The rival of the player who leaves is told.
quit_run :
    handle_datagram 1 41 3 (codes "quit: :bob") datagrams
    ≡ some (record {
      clients = replicate 20 none;
      clients_count = 0;
      sent = (3, 40, codes "quit: ") ∷ [];
    })
unfolding handle_datagram quit_datagram remove_datagram_client drop_rival split_request strtok
    str_eq last_named
quit_run = refl
