-- ===== src/Game/Server.antt =====
-- The server of cw10/zad1/server.c. `none` stands for what C leaves undefined: a null pointer that
-- is followed, or an index outside `clients`. Each handler runs with the mutex held.
mod Seats
pub mod Search
pub mod Table
pub mod Add
pub mod Remove
pub mod Ping
pub mod Poll
pub mod Request
pub mod Handle
unfoldable pub use Seats.*
use operating_systems_course.Common.{
  ℕ, zero, suc, ◌+◌, ◌-◌, ◌%◌, Bool, true, false, List, [], ◌∷◌, ◌++◌, Option, none, some,
  get_elem?, set, replicate, ltb, ◌==◌, if◌then◌else◌,
}
use operating_systems_course.Common.Bytes.{Bytes, codes, str_eq}
use operating_systems_course.Common.Decimal.{show, atoi}
use operating_systems_course.Common.Strtok.{strtok}

-- The globals, and what has gone out: the messages by socket, and the sockets closed.
pub record Server : Type 0 where
  pub clients : Slots
  pub clients_count : ℕ
  pub sent : List (ℕ × Bytes)
  pub closed : List ℕ

abbrev pub start : Server
start = record { clients = replicate max_players none; clients_count = 0; sent = []; closed = [] }

abbrev pub send : ℕ → Bytes → Server → Server
send fd m s = record s { sent = s.sent ++ ((fd, m) ∷ []) }

-- A player is put in a slot and counted.
abbrev pub seat : ℕ → Bytes → ℕ → Server → Server
seat index name fd s = record s {
  clients = set s.clients index (some (record { name = name; fd = fd; online = true }));
  clients_count = s.clients_count + 1;
}

-- The slot for a new player: the seat beside a lone player before any free slot.
unfoldable pub choose_slot : Slots → Option ℕ
choose_slot slots = elim (free_seat 0 slots) [ some index ↦ some index | none ↦ first_null 0 slots ]

-- `add_client`: the new player's index, and `none` (C's -1) where the name is taken or no slot is free.
unfoldable pub add_client : Bytes → ℕ → Server → Option ℕ × Server
add_client name fd s = elim (first_named name 0 s.clients) [
  | some _ ↦ (none, s)
  | none ↦ elim (choose_slot s.clients) [
    | none ↦ (none, s)
    | some index ↦ (some index, seat index name fd s)
  ]
]

-- A slot is freed, and counted off.
abbrev pub vacate : ℕ → Server → Server
vacate index s = record s {
  clients = set s.clients index none;
  clients_count = s.clients_count - 1;
}

-- The second part of `remove_client`, at the slot of the opponent.
unfoldable pub drop_opponent : ℕ → Server → Option (Option Player) → Option Server
drop_opponent opponent s none = none
drop_opponent opponent s (some none) = some s
drop_opponent opponent s (some (some _)) = some (vacate opponent s)

unfoldable pub remove_at : Option ℕ → Server → Option Server
unfolding drop_opponent
remove_at none s = none
remove_at (some index) s =
    let opponent = get_opponent index in
    let s' = vacate index s in drop_opponent opponent s' (get_elem? s'.clients opponent)

-- `remove_client`: the player of that name leaves, and its opponent too. With no such player C
-- reads `clients[-1]`.
unfoldable pub remove_client : Bytes → Server → Option Server
unfolding remove_at
remove_client name s = remove_at (last_named name 0 none s.clients) s

-- `send(clients[i]->fd, …)`
unfoldable pub send_to : ℕ → Bytes → Server → Option Server
send_to i m s = elim (get_elem? s.clients i) [
  | some (some p) ↦ some (send p.fd m s)
  | some none ↦ none
  | none ↦ none
]

-- Two messages, the second if the first could go out.
unfoldable pub then_to : ℕ → Bytes → Option Server → Option Server
unfolding send_to
then_to i m none = none
then_to i m (some s) = send_to i m s

-- The answer to `add`. `draw` is `rand() % 100`: if it is even the new player has O.
unfoldable pub answer_add : ℕ → ℕ → Option ℕ × Server → Option Server
unfolding then_to send_to
answer_add draw fd (none, s) =
    let s' = send fd (codes "add:name_taken") s in
    some (record s' { closed = s'.closed ++ (fd ∷ []) })
answer_add draw fd (some index, s) =
    let opponent = get_opponent index in
    let first = if draw % 2 == 0 then index else opponent in
    let second = if draw % 2 == 0 then opponent else index in
    if index % 2 == 0
    then some (send fd (codes "add:no_enemy") s)
    else then_to second (codes "add:X") (send_to first (codes "add:O") s)

-- The answer to `move`: the position goes to the opponent.
unfoldable pub relay_move : Bytes → Option ℕ → Server → Option Server
unfolding send_to
relay_move arg none s = none
relay_move arg (some player) s = send_to (get_opponent player) (codes "move:" ++ show (atoi arg)) s

-- The answer to `pong`.
unfoldable pub set_online : Option ℕ → Server → Option Server
set_online none s = some s
set_online (some i) s = elim (get_elem? s.clients i) [
  | some (some p) ↦
      some (record s { clients = set s.clients i (some (record p { online = true })) })
  | some none ↦ none
  | none ↦ none
]
