-- ===== src/Game/Datagram/Request.antt =====
-- The body of the loop of `main` in cw10/zad2/server.c. A message is split as in cw10/zad1; it came
-- from an address, to which the answer goes.
use operating_systems_course.Common.{
  ℕ, ◌%◌, true, [], ◌∷◌, ◌++◌, Option, none, some, get_elem?, set, ◌==◌, if◌then◌else◌,
}
use operating_systems_course.Common.Bytes.{Bytes, codes, str_eq}
use operating_systems_course.Common.Decimal.{show, atoi}
use operating_systems_course.Game.Server.{Server, get_opponent}
use operating_systems_course.Game.Server.Request.{Request, split_request, find_player}
use operating_systems_course.Game.Datagram.{
  DatagramServer, players, send_to_client, add_datagram_client, remove_datagram_client,
}

-- The server of cw10/zad1 with the same table.
abbrev pub stream : DatagramServer → Server
stream s = record { clients = players s; clients_count = s.clients_count; sent = []; closed = [] }

-- `sendto(clients[i]->fd, …)`
unfoldable pub send_datagram : ℕ → Bytes → DatagramServer → Option DatagramServer
send_datagram i m s = elim (get_elem? s.clients i) [
  | some (some c) ↦ some (send_to_client c m s)
  | some none ↦ none
  | none ↦ none
]

abbrev pub then_datagram : ℕ → Bytes → Option DatagramServer → Option DatagramServer
then_datagram i m none = none
then_datagram i m (some s) = send_datagram i m s

-- `sendto(socket_fd, …, &from_addr, …)`
abbrev pub send_back : ℕ → ℕ → Bytes → DatagramServer → DatagramServer
send_back addr fd m s = record s { sent = s.sent ++ ((fd, addr, m) ∷ []) }

-- The answer to `add`; `draw` is `rand() % 100`.
unfoldable pub answer_datagram_add : ℕ → ℕ → ℕ → Option ℕ × DatagramServer → Option DatagramServer
unfolding send_datagram
answer_datagram_add draw addr fd (none, s) = some (send_back addr fd (codes "add:name_taken") s)
answer_datagram_add draw addr fd (some index, s) =
    let opponent = get_opponent index in
    let first = if draw % 2 == 0 then index else opponent in
    let second = if draw % 2 == 0 then opponent else index in
    if index % 2 == 0
    then some (send_back addr fd (codes "add:no_enemy") s)
    else then_datagram second (codes "add:X") (send_datagram first (codes "add:O") s)

unfoldable pub relay_datagram : Bytes → Option ℕ → DatagramServer → Option DatagramServer
unfolding send_datagram
relay_datagram arg none s = none
relay_datagram arg (some player) s =
    send_datagram (get_opponent player) (codes "move:" ++ show (atoi arg)) s

unfoldable pub mark_online : Option ℕ → DatagramServer → Option DatagramServer
mark_online none s = some s
mark_online (some i) s = elim (get_elem? s.clients i) [
  | some (some c) ↦
      some (record s { clients = set s.clients i (some (record c { online = true })) })
  | some none ↦ none
  | none ↦ none
]

unfoldable pub add_datagram : ℕ → ℕ → ℕ → Option Bytes → DatagramServer → Option DatagramServer
add_datagram draw addr fd none s = none
add_datagram draw addr fd (some name) s =
    answer_datagram_add draw addr fd (add_datagram_client name addr fd s)

unfoldable pub move_datagram : Option Bytes → Option Bytes → DatagramServer → Option DatagramServer
move_datagram none name s = none
move_datagram (some arg) name s = elim (find_player name (stream s)) [
  | none ↦ none
  | some i ↦ relay_datagram arg i s
]

unfoldable pub quit_datagram : Option Bytes → DatagramServer → Option DatagramServer
quit_datagram none s = none
quit_datagram (some name) s = remove_datagram_client name s

unfoldable pub pong_datagram : Option Bytes → DatagramServer → Option DatagramServer
pong_datagram name s = elim (find_player name (stream s)) [ none ↦ none | some i ↦ mark_online i s ]

-- The branches of `main`: after one of them the others do not apply.
unfoldable pub obey_datagram : ℕ → ℕ → ℕ → Request → DatagramServer → Option DatagramServer
unfolding add_datagram move_datagram quit_datagram pong_datagram
obey_datagram draw addr fd r s =
    if str_eq r.command (codes "add")
    then add_datagram draw addr fd r.name s
    else if str_eq r.command (codes "move")
    then move_datagram r.arg r.name s
    else if str_eq r.command (codes "quit")
    then quit_datagram r.name s
    else if str_eq r.command (codes "pong")
    then pong_datagram r.name s
    else some s

unfoldable pub handle_datagram : ℕ → ℕ → ℕ → Bytes → DatagramServer → Option DatagramServer
unfolding obey_datagram
handle_datagram draw addr fd message s = elim (split_request message) [
  | none ↦ none
  | some r ↦ obey_datagram draw addr fd r s
]
