-- ===== src/Game/Datagram.antt =====
-- The server of cw10/zad2/server.c, over datagrams: the table of cw10/zad1, where a player has an
-- address beside the socket, and the rival of a player who leaves is told. The searches of the table
-- look at names and free slots only, and are those of cw10/zad1.
pub mod Request
pub mod Same
pub mod Handle
use operating_systems_course.Common.{
  ℕ, zero, suc, ◌+◌, ◌-◌, ◌%◌, Bool, true, false, List, [], ◌∷◌, ◌++◌, Option, none, some, map,
  get_elem?, set, ◌==◌, if◌then◌else◌,
}
use operating_systems_course.Common.Bytes.{Bytes, codes}
use operating_systems_course.Common.Decimal.{show, atoi}
use operating_systems_course.Game.Server.{
  Player, Slots, max_players, first_named, last_named, get_opponent, choose_slot,
}

-- `client`
pub record DatagramClient : Type 0 where
  pub name : Bytes
  pub addr : ℕ
  pub fd : ℕ
  pub online : Bool

-- The globals, and what has gone out: the socket, the address and the text.
pub record DatagramServer : Type 0 where
  pub clients : List (Option DatagramClient)
  pub clients_count : ℕ
  pub sent : List (ℕ × ℕ × Bytes)

-- The slot as the searches see it.
abbrev pub without_addr : Option DatagramClient → Option Player
without_addr none = none
without_addr (some c) = some (record { name = c.name; fd = c.fd; online = c.online })

abbrev pub players : DatagramServer → Slots
players s = map without_addr s.clients

-- `sendto(clients[i]->fd, …, &clients[i]->addr, …)`
abbrev pub send_to_client : DatagramClient → Bytes → DatagramServer → DatagramServer
send_to_client c m s = record s { sent = s.sent ++ ((c.fd, c.addr, m) ∷ []) }

abbrev pub seat_client : ℕ → Bytes → ℕ → ℕ → DatagramServer → DatagramServer
seat_client index name addr fd s = record s {
  clients =
      set s.clients index (some (record { name = name; addr = addr; fd = fd; online = true }));
  clients_count = s.clients_count + 1;
}

-- `add_client`
unfoldable pub add_datagram_client : Bytes → ℕ → ℕ → DatagramServer → Option ℕ × DatagramServer
add_datagram_client name addr fd s = elim (first_named name 0 (players s)) [
  | some _ ↦ (none, s)
  | none ↦ elim (choose_slot (players s)) [
    | none ↦ (none, s)
    | some index ↦ (some index, seat_client index name addr fd s)
  ]
]

abbrev pub vacate_client : ℕ → DatagramServer → DatagramServer
vacate_client index s = record s {
  clients = set s.clients index none;
  clients_count = s.clients_count - 1;
}

-- The second part of `remove_client`: the rival is told, and removed.
unfoldable pub drop_rival :
    ℕ → DatagramServer → Option (Option DatagramClient) → Option DatagramServer
drop_rival rival s none = none
drop_rival rival s (some none) = some s
drop_rival rival s (some (some c)) =
    some (vacate_client rival (send_to_client c (codes "quit: ") s))

-- `remove_client`; with no such player C reads `clients[-1]`.
unfoldable pub remove_datagram_client : Bytes → DatagramServer → Option DatagramServer
unfolding drop_rival
remove_datagram_client name s = elim (last_named name 0 none (players s)) [
  | none ↦ none
  | some index ↦
      let s' = vacate_client index s in
      drop_rival (get_opponent index) s' (get_elem? s'.clients (get_opponent index))
]

-- The loops of `ping`: those who did not answer are removed, the others are asked.
unfoldable pub check_client :
    Option (Option DatagramClient) → DatagramServer → Option DatagramServer
check_client none s = none
check_client (some none) s = some s
check_client (some (some c)) s = if c.online then some s else remove_datagram_client c.name s

unfoldable pub remove_offline : ℕ → ℕ → DatagramServer → Option DatagramServer
unfolding check_client
remove_offline zero i s = some s
remove_offline (suc rounds) i s = elim (check_client (get_elem? s.clients i) s) [
  | none ↦ none
  | some s' ↦ remove_offline rounds (i + 1) s'
]

unfoldable pub ping_clients : List (Option DatagramClient) → DatagramServer → DatagramServer
ping_clients [] s = record s { clients = [] }
ping_clients (none ∷ rest) s =
    let s' = ping_clients rest s in record s' { clients = none ∷ s'.clients }
ping_clients (some c ∷ rest) s =
    let s' = ping_clients rest (send_to_client c (codes "ping: ") s) in
    record s' { clients = some (record c { online = false }) ∷ s'.clients }

-- One round of `ping`, the pause apart.
unfoldable pub ping_datagram_clients : DatagramServer → Option DatagramServer
unfolding remove_offline ping_clients
ping_datagram_clients s = elim (remove_offline max_players 0 s) [
  | none ↦ none
  | some s' ↦ some (ping_clients s'.clients s')
]

-- `check_messages`: one of the two sockets, or -1 as `none`; the flags are what `poll` reports.
unfoldable pub poll_sockets : ℕ → ℕ → Bool → Bool → Option ℕ
poll_sockets local_socket network_socket local_ready network_ready =
    if local_ready then some local_socket else if network_ready then some network_socket else none
