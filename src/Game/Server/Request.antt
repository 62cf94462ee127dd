-- ===== src/Game/Server/Request.antt =====
-- The body of the loop of `main` in cw10/zad1/server.c: one message is split, and its command obeyed.
use operating_systems_course.Common.{ℕ, zero, suc, Option, none, some, if◌then◌else◌}
use operating_systems_course.Common.Bytes.{Bytes, codes, str_eq}
use operating_systems_course.Common.Strtok.{strtok}
use operating_systems_course.Game.Server.{
  first_named, occupied, Server, add_client, remove_client, answer_add, relay_move, set_online,
}

-- The three tokens of a message.
pub record Request : Type 0 where
  pub command : Bytes
  pub arg : Option Bytes
  pub name : Option Bytes

next_token : Option (Bytes × Bytes) → Option (Bytes × Bytes)
next_token none = none
next_token (some (_, rest)) = strtok b':' rest

token : Option (Bytes × Bytes) → Option Bytes
token none = none
token (some (t, _)) = some t

-- `strtok(buffer, ":")` and two calls of `strtok(NULL, ":")`.
unfoldable pub split_request : Bytes → Option Request
unfolding next_token token
split_request message = elim (strtok b':' message) [
  | none ↦ none
  | some first ↦
      let second = next_token (some first) in
      some (record { command = first.0; arg = token second; name = token (next_token second) })
]

nobody_if_empty : ℕ → Option (Option ℕ)
nobody_if_empty zero = some none
nobody_if_empty (suc _) = none

-- `get_by_name(name)`: comparing with a missing name is undefined once a player is there.
unfoldable pub find_player : Option Bytes → Server → Option (Option ℕ)
unfolding nobody_if_empty
find_player none s = nobody_if_empty (occupied s.clients)
find_player (some name) s = some (first_named name 0 s.clients)

unfoldable pub add_named : ℕ → ℕ → Option Bytes → Server → Option Server
add_named draw fd none s = none
add_named draw fd (some name) s = answer_add draw fd (add_client name fd s)

unfoldable pub move_named : Option Bytes → Option Bytes → Server → Option Server
unfolding find_player
move_named none name s = none
move_named (some arg) name s = elim (find_player name s) [
  | none ↦ none
  | some i ↦ relay_move arg i s
]

unfoldable pub quit_named : Option Bytes → Server → Option Server
quit_named none s = none
quit_named (some name) s = remove_client name s

unfoldable pub pong_named : Option Bytes → Server → Option Server
unfolding find_player
pong_named name s = elim (find_player name s) [ none ↦ none | some i ↦ set_online i s ]

-- The branches of `main`; `draw` is `rand() % 100`, and `fd` the socket of the message.
unfoldable pub obey : ℕ → ℕ → Request → Server → Option Server
unfolding add_named move_named quit_named pong_named
obey draw fd r s =
    if str_eq r.command (codes "add")
    then add_named draw fd r.name s
    else if str_eq r.command (codes "move")
    then move_named r.arg r.name s
    else if str_eq r.command (codes "quit")
    then quit_named r.name s
    else if str_eq r.command (codes "pong")
    then pong_named r.name s
    else some s

unfoldable pub handle : ℕ → ℕ → Bytes → Server → Option Server
handle draw fd message s = elim (split_request message) [ none ↦ none | some r ↦ obey draw fd r s ]
