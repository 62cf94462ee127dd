-- ===== src/Game/Server/Seats.antt =====
-- The table `clients` of cw10/zad1/server.c, and the loops that search it. An index that C gives
-- as -1 is `none`.
use operating_systems_course.Common.{
  ℕ, suc, ◌+◌, ◌-◌, ◌%◌, Bool, List, [], ◌∷◌, Option, none, some, ◌==◌, if◌then◌else◌,
}
use operating_systems_course.Common.Bytes.{Bytes, str_eq}

-- `client`; `fd` is the socket of its connection.
pub record Player : Type 0 where
  pub name : Bytes
  pub fd : ℕ
  pub online : Bool

abbrev pub Slots : Type 0
Slots = List (Option Player)

abbrev pub max_players : ℕ
max_players = 20

-- The loop of `get_by_name`, and the first loop of `add_client`, from slot `i` on.
unfoldable pub first_named : Bytes → ℕ → Slots → Option ℕ
first_named name i [] = none
first_named name i (none ∷ rest) = first_named name (i + 1) rest
first_named name i (some p ∷ rest) =
    let later = first_named name (i + 1) rest in if str_eq p.name name then some i else later

-- The loop of `remove_client`: the last match is kept.
unfoldable pub last_named : Bytes → ℕ → Option ℕ → Slots → Option ℕ
last_named name i index [] = index
last_named name i index (none ∷ rest) = last_named name (i + 1) index rest
last_named name i index (some p ∷ rest) =
    last_named name (i + 1) (if str_eq p.name name then some i else index) rest

-- `clients[i] != NULL && clients[i + 1] == NULL` for even `i`: the free seat beside a lone player.
unfoldable pub free_seat : ℕ → Slots → Option ℕ
free_seat i [] = none
free_seat i (_ ∷ []) = none
free_seat i (some _ ∷ none ∷ rest) = some (i + 1)
free_seat i (some _ ∷ some _ ∷ rest) = free_seat (i + 2) rest
free_seat i (none ∷ _ ∷ rest) = free_seat (i + 2) rest

-- The first free slot.
unfoldable pub first_null : ℕ → Slots → Option ℕ
first_null i [] = none
first_null i (none ∷ rest) = some i
first_null i (some _ ∷ rest) = first_null (i + 1) rest

-- `get_opponent`
abbrev pub get_opponent : ℕ → ℕ
get_opponent index = if index % 2 == 0 then index + 1 else index - 1

-- How many slots hold a player.
abbrev pub occupied : Slots → ℕ
occupied [] = 0
occupied (none ∷ rest) = occupied rest
occupied (some _ ∷ rest) = suc (occupied rest)
