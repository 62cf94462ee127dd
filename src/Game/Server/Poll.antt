-- ===== src/Game/Server/Poll.antt =====
-- `check_messages` of cw10/zad1/server.c: the sockets that it polls, and the one it hands back.
use operating_systems_course.Common.{
  ℕ, zero, suc, ◌+◌, ◌≤◌, ◌<◌, ◌≡◌, refl, ◌≢◌, Bool, ◌||◌, List, [], ◌∷◌, Option, none, some, arith,
  get_elem?, ◌∙◌, ◌==◌, if◌then◌else◌, ℕ_discrete,
}
use operating_systems_course.Common.Bytes.{Bytes}
use operating_systems_course.Game.Server.{Slots, Server, get_opponent, occupied, remove_client}
use operating_systems_course.Game.Server.Search.{Named}
use operating_systems_course.Game.Server.Table.{IsServer}
use operating_systems_course.Game.Server.Remove.{remove_client-Removed}
use operating_systems_course.Game.Server.Add.{Taken}

-- `fds[i + 2].fd = clients[i]->fd` for `rounds` slots from `i` on; `none` is a null pointer.
fds_from : ℕ → ℕ → Slots → Option (List ℕ)
fds_from zero i slots = some []
fds_from (suc rounds) i slots = elim (get_elem? slots i) [
  | some (some p) ↦ elim (fds_from rounds (i + 1) slots) [
    | none ↦ none
    | some fds ↦ some (p.fd ∷ fds)
  ]
  | some none ↦ none
  | none ↦ none
]

-- The first descriptor with input; `ready` is what `poll` reports, by position. It is 0 if none has.
first_ready : (ℕ → Bool) → ℕ → List ℕ → ℕ
first_ready ready i [] = 0
first_ready ready i (fd ∷ rest) =
    let more = first_ready ready (i + 1) rest in if ready i then fd else more

module _ (local_socket network_socket : ℕ) (ready : ℕ → Bool) (accept : ℕ → ℕ) where
  answer : Option (List ℕ) → Option ℕ
  answer none = none
  answer (some fds) =
      let result = first_ready ready 0 (local_socket ∷ network_socket ∷ fds) in
      some
        (if (result == local_socket) || (result == network_socket) then accept result else result)

  -- `check_messages`: `accept` gives the socket of a new connection.
  unfoldable pub check_messages : Server → Option ℕ
  unfolding answer fds_from first_ready
  check_messages s = answer (fds_from s.clients_count 0 s.clients)

fds_from-some :
    (rounds i : ℕ) (slots : Slots)
    → ((j : ℕ) → i ≤ j → j < i + rounds → Taken slots j)
    → (fds : List ℕ) × (fds_from rounds i slots ≡ some fds)
unfolding fds_from
fds_from-some zero i slots all = ([], refl)
fds_from-some (suc rounds) i slots all =
    let (p, e) = all i (omega arith) (omega arith) in
    let (fds, more) =
      fds_from-some rounds (i + 1) slots (λ j h k. all j (omega arith) (omega arith)) in
    (p.fd ∷ fds, rw (e, fds_from) (rw (more, fds_from)))

fds_from-none :
    (rounds i j : ℕ) (slots : Slots)
    → i ≤ j
    → j < i + rounds
    → get_elem? slots j ≡ some none
    → fds_from rounds i slots ≡ none
unfolding fds_from
fds_from-none zero i j slots h k e = absurd (omega arith)
fds_from-none (suc rounds) i j slots h k e = elim (ℕ_discrete i j) [
  | yes here ↦ ground (arith, e)
  | no before ↦ ground (arith, fds_from-none rounds (i + 1) j slots)
]

-- While the first `clients_count` slots are all taken, the poll hands back a socket.
pub check_messages-some :
    (local_socket network_socket : ℕ) (ready : ℕ → Bool) (accept : ℕ → ℕ) (s : Server)
    → ((j : ℕ) → j < s.clients_count → Taken s.clients j)
    → check_messages local_socket network_socket ready accept s ≢ none
unfolding check_messages
check_messages-some local_socket network_socket ready accept s all h =
    let (fds, e) = fds_from-some s.clients_count 0 s.clients (λ j h k. all j (omega arith)) in
    ground (arith, e)

-- A free slot below `clients_count` makes `check_messages` follow a null pointer.
pub check_messages-none :
    (local_socket network_socket : ℕ) (ready : ℕ → Bool) (accept : ℕ → ℕ) (j : ℕ) (s : Server)
    → j < s.clients_count
    → get_elem? s.clients j ≡ some none
    → check_messages local_socket network_socket ready accept s ≡ none
unfolding check_messages
check_messages-none local_socket network_socket ready accept j s h e =
    rw (fds_from-none s.clients_count 0 j s.clients (omega arith) (omega arith) e, answer) refl

occupied_of_Taken : (xs : Slots) (j : ℕ) → Taken xs j → 0 < occupied xs
occupied_of_Taken [] j (p, e) = ground arith
occupied_of_Taken (none ∷ xs) zero (p, e) = ground arith
occupied_of_Taken (some q ∷ xs) zero (p, e) = omega arith
occupied_of_Taken (none ∷ xs) (suc j) t = occupied_of_Taken xs j t
occupied_of_Taken (some q ∷ xs) (suc j) t = omega arith

-- When a player of the first pair leaves while a third player `k` is there, the next
-- `check_messages` follows a null pointer: it reads slot 0, which is free now.
pub first_pair_leaves :
    (local_socket network_socket : ℕ) (ready : ℕ → Bool) (accept : ℕ → ℕ) (name : Bytes) (i k : ℕ)
    (s : Server)
    → IsServer s
    → Named name s.clients i
    → i < 2
    → 2 ≤ k
    → Taken s.clients k
    → (s' : Server) × (remove_client name s ≡ some s')
      × (check_messages local_socket network_socket ready accept s' ≡ none)
first_pair_leaves local_socket network_socket ready accept name i k s v named low high (p, taken) =
    let (s', e, r) = remove_client-Removed name i s v named in
    let third = r.others k (λ h. omega arith) (λ h. ground (arith, h)) ∙ taken in
    let some_left = occupied_of_Taken s'.clients k (p, third) in
    (
      s',
      e,
      check_messages-none local_socket network_socket ready accept 0 s'
          (omega (arith, r.valid.counted, some_left))
          (slot_zero i s'.clients low r.gone r.opponent_gone),
    )
  where
    slot_zero :
        (i : ℕ) (xs : Slots)
        → i < 2
        → get_elem? xs i ≡ some none
        → get_elem? xs (get_opponent i) ≡ some none
        → get_elem? xs 0 ≡ some none
    slot_zero zero xs low g h = g
    slot_zero (suc zero) xs low g h = h
    slot_zero (suc (suc i)) xs low g h = absurd (omega arith)
