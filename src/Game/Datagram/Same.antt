-- ===== src/Game/Datagram/Same.antt =====
-- The tables of cw10/zad1 and cw10/zad2 change alike.
use operating_systems_course.Common.{
  ℕ, zero, suc, ◌≡◌, refl, ap, List, [], ◌∷◌, Option, none, some, map, get_elem?, set, Option-cases,
  inl, inr,
}
use operating_systems_course.Common.Bytes.{Bytes}
use operating_systems_course.Game.Server.{
  Player, first_named, last_named, get_opponent, choose_slot, Server, add_client, remove_client,
  vacate, remove_at, drop_opponent,
}
use operating_systems_course.Game.Datagram.Request.{stream}
use operating_systems_course.Game.Datagram.{
  DatagramClient, DatagramServer, without_addr, players, add_datagram_client, vacate_client,
  drop_rival, remove_datagram_client,
}

pub map-set :
    (xs : List (Option DatagramClient)) (i : ℕ) (v : Option DatagramClient)
    → map without_addr (set xs i v) ≡ set (map without_addr xs) i (without_addr v)
map-set [] i v = refl
map-set (x ∷ xs) zero v = refl
map-set (x ∷ xs) (suc i) v = ap (λ ys. without_addr x ∷ ys) (map-set xs i v)

-- A slot of the table, and then without its address.
unfoldable pub slot_without_addr : Option (Option DatagramClient) → Option (Option Player)
slot_without_addr none = none
slot_without_addr (some c) = some (without_addr c)

pub get_elem?-map :
    (xs : List (Option DatagramClient)) (i : ℕ)
    → get_elem? (map without_addr xs) i ≡ slot_without_addr (get_elem? xs i)
unfolding slot_without_addr
get_elem?-map [] i = refl
get_elem?-map (x ∷ xs) zero = refl
get_elem?-map (x ∷ xs) (suc i) = get_elem?-map xs i

abbrev pub stream_result : Option DatagramServer → Option Server
stream_result none = none
stream_result (some s) = some (stream s)

vacate_client-stream :
    (i : ℕ) (s : DatagramServer) → stream (vacate_client i s) ≡ vacate i (stream s)
vacate_client-stream i s = rw (map-set s.clients i none) refl

drop_rival-stream :
    (i : ℕ) (s : DatagramServer) (slot : Option (Option DatagramClient))
    → stream_result (drop_rival i s slot) ≡ drop_opponent i (stream s) (slot_without_addr slot)
unfolding drop_rival drop_opponent slot_without_addr
drop_rival-stream i s none = refl
drop_rival-stream i s (some none) = refl
drop_rival-stream i s (some (some c)) = ap some (vacate_client-stream i s)

pub remove_datagram_client-stream :
    (name : Bytes) (s : DatagramServer)
    → stream_result (remove_datagram_client name s) ≡ remove_client name (stream s)
unfolding remove_datagram_client remove_client remove_at
remove_datagram_client-stream name s = elim (Option-cases (last_named name 0 none (players s))) [
  | inl e ↦ rw (remove_datagram_client, remove_client, e) refl
  | inr (i, e) ↦
      rw
        (
          remove_datagram_client,
          remove_client,
          e,
          ← map-set s.clients i none,
          get_elem?-map (set s.clients i none) (get_opponent i),
        )
        (drop_rival-stream (get_opponent i) (vacate_client i s)
          (get_elem? (set s.clients i none) (get_opponent i)))
]

pub add_datagram_client-stream :
    (name : Bytes) (addr fd : ℕ) (s : DatagramServer)
    → let (index, s') = add_datagram_client name addr fd s in
      (index, stream s') ≡ add_client name fd (stream s)
unfolding add_datagram_client add_client
add_datagram_client-stream name addr fd s = elim (Option-cases (first_named name 0 (players s))) [
  | inr (j, e) ↦ rw (add_datagram_client, add_client, e) refl
  | inl e ↦ elim (Option-cases (choose_slot (players s))) [
    | inl f ↦ rw (add_datagram_client, add_client, e, f) refl
    | inr (i, f) ↦ rw (add_datagram_client, add_client, e, f, map-set s.clients i _) refl
  ]
]
