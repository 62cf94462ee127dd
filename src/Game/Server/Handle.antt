-- ===== src/Game/Server/Handle.antt =====
-- Every message that cw10/zad1/server.c handles keeps its table valid.
use operating_systems_course.Common.{
  ℕ, zero, suc, ◌≡◌, refl, ◌∙◌, ap, sym, ◌⊎◌, inl, inr, true, [], ◌∷◌, Option, none, some, arith,
  get_elem?, set, length-set, Option-cases, Bool-cases,
}
use operating_systems_course.Common.Bytes.{Bytes, codes, str_eq}
use operating_systems_course.Game.Server.{
  Player, Slots, first_named, occupied, Server, remove_client, send_to, relay_move, set_online,
  get_opponent,
}
use operating_systems_course.Game.Server.Search.{first_named-Found, first_named-none}
use operating_systems_course.Game.Server.Table.{IsTable, IsServer, get_elem?-seated}
use operating_systems_course.Game.Server.Add.{answer_add-IsServer}
use operating_systems_course.Game.Server.Remove.{remove_client-Removed, remove_client-none}
use operating_systems_course.Game.Server.Request.{
  Request, split_request, find_player, add_named, move_named, quit_named, pong_named, obey, handle,
}

-- Sending a message leaves the table alone.
record SameTable (s s' : Server) : Type 0 where
  clients : s'.clients ≡ s.clients
  count : s'.clients_count ≡ s.clients_count

send_to-SameTable :
    (i : ℕ) (m : Bytes) (s : Server) {s' : Server} → send_to i m s ≡ some s' → SameTable s s'
unfolding send_to
send_to-SameTable i m s e = ground arith

SameTable-IsServer : (s s' : Server) → SameTable s s' → IsServer s → IsServer s'
SameTable-IsServer s s' same v = rw (same.clients, same.count) v

relay_move-IsServer :
    (arg : Bytes) (o : Option ℕ) (s : Server) {s' : Server}
    → IsServer s
    → relay_move arg o s ≡ some s'
    → IsServer s'
unfolding relay_move
relay_move-IsServer arg none s v e = ground arith
relay_move-IsServer arg (some i) s {s'} v e =
    SameTable-IsServer s s' (send_to-SameTable (get_opponent i) _ s e) v

remove_client-IsServer :
    (name : Bytes) (s : Server) {s' : Server}
    → IsServer s
    → remove_client name s ≡ some s'
    → IsServer s'
remove_client-IsServer name s {s'} v e = elim (Option-cases (first_named name 0 s.clients)) [
  | inr (k, found) ↦
      let (j, at, named) = first_named-Found name 0 s.clients found in
      let (t, done, r) = remove_client-Removed name j s v named in
      let same : t ≡ s' = ground (arith, done, e) in rw (← same) r.valid
  | inl absent ↦
      let undefined = remove_client-none name s (first_named-none name 0 s.clients absent) in
      ground (arith, undefined, e)
]

-- Marking a player online changes nothing that the invariant speaks of.
occupied-mark :
    (xs : Slots) (i : ℕ) (p : Player) {q : Player}
    → get_elem? xs i ≡ some (some q)
    → occupied (set xs i (some p)) ≡ occupied xs
occupied-mark [] i p e = refl
occupied-mark (none ∷ xs) zero p e = ground arith
occupied-mark (some r ∷ xs) zero p e = refl
occupied-mark (none ∷ xs) (suc i) p e = occupied-mark xs i p e
occupied-mark (some r ∷ xs) (suc i) p e = ap suc (occupied-mark xs i p e)

mark-IsServer :
    (i : ℕ) (p : Player) (s : Server)
    → IsServer s
    → get_elem? s.clients i ≡ some (some p)
    → IsTable (set s.clients i (some (record p { online = true }))) s.clients_count
mark-IsServer i p s v e = record {
  twenty = length-set s.clients i _ ∙ v.twenty;
  counted = v.counted ∙ sym (occupied-mark s.clients i (record p { online = true }) e);
  distinct = λ j k q r g h n.
      let (q', g', eq) = old j q g in
      let (r', h', er) = old k r h in v.distinct j k q' r' g' h' (ground (arith, eq, er));
}
  where
    old :
        (j : ℕ) (q : Player)
        → get_elem? (set s.clients i (some (record p { online = true }))) j ≡ some (some q)
        → (q' : Player) × (get_elem? s.clients j ≡ some (some q')) × (q'.name ≡ q.name)
    old j q g = elim (get_elem?-seated s.clients i j _ g) [
      | inl (at, is) ↦ (p, rw at e, ground arith)
      | inr (ne, before) ↦ (q, before, refl)
    ]

set_online-IsServer :
    (o : Option ℕ) (s : Server) {s' : Server} → IsServer s → set_online o s ≡ some s' → IsServer s'
unfolding set_online
set_online-IsServer none s v e = ground arith
set_online-IsServer (some i) s {s'} v e = elim (Slot-cases (get_elem? s.clients i)) [
  | inl (p, there) ↦
      let same : s' ≡ record s { clients = set s.clients i (some (record p { online = true })) } =
        ground (arith, there) in
      rw same (mark-IsServer i p s v there)
  | inr gone ↦ absurd (gone (ground (arith, e)))
]
  where
    Slot-cases :
        (o : Option (Option Player))
        → ((p : Player) × (o ≡ some (some p))) ⊎ (¬ ((p : Player) × (o ≡ some (some p))))
    Slot-cases none = inr (λ (p, e). ground arith)
    Slot-cases (some none) = inr (λ (p, e). ground arith)
    Slot-cases (some (some p)) = inl (p, refl)

pong_named-IsServer :
    (name : Option Bytes) (s : Server) {s' : Server}
    → IsServer s
    → pong_named name s ≡ some s'
    → IsServer s'
unfolding pong_named
pong_named-IsServer name s {s'} v e = elim (Option-cases (find_player name s)) [
  | inl undefined ↦ ground (arith, undefined)
  | inr (o, found) ↦ set_online-IsServer o s {s' = s'} v (ground (arith, found))
]

move_named-IsServer :
    (arg name : Option Bytes) (s : Server) {s' : Server}
    → IsServer s
    → move_named arg name s ≡ some s'
    → IsServer s'
unfolding move_named
move_named-IsServer none name s v e = ground arith
move_named-IsServer (some arg) name s {s'} v e = elim (Option-cases (find_player name s)) [
  | inl undefined ↦ ground (arith, undefined)
  | inr (o, found) ↦ relay_move-IsServer arg o s {s' = s'} v (ground (arith, found))
]

quit_named-IsServer :
    (name : Option Bytes) (s : Server) {s' : Server}
    → IsServer s
    → quit_named name s ≡ some s'
    → IsServer s'
unfolding quit_named
quit_named-IsServer none s v e = ground arith
quit_named-IsServer (some name) s v e = remove_client-IsServer name s v e

add_named-IsServer :
    (draw fd : ℕ) (name : Option Bytes) (s : Server) {s' : Server}
    → IsServer s
    → add_named draw fd name s ≡ some s'
    → IsServer s'
unfolding add_named
add_named-IsServer draw fd none s v e = ground arith
add_named-IsServer draw fd (some name) s {s'} v e =
    let (t, done, valid) = answer_add-IsServer draw fd name s v in
    let same : t ≡ s' = ground (arith, done, e) in rw (← same) valid

obey-IsServer :
    (draw fd : ℕ) (r : Request) (s : Server) {s' : Server}
    → IsServer s
    → obey draw fd r s ≡ some s'
    → IsServer s'
unfolding obey
obey-IsServer draw fd r s v e = elim (Bool-cases (str_eq r.command (codes "add"))) [
  | inl is_add ↦ add_named-IsServer draw fd r.name s v (rw is_add at e)
  | inr not_add ↦ elim (Bool-cases (str_eq r.command (codes "move"))) [
    | inl is_move ↦ move_named-IsServer r.arg r.name s v (rw (not_add, is_move) at e)
    | inr not_move ↦ elim (Bool-cases (str_eq r.command (codes "quit"))) [
      | inl is_quit ↦ quit_named-IsServer r.name s v (rw (not_add, not_move, is_quit) at e)
      | inr not_quit ↦ elim (Bool-cases (str_eq r.command (codes "pong"))) [
        | inl is_pong ↦
            pong_named-IsServer r.name s v (rw (not_add, not_move, not_quit, is_pong) at e)
        | inr other ↦ ground (arith, not_add, not_move, not_quit, other)
      ]
    ]
  ]
]

-- Whatever message arrives, a server that goes on has a valid table.
pub handle-IsServer :
    (draw fd : ℕ) (message : Bytes) (s : Server) {s' : Server}
    → IsServer s
    → handle draw fd message s ≡ some s'
    → IsServer s'
unfolding handle
handle-IsServer draw fd message s {s'} v e = elim (Option-cases (split_request message)) [
  | inl nothing ↦ ground (arith, nothing)
  | inr (r, split) ↦ obey-IsServer draw fd r s {s' = s'} v (ground (arith, split))
]
