-- ===== src/Game/Datagram/Handle.antt =====
-- The servers of cw10/zad1 and cw10/zad2 do the same to their tables with a message.
use operating_systems_course.Common.{
  ℕ, ◌%◌, ◌≡◌, refl, ◌∙◌, ap, sym, ◌⊎◌, Bool, true, false, [], Option, none, some, get_elem?, ◌==◌,
  if◌then◌else◌, arith, Option-cases, inl, inr,
}
use operating_systems_course.Common.Bytes.{Bytes, codes, str_eq}
use operating_systems_course.Game.Server.{
  Server, send_to, then_to, answer_add, relay_move, set_online, get_opponent,
}
use operating_systems_course.Game.Server.Request.{
  Request, split_request, find_player, add_named, move_named, quit_named, pong_named, obey, handle,
}
use operating_systems_course.Game.Datagram.{
  DatagramServer, players, add_datagram_client, remove_datagram_client,
}
use operating_systems_course.Game.Datagram.Request.{
  stream, send_datagram, then_datagram, answer_datagram_add, relay_datagram, mark_online,
  add_datagram, move_datagram, quit_datagram, pong_datagram, obey_datagram, handle_datagram,
}
use operating_systems_course.Game.Datagram.Same.{
  stream_result, map-set, get_elem?-map, slot_without_addr, add_datagram_client-stream,
  remove_datagram_client-stream,
}

-- What has gone out is left aside.
abbrev pub table_of : Server → Server
table_of s = record s { sent = []; closed = [] }

abbrev pub table_result : Option Server → Option Server
table_result none = none
table_result (some s) = some (table_of s)

Slot-cases {ℓ} :
    {A : Type ℓ} (o : Option (Option A))
    → (o ≡ none) ⊎ ((o ≡ some none) ⊎ ((a : A) × (o ≡ some (some a))))
Slot-cases none = inl refl
Slot-cases (some none) = inr (inl refl)
Slot-cases (some (some a)) = inr (inr (a, refl))

-- Whether a message to a slot goes out depends on the table only.
send_to-table :
    (i : ℕ) (m : Bytes) (s : DatagramServer) (t : Server)
    → table_of t ≡ stream s
    → table_result (send_to i m t) ≡ stream_result (send_datagram i m s)
unfolding send_to send_datagram slot_without_addr
send_to-table i m s t e =
    let same : t.clients ≡ players s = ap (λ u. u.clients) e in
    let seen = ap (λ xs. get_elem? xs i) same ∙ get_elem?-map s.clients i in
    elim (Slot-cases (get_elem? s.clients i)) [
      | inl out ↦ ground (arith, out, seen)
      | inr (inl free) ↦ ground (arith, free, seen)
      | inr (inr (c, there)) ↦
          rw (send_to, send_datagram, there, seen ∙ ap slot_without_addr there) (ap some e)
    ]

then_to-table :
    (i : ℕ) (m : Bytes) (o : Option Server) (p : Option DatagramServer)
    → table_result o ≡ stream_result p
    → table_result (then_to i m o) ≡ stream_result (then_datagram i m p)
unfolding then_to
then_to-table i m none none e = refl
then_to-table i m none (some s) e = ground arith
then_to-table i m (some t) none e = ground arith
then_to-table i m (some t) (some s) e = send_to-table i m s t (ground (arith, e))

-- Each choice between two branches that do the same.
if-table :
    (b : Bool) (x y : Option Server) (x' y' : Option DatagramServer)
    → table_result x ≡ stream_result x'
    → table_result y ≡ stream_result y'
    → table_result (if b then x else y) ≡ stream_result (if b then x' else y')
if-table true x y x' y' e f = e
if-table false x y x' y' e f = f

answer_add-table :
    (draw addr fd : ℕ) (o : Option ℕ) (s : DatagramServer)
    → table_result (answer_add draw fd (o, stream s))
      ≡ stream_result (answer_datagram_add draw addr fd (o, s))
unfolding answer_add answer_datagram_add
answer_add-table draw addr fd none s = refl
answer_add-table draw addr fd (some index) s =
    let opponent = get_opponent index in
    let first = if draw % 2 == 0 then index else opponent in
    let second = if draw % 2 == 0 then opponent else index in
    if-table (index % 2 == 0) _ _ _ _ refl (
      then_to-table second (codes "add:X") (send_to first (codes "add:O") (stream s))
        (send_datagram first (codes "add:O") s)
        (send_to-table first (codes "add:O") s (stream s) refl))

relay_move-table :
    (arg : Bytes) (o : Option ℕ) (s : DatagramServer)
    → table_result (relay_move arg o (stream s)) ≡ stream_result (relay_datagram arg o s)
unfolding relay_move relay_datagram
relay_move-table arg none s = refl
relay_move-table arg (some i) s = send_to-table (get_opponent i) _ s (stream s) refl

set_online-table :
    (o : Option ℕ) (s : DatagramServer)
    → table_result (set_online o (stream s)) ≡ stream_result (mark_online o s)
unfolding set_online mark_online slot_without_addr
set_online-table none s = refl
set_online-table (some i) s = elim (Slot-cases (get_elem? s.clients i)) [
  | inl out ↦ ground (arith, out, get_elem?-map s.clients i)
  | inr (inl free) ↦ ground (arith, free, get_elem?-map s.clients i)
  | inr (inr (c, there)) ↦
      rw
        (
          set_online,
          mark_online,
          there,
          get_elem?-map s.clients i ∙ ap slot_without_addr there,
          map-set s.clients i (some (record c { online = true })),
        )
        refl
]

add_named-table :
    (draw addr fd : ℕ) (name : Option Bytes) (s : DatagramServer)
    → table_result (add_named draw fd name (stream s))
      ≡ stream_result (add_datagram draw addr fd name s)
unfolding add_named add_datagram
add_named-table draw addr fd none s = refl
add_named-table draw addr fd (some name) s =
    let (o, t) = add_datagram_client name addr fd s in
    ap (λ r. table_result (answer_add draw fd r)) (sym (add_datagram_client-stream name addr fd s))
    ∙ answer_add-table draw addr fd o t

move_named-table :
    (arg name : Option Bytes) (s : DatagramServer)
    → table_result (move_named arg name (stream s)) ≡ stream_result (move_datagram arg name s)
unfolding move_named move_datagram
move_named-table none name s = refl
move_named-table (some arg) name s = elim (Option-cases (find_player name (stream s))) [
  | inl nobody ↦ ground (arith, nobody)
  | inr (o, found) ↦ rw (move_named, move_datagram, found) (relay_move-table arg o s)
]

pong_named-table :
    (name : Option Bytes) (s : DatagramServer)
    → table_result (pong_named name (stream s)) ≡ stream_result (pong_datagram name s)
unfolding pong_named pong_datagram
pong_named-table name s = elim (Option-cases (find_player name (stream s))) [
  | inl nobody ↦ ground (arith, nobody)
  | inr (o, found) ↦ rw (pong_named, pong_datagram, found) (set_online-table o s)
]

table-stream : (p : Option DatagramServer) → table_result (stream_result p) ≡ stream_result p
table-stream none = refl
table-stream (some s) = refl

quit_named-table :
    (name : Option Bytes) (s : DatagramServer)
    → table_result (quit_named name (stream s)) ≡ stream_result (quit_datagram name s)
unfolding quit_named quit_datagram
quit_named-table none s = refl
quit_named-table (some name) s =
    ap table_result (sym (remove_datagram_client-stream name s))
    ∙ table-stream (remove_datagram_client name s)

obey-table :
    (draw addr fd : ℕ) (r : Request) (s : DatagramServer)
    → table_result (obey draw fd r (stream s)) ≡ stream_result (obey_datagram draw addr fd r s)
unfolding obey obey_datagram
obey-table draw addr fd r s =
    if-table (str_eq r.command (codes "add")) _ _ _ _ (add_named-table draw addr fd r.name s) (
      if-table (str_eq r.command (codes "move")) _ _ _ _ (move_named-table r.arg r.name s) (
        if-table (str_eq r.command (codes "quit")) _ _ _ _ (quit_named-table r.name s)
          (if-table (str_eq r.command (codes "pong")) _ _ _ _ (pong_named-table r.name s) refl)))

-- What has gone out and the addresses apart, the server of cw10/zad2 does to its table what that of
-- cw10/zad1 does with the same message, and is undefined for the same messages.
pub handle-table :
    (draw addr fd : ℕ) (message : Bytes) (s : DatagramServer)
    → table_result (handle draw fd message (stream s))
      ≡ stream_result (handle_datagram draw addr fd message s)
unfolding handle handle_datagram
handle-table draw addr fd message s = elim (Option-cases (split_request message)) [
  | inl nothing ↦ ground (arith, nothing)
  | inr (r, split) ↦ rw (handle, handle_datagram, split) (obey-table draw addr fd r s)
]
