-- ===== src/Chat/Client/Session.antt =====
-- The end of a client of cw06/zad1/client.c, together with its server.
use operating_systems_course.Common.{
  ℕ, ◌<◌, ◌≡◌, refl, sym, ◌∙◌, ap, inl, inr, true, List, [], ◌∷◌, ◌++◌, none, some, arith,
  append_assoc, get_elem?, set, length-set, get_elem?-lt, get_elem?-set_self, get_elem?-set_ne,
  dec_lt,
}
use operating_systems_course.Common.Int.{ℤ, pos}
use operating_systems_course.Common.Decimal.{show, atoi}
use operating_systems_course.Chat.{
  Queues, Message, init, Server, running, is_connected, post, init_action, init_at, last_free,
  msgsnd, stop_action,
}
use operating_systems_course.Chat.Join.{LastFree, last_free_lem}
use operating_systems_course.Chat.Client.{
  Client, stop_message, remove_queue, exit, stop_action as client_stop,
}

-- Places behind `d` belong to clients.
abbrev pub TakenBehind : ℕ → List ℤ → Type 0
TakenBehind d slots =
    (j : ℕ) (queue : ℤ) → d < j → get_elem? slots j ≡ some queue → is_connected queue ≡ true

-- The server when the client has stopped, and when another has joined in its place.
abbrev pub stopped : ℕ → Server → Server
stopped d s = record s { connected_clients = set s.connected_clients d (pos 0) }

abbrev pub replaced : ℕ → ℤ → Server → Server
replaced d queue s =
    post queue (init d (show (pos d)))
      (record s { connected_clients = set (stopped d s).connected_clients d queue })

stop_action-stopped :
    (m : Message) (s : Server) {queue : ℤ}
    → get_elem? s.connected_clients m.sender_id ≡ some queue
    → stop_action m s ≡ running (stopped m.sender_id s)
unfolding stop_action
stop_action-stopped m s at = ground (arith, at)

-- The loop of init_action finds a place that is free and the last such.
last_free-LastFree : (slots : List ℤ) (d : ℕ) → LastFree slots d → last_free 0 slots none ≡ some d
last_free-LastFree slots d f = elim (last_free_lem 0 slots none) [
  | inl (all, e) ↦ absurd (ground (arith, all d f.queue f.here, f.vacant))
  | inr (d', f', e) ↦
      e
      ∙ ap some (elim (dec_lt d d') [
        | yes lt ↦ absurd (ground (arith, f.last d' f'.queue lt f'.here, f'.vacant))
        | no ge ↦ elim (dec_lt d' d) [
          | yes lt ↦ absurd (ground (arith, f'.last d f.queue lt f.here, f.vacant))
          | no le ↦ omega (arith, ge, le)
        ]
      ])
]

-- The place of a client that has stopped is the last free one, if no place behind it is free.
stopped-LastFree :
    (d : ℕ) (s : Server) {old : ℤ}
    → get_elem? s.connected_clients d ≡ some old
    → TakenBehind d s.connected_clients
    → LastFree (stopped d s).connected_clients d
stopped-LastFree d s {old} at behind = record {
  queue = pos 0;
  here = get_elem?-set_self s.connected_clients d (pos 0) (get_elem?-lt s.connected_clients d at);
  vacant = refl;
  last = λ j q lt e. behind j q lt (
      sym (get_elem?-set_ne s.connected_clients (pos 0) (λ same. absurd (omega (arith, lt, same))))
      ∙ e);
}

init_action-replaced :
    (k : Queues) (m : Message) (d : ℕ) (s : Server) {old : ℤ} {queue : ℤ}
    → get_elem? s.connected_clients d ≡ some old
    → TakenBehind d s.connected_clients
    → k.msgget (atoi m.m_text) ≡ queue
    → k.accepts queue ≡ true
    → init_action k m (stopped d s) ≡ running (replaced d queue s)
unfolding init_action init_at msgsnd
init_action-replaced k m d s at behind e accepted = ground (
  arith,
  last_free-LastFree (stopped d s).connected_clients d (stopped-LastFree d s at behind),
  e,
  accepted,
)

replaced_here :
    (d : ℕ) (s : Server) (queue : ℤ) {old : ℤ}
    → get_elem? s.connected_clients d ≡ some old
    → get_elem? (replaced d queue s).connected_clients d ≡ some queue
replaced_here d s queue at =
    let lt = get_elem?-lt s.connected_clients d at in
    get_elem?-set_self (stopped d s).connected_clients d queue
      (omega (arith, lt, length-set s.connected_clients d (pos 0)))

-- A client that stops sends STOP twice. If another client joins between the two, and gets the
-- place, which happens when no place behind it is free, then the second STOP takes the place from
-- the new client.
pub stop_action_twice :
    (junk m : Message) (c : Client) (k : Queues) (s : Server) (old queue : ℤ)
    → get_elem? s.connected_clients c.client_id ≡ some old
    → TakenBehind c.client_id s.connected_clients
    → k.msgget (atoi m.m_text) ≡ queue
    → k.accepts queue ≡ true
    → let d = c.client_id in
      let stop = stop_message junk c in
      ((client_stop true junk c).sent ≡ c.sent ++ stop ∷ stop ∷ [])
      × (stop_action stop s ≡ running (stopped d s))
      × (init_action k m (stopped d s) ≡ running (replaced d queue s))
      × (get_elem? (replaced d queue s).connected_clients d ≡ some queue)
      × (stop_action stop (replaced d queue s) ≡ running (stopped d (replaced d queue s)))
      × (get_elem? (stopped d (replaced d queue s)).connected_clients d ≡ some (pos 0))
unfolding client_stop exit remove_queue
stop_action_twice junk m c k s old queue at behind e accepted =
    let d = c.client_id in
    let here = replaced_here d s queue at in
    let lt = get_elem?-lt (replaced d queue s).connected_clients d here in
    (
      append_assoc c.sent _ _,
      stop_action-stopped (stop_message junk c) s at,
      init_action-replaced k m d s at behind e accepted,
      here,
      stop_action-stopped (stop_message junk c) (replaced d queue s) here,
      get_elem?-set_self (replaced d queue s).connected_clients d (pos 0) lt,
    )
