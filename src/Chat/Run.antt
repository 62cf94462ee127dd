-- ===== src/Chat/Run.antt =====
-- What the server of cw06/zad1/server.c keeps, and which messages it survives.
use operating_systems_course.Common.{
  ℕ, ◌<◌, ◌≡◌, refl, ap, sym, ◌∙◌, inl, inr, Bool, true, false, List, [], ◌∷◌, ◌++◌, none, some,
  get_elem?, set, length, length-set, get_elem?-set_self, get_elem?-set_ne, get_elem?-lt,
  get_elem?-some, arith, ◌==◌, if◌then◌else◌, ℕ_discrete,
}
use operating_systems_course.Common.Int.{ℤ, pos}
use operating_systems_course.Common.Decimal.{show, atoi}
use operating_systems_course.Chat.{
  Queues, Message, init, Server, Result, running, max_clients, is_connected, post, msgsnd,
  stop_action, init_at, init_action, last_free, list_action, to_one_action, to_all_action, act,
  handle_message, save_message,
}
use operating_systems_course.Chat.Join.{last_free_lem}
use operating_systems_course.Chat.Deliver.{
  AllAccept, to_one_action-running, to_all_action-running, list_action-running,
}

-- Ten places; the kernel takes messages to every client.
pub record IsChat (k : Queues) (s : Server) : Type 0 where
  pub places : length s.connected_clients ≡ max_clients
  pub reachable : AllAccept k s.connected_clients

pub data Survived (k : Queues) (r : Result) : Type 0 where
  goes_on : (s : Server) → r ≡ running s → IsChat k s → Survived k r

AllAccept-set :
    (k : Queues) (slots : List ℤ) (d : ℕ) (queue : ℤ)
    → AllAccept k slots
    → d < length slots
    → (is_connected queue ≡ true → k.accepts queue ≡ true)
    → AllAccept k (set slots d queue)
AllAccept-set k slots d queue all lt ok j q e c = elim (ℕ_discrete d j) [
  | yes same ↦
      let q_is : some queue ≡ some q =
        sym (get_elem?-set_self slots d queue lt) ∙ ap (get_elem? (set slots d queue)) same ∙ e in
      ground (arith, q_is, c, ok)
  | no other ↦ all j q (sym (get_elem?-set_ne slots queue other) ∙ e) c
]

stop_action-Survived :
    (k : Queues) (m : Message) (s : Server)
    → IsChat k s
    → m.sender_id < max_clients
    → Survived k (stop_action m s)
unfolding stop_action
stop_action-Survived k m s v lt =
    let (q, at) = get_elem?-some s.connected_clients m.sender_id (omega (arith, v.places)) in
    goes_on (record s { connected_clients = set s.connected_clients m.sender_id (pos 0) })
      (rw (at, stop_action) refl)
      (record {
        places = length-set s.connected_clients m.sender_id (pos 0) ∙ v.places;
        reachable =
            AllAccept-set k s.connected_clients m.sender_id (pos 0) v.reachable
              (omega (arith, v.places)) (λ c. ground (arith, c));
      })

init_action-Survived :
    (k : Queues) (m : Message) (s : Server)
    → IsChat k s
    → k.accepts (k.msgget (atoi m.m_text)) ≡ true
    → Survived k (init_action k m s)
unfolding init_action init_at msgsnd
init_action-Survived k m s v a = elim (last_free_lem 0 s.connected_clients none) [
  | inl (all, none_free) ↦ goes_on s (rw (none_free, init_action) refl) v
  | inr (d, f, found) ↦
      let at_d : last_free 0 s.connected_clients none ≡ some d = found ∙ ap some (omega arith) in
      let queue = k.msgget (atoi m.m_text) in
      goes_on
        (post queue (init d (show (pos d)))
          (record s { connected_clients = set s.connected_clients d queue }))
        (rw (at_d, init_action, a) refl)
        (record {
          places = length-set s.connected_clients d queue ∙ v.places;
          reachable =
              AllAccept-set k s.connected_clients d queue v.reachable
                (get_elem?-lt s.connected_clients d f.here) (λ c. a);
        })
]

-- The condition on a message, by its type, under which the server goes on.
abbrev pub Served : Queues → Message → Server → Type 0
Served k m s =
    (m.m_type ≡ 2
      → (q : ℤ) × (get_elem? s.connected_clients m.sender_id ≡ some q) × (is_connected q ≡ true))
    × (m.m_type ≡ 4
        → (q : ℤ) × (get_elem? s.connected_clients m.receiver_id ≡ some q)
          × (is_connected q ≡ true))
    × (m.m_type ≡ 5 → k.accepts (k.msgget (atoi m.m_text)) ≡ true)

Survived-if :
    (k : Queues) (b : Bool) {r r' : Result}
    → (b ≡ true → Survived k r)
    → (b ≡ false → Survived k r')
    → Survived k (if b then r else r')
Survived-if k true f g = f refl
Survived-if k false f g = g refl

list_action-Survived :
    (k : Queues) (m : Message) (s : Server) {q : ℤ}
    → IsChat k s
    → get_elem? s.connected_clients m.sender_id ≡ some q
    → is_connected q ≡ true
    → Survived k (list_action k m s)
list_action-Survived k m s {q} v at c =
    goes_on _ (list_action-running k m s q at (v.reachable m.sender_id q at c))
      (record { places = v.places; reachable = v.reachable })

to_one_action-Survived :
    (k : Queues) (m : Message) (s : Server) {q : ℤ}
    → IsChat k s
    → get_elem? s.connected_clients m.receiver_id ≡ some q
    → is_connected q ≡ true
    → Survived k (to_one_action k m.sender_id m.receiver_id m.m_text s)
to_one_action-Survived k m s {q} v at c =
    goes_on _
      (to_one_action-running k m.sender_id m.receiver_id m.m_text s q at c
        (v.reachable m.receiver_id q at c))
      (record { places = v.places; reachable = v.reachable })

to_all_action-Survived :
    (k : Queues) (m : Message) (s : Server) → IsChat k s → Survived k (to_all_action k m s)
to_all_action-Survived k m s v =
    goes_on _ (to_all_action-running k m s v.reachable)
      (record { places = v.places; reachable = v.reachable })

act-Survived :
    (k : Queues) (m : Message) (s : Server)
    → IsChat k s
    → m.sender_id < max_clients
    → Served k m s
    → Survived k (act k m.m_type m s)
unfolding act
act-Survived k m s v lt (l, o, i) =
    Survived-if k (m.m_type == 1) (λ e. stop_action-Survived k m s v lt)
      (λ n1.
        Survived-if k (m.m_type == 2)
          (λ e.
            let (q, at, c) = l (omega (arith, is_type 2 e)) in list_action-Survived k m s v at c)
          (λ n2.
            Survived-if k (m.m_type == 3) (λ e. to_all_action-Survived k m s v)
              (λ n3.
                Survived-if k (m.m_type == 4)
                  (λ e. let (q, at, c) = o (is_type 4 e) in to_one_action-Survived k m s v at c)
                  (λ n4.
                    Survived-if k (m.m_type == 5)
                      (λ e. init_action-Survived k m s v (i (is_type 5 e)))
                      (λ n5. goes_on s refl v)))))
  where
    is_type : (t : ℕ) → (m.m_type == t) ≡ true → m.m_type ≡ t
    is_type t e = ground (arith, e)

-- The server goes on, with ten places and every client within reach, whenever the file of messages
-- opens, the sender's number is a place, one who asks for the list and one who is written to are
-- clients, and the queue of one who joins takes messages.
pub handle_message-Survived :
    (k : Queues) (m : Message) (s : Server)
    → IsChat k s
    → m.sender_id < max_clients
    → Served k m s
    → Survived k (handle_message k true m s)
unfolding handle_message save_message
handle_message-Survived k m s v lt served =
    act-Survived k m (record s { saved = s.saved ++ ((m.sender_id, m.m_text) ∷ []) })
      (record { places = v.places; reachable = v.reachable }) lt served
