-- ===== src/Chat/Deliver.antt =====
-- `to_all_action`, `to_one_action` and `list_action` of cw06/zad1/server.c: who gets what.
use operating_systems_course.Common.{
  ℕ, suc, ◌+◌, ◌≡◌, refl, ap, sym, ◌∙◌, true, List, [], ◌∷◌, ◌++◌, some, get_elem?, arith, inl, inr,
  Bool-cases, append_assoc, append-nil, ◌==◌, if◌then◌else◌, map,
}
use operating_systems_course.Common.Int.{ℤ, pos}
use operating_systems_course.Common.Bytes.{Bytes}
use operating_systems_course.Common.Decimal.{show}
use operating_systems_course.Chat.{
  Queues, Message, Post, to_one, list, Server, running, is_connected, post, msgsnd, to_one_action,
  to_all_loop, to_all_action, list_text, list_action,
}

-- The clients from place `i` on, with their queues.
abbrev pub clients_from : ℕ → List ℤ → List (ℕ × ℤ)
clients_from i [] = []
clients_from i (queue ∷ rest) =
    if is_connected queue then (i, queue) ∷ clients_from (i + 1) rest else clients_from (i + 1) rest

abbrev pub without : ℕ → List (ℕ × ℤ) → List (ℕ × ℤ)
without sender [] = []
without sender ((i, queue) ∷ rest) =
    if i == sender then without sender rest else (i, queue) ∷ without sender rest

-- The message to one client.
abbrev pub addressed : Message → ℕ × ℤ → ℤ × Post
addressed m (i, queue) = (queue, to_one m.sender_id i m.m_text)

abbrev pub lines_of : List (ℕ × ℤ) → Bytes
lines_of [] = []
lines_of ((i, queue) ∷ rest) = (show (pos i) ++ 10 ∷ []) ++ lines_of rest

-- The kernel takes a message to any client.
abbrev pub AllAccept : Queues → List ℤ → Type 0
AllAccept k slots =
    (j : ℕ) (queue : ℤ)
    → get_elem? slots j ≡ some queue
    → is_connected queue ≡ true
    → k.accepts queue ≡ true

abbrev add_posts : List (ℤ × Post) → Server → Server
add_posts posts s = record s { sent = s.sent ++ posts }

add_posts-nil : (s : Server) → add_posts [] s ≡ s
add_posts-nil s = ap (λ l. record s { sent = l }) (append-nil s.sent)

add_posts_twice :
    (p : ℤ × Post) (posts : List (ℤ × Post)) (s : Server)
    → add_posts posts (post p.0 p.1 s) ≡ add_posts (p ∷ posts) s
add_posts_twice p posts s = ap (λ l. record s { sent = l }) (append_assoc s.sent (p ∷ []) posts)

pub to_one_action-running :
    (k : Queues) (sender i : ℕ) (text : Bytes) (s : Server) (queue : ℤ)
    → get_elem? s.connected_clients i ≡ some queue
    → is_connected queue ≡ true
    → k.accepts queue ≡ true
    → to_one_action k sender i text s ≡ running (post queue (to_one sender i text) s)
unfolding to_one_action msgsnd
to_one_action-running k sender i text s queue at c a = ground (arith, at, c, a)

to_all_loop-running :
    (k : Queues) (m : Message) (i : ℕ) (slots : List ℤ) (s : Server)
    → ((j : ℕ) (queue : ℤ)
        → get_elem? slots j ≡ some queue
        → get_elem? s.connected_clients (i + j) ≡ some queue)
    → AllAccept k slots
    → to_all_loop k m i slots s
      ≡ running (add_posts (map (addressed m) (without m.sender_id (clients_from i slots))) s)
unfolding to_all_loop
to_all_loop-running k m i [] s inside all = ap running (sym (add_posts-nil s))
to_all_loop-running k m i (queue ∷ rest) s inside all =
    let tail = λ (j : ℕ) (q : ℤ) (e : get_elem? rest j ≡ some q).
      ap (get_elem? s.connected_clients) (omega arith) ∙ inside (suc j) q e in
    let here = ap (get_elem? s.connected_clients) (omega arith) ∙ inside 0 queue refl in
    let others = λ (j : ℕ). all (suc j) in
    elim (Bool-cases (is_connected queue)) [
      | inr c ↦ rw c (to_all_loop-running k m (i + 1) rest s tail others)
      | inl c ↦ elim (Bool-cases (i == m.sender_id)) [
        | inl own ↦ rw (c, own) (to_all_loop-running k m (i + 1) rest s tail others)
        | inr other ↦
            let p = to_one m.sender_id i m.m_text in
            rw
              (
                c,
                other,
                to_one_action-running k m.sender_id i m.m_text s queue here c (all 0 queue refl c),
                to_all_loop-running k m (i + 1) rest (post queue p s) tail others,
              )
              (ap running (add_posts_twice (queue, p) _ s))
      ]
    ]

-- If the kernel takes a message to every client, to_all_action leaves the server running, and sends
-- the text, with the sender's number and that of the receiver, once to each client but the sender,
-- in the order of their numbers; nothing else changes.
pub to_all_action-running :
    (k : Queues) (m : Message) (s : Server)
    → AllAccept k s.connected_clients
    → to_all_action k m s
      ≡ running (record s {
        sent =
            s.sent ++ map (addressed m) (without m.sender_id (clients_from 0 s.connected_clients));
      })
unfolding to_all_action
to_all_action-running k m s all =
    to_all_loop-running k m 0 s.connected_clients s
      (λ j queue e. ap (get_elem? s.connected_clients) (omega arith) ∙ e) all

list_text-lines_of : (i : ℕ) (slots : List ℤ) → list_text i slots ≡ lines_of (clients_from i slots)
unfolding list_text
list_text-lines_of i [] = refl
list_text-lines_of i (queue ∷ rest) = elim (Bool-cases (is_connected queue)) [
  | inl c ↦ rw (c, list_text-lines_of (i + 1) rest) refl
  | inr c ↦ rw (c, list_text-lines_of (i + 1) rest) refl
]

-- list_action sends to the client who asked the numbers of all clients, one to a line, if its queue
-- is there and takes the message.
pub list_action-running :
    (k : Queues) (m : Message) (s : Server) (queue : ℤ)
    → get_elem? s.connected_clients m.sender_id ≡ some queue
    → k.accepts queue ≡ true
    → list_action k m s
      ≡ running (record s {
        sent = s.sent ++ ((queue, list (lines_of (clients_from 0 s.connected_clients))) ∷ []);
      })
unfolding list_action msgsnd
list_action-running k m s queue at a =
    ground (arith, at, a, list_text-lines_of 0 s.connected_clients)
