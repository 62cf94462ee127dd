-- ===== src/Chat.antt =====
-- The chat server of cw06/zad1/server.c over System V message queues. The kernel's queues are a
-- parameter. A process that calls `exit` runs `close_queue` and does nothing more; an index outside
-- `connected_clients` is undefined. Printing and the time of sending are left out.
pub mod Join
pub mod Deliver
pub mod Run
pub mod Mq
pub mod Client
mod Tests
use operating_systems_course.Common.{
  ℕ, zero, suc, ◌+◌, Bool, true, false, not, ◌&&◌, List, [], ◌∷◌, ◌++◌, Option, none, some,
  get_elem?, set, replicate, ◌==◌, if◌then◌else◌,
}
use operating_systems_course.Common.Int.{ℤ, pos, negsuc}
use operating_systems_course.Common.Bytes.{Bytes}
use operating_systems_course.Common.Decimal.{show, atoi}

-- What the kernel answers: the queue of a key, with -1 for a failure, and whether `msgsnd` to a
-- queue succeeds.
pub record Queues : Type 0 where
  pub msgget : ℤ → ℤ
  pub accepts : ℤ → Bool

-- `msg_buffer` as it is received.
pub record Message : Type 0 where
  pub m_type : ℕ
  pub m_text : Bytes
  pub sender_id : ℕ
  pub receiver_id : ℕ

-- The fields that the server fills in before it sends.
pub data Post : Type 0 where
  stop : Post
  list : Bytes → Post
  to_one : ℕ → ℕ → Bytes → Post
  init : ℕ → Bytes → Post

abbrev pub max_clients : ℕ
max_clients = 10

-- `saved` is what `save_message` has appended to the file: the sender and the text.
pub record Server : Type 0 where
  pub connected_clients : List ℤ
  pub sent : List (ℤ × Post)
  pub saved : List (ℕ × Bytes)

abbrev pub start : Server
start = record { connected_clients = replicate max_clients (pos 0); sent = []; saved = [] }

-- The process runs on, has exited, or has done what C leaves undefined.
pub data Result : Type 0 where
  running : Server → Result
  exited : Server → Result
  undefined : Result

-- `connected_clients[i] != 0`
abbrev pub is_connected : ℤ → Bool
is_connected (pos zero) = false
is_connected (pos (suc _)) = true
is_connected (negsuc _) = true

abbrev pub post : ℤ → Post → Server → Server
post queue p s = record s { sent = s.sent ++ ((queue, p) ∷ []) }

-- The posts of `close_queue` that the kernel takes.
unfoldable pub stop_posts : Queues → List ℤ → List (ℤ × Post)
stop_posts k [] = []
stop_posts k (queue ∷ rest) =
    let more = stop_posts k rest in
    if is_connected queue && k.accepts queue then (queue, stop) ∷ more else more

unfoldable pub close_queue : Queues → Server → Server
close_queue k s = record s { sent = s.sent ++ stop_posts k s.connected_clients }

-- `exit(1)`, which runs what `atexit` registered.
unfoldable pub exit : Queues → Server → Result
exit k s = exited (close_queue k s)

-- `if (msgsnd(queue, …) == -1) exit(1);`
unfoldable pub msgsnd : Queues → ℤ → Post → Server → Result
unfolding exit
msgsnd k queue p s = if k.accepts queue then running (post queue p s) else exit k s

-- The loop of `list_action`, from client `i` on.
unfoldable pub list_text : ℕ → List ℤ → Bytes
list_text i [] = []
list_text i (queue ∷ rest) =
    let more = list_text (i + 1) rest in
    if is_connected queue then (show (pos i) ++ 10 ∷ []) ++ more else more

unfoldable pub list_action : Queues → Message → Server → Result
unfolding msgsnd
list_action k m s = elim (get_elem? s.connected_clients m.sender_id) [
  | none ↦ undefined
  | some queue ↦ msgsnd k queue (list (list_text 0 s.connected_clients)) s
]

unfoldable pub to_one_action : Queues → ℕ → ℕ → Bytes → Server → Result
unfolding msgsnd exit
to_one_action k sender_id receiver_id text s = elim (get_elem? s.connected_clients receiver_id) [
  | none ↦ undefined
  | some queue ↦
      if is_connected queue then msgsnd k queue (to_one sender_id receiver_id text) s else exit k s
]

-- What follows goes on only in a process that is still running.
abbrev pub then_run : Result → (Server → Result) → Result
then_run (running s) f = f s
then_run (exited s) f = exited s
then_run undefined f = undefined

-- The loop of `to_all_action`, from client `i` on. Sending changes no entry of `connected_clients`.
unfoldable pub to_all_loop : Queues → Message → ℕ → List ℤ → Server → Result
unfolding to_one_action
to_all_loop k m i [] s = running s
to_all_loop k m i (queue ∷ rest) s =
    let more = to_all_loop k m (i + 1) rest in
    if is_connected queue && not (i == m.sender_id)
    then then_run (to_one_action k m.sender_id i m.m_text s) more
    else more s

unfoldable pub to_all_action : Queues → Message → Server → Result
unfolding to_all_loop
to_all_action k m s = to_all_loop k m 0 s.connected_clients s

-- A client that is not there is only reported.
unfoldable pub stop_action : Message → Server → Result
stop_action m s = elim (get_elem? s.connected_clients m.sender_id) [
  | none ↦ undefined
  | some _ ↦ running (record s { connected_clients = set s.connected_clients m.sender_id (pos 0) })
]

-- The loop of `init_action` goes on past the first free place: the last one is taken.
unfoldable pub last_free : ℕ → List ℤ → Option ℕ → Option ℕ
last_free i [] found = found
last_free i (queue ∷ rest) found =
    last_free (i + 1) rest (if is_connected queue then found else some i)

-- The key is the number in the text. A failure of `msgget` is only reported, and its -1 stored.
unfoldable pub init_at : Queues → ℕ → Message → Server → Result
unfolding msgsnd
init_at k new_id m s =
    let queue = k.msgget (atoi m.m_text) in
    msgsnd k queue (init new_id (show (pos new_id)))
      (record s { connected_clients = set s.connected_clients new_id queue })

unfoldable pub init_action : Queues → Message → Server → Result
unfolding init_at last_free
init_action k m s = elim (last_free 0 s.connected_clients none) [
  | none ↦ running s
  | some new_id ↦ init_at k new_id m s
]

-- The switch of `handle_message`.
unfoldable pub act : Queues → ℕ → Message → Server → Result
unfolding list_action to_all_action to_one_action stop_action init_action
act k m_type m s =
    if m_type == 1
    then stop_action m s
    else if m_type == 2
    then list_action k m s
    else if m_type == 3
    then to_all_action k m s
    else if m_type == 4
    then to_one_action k m.sender_id m.receiver_id m.m_text s
    else if m_type == 5
    then init_action k m s
    else running s

-- `save_message`; `opens` tells whether its file could be opened. The date and time that go with
-- the entry are left out.
unfoldable pub save_message : Bool → Message → Server → Option Server
save_message opens m s =
    if opens then some (record s { saved = s.saved ++ ((m.sender_id, m.m_text) ∷ []) }) else none

unfoldable pub handle_message : Queues → Bool → Message → Server → Result
unfolding act exit save_message
handle_message k opens m s = elim (save_message opens m s) [
  | none ↦ exit k s
  | some s' ↦ act k m.m_type m s'
]
