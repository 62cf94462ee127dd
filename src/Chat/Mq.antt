-- ===== src/Chat/Mq.antt =====
-- The chat server of cw06/zad2/server.c over POSIX message queues, which have names and are opened
-- and closed, and the text of its messages (Text). What is left out is left out as for zad1.
pub mod Text
pub mod Client
use operating_systems_course.Common.{
  ℕ, zero, suc, ◌+◌, Bool, true, false, not, ◌&&◌, List, [], ◌∷◌, ◌++◌, Option, none, some,
  get_elem?, set, replicate, ◌==◌, if◌then◌else◌,
}
use operating_systems_course.Common.Int.{ℤ, pos, negsuc}
use operating_systems_course.Common.Bytes.{Bytes}
use operating_systems_course.Common.Decimal.{show}
use operating_systems_course.Chat.{
  Message, Post, stop, list, to_one, init, is_connected, max_clients,
}

-- What the kernel answers: the queue of a name, with -1 for a failure, and whether `mq_send` to a
-- queue succeeds.
pub record MqQueues : Type 0 where
  pub mq_open : Bytes → ℤ
  pub accepts : ℤ → Bool

-- `closed` are the queues given to `mq_close`; `queue_open` tells of the server's own.
pub record Server : Type 0 where
  pub connected_clients : List ℤ
  pub queue_open : Bool
  pub sent : List (ℤ × Post)
  pub saved : List (ℕ × Bytes)
  pub closed : List ℤ

abbrev pub start : Server
start = record {
  connected_clients = replicate max_clients (pos 0);
  queue_open = true;
  sent = [];
  saved = [];
  closed = [];
}

-- The process runs on, has exited, or has done what C leaves undefined.
pub data Result : Type 0 where
  running : Server → Result
  exited : Server → Result
  undefined : Result

abbrev pub post : ℤ → Post → Server → Server
post queue p s = record s { sent = s.sent ++ ((queue, p) ∷ []) }

-- The posts of `close_queue` that the kernel takes.
unfoldable pub stop_posts : MqQueues → List ℤ → List (ℤ × Post)
stop_posts k [] = []
stop_posts k (queue ∷ rest) =
    let more = stop_posts k rest in
    if is_connected queue && k.accepts queue then (queue, stop) ∷ more else more

unfoldable pub close_queue : MqQueues → Server → Server
close_queue k s = record s { sent = s.sent ++ stop_posts k s.connected_clients; queue_open = false }

-- `exit(1)`, which runs what `atexit` registered.
unfoldable pub exit : MqQueues → Server → Result
exit k s = exited (close_queue k s)

abbrev is_empty : Bytes → Bool
is_empty [] = true
is_empty (_ ∷ _) = false

-- For an empty text `create_message` passes a null pointer for `%s`. The text of a STOP is not set;
-- it is taken to be a text.
abbrev pub is_silent : Post → Bool
is_silent stop = false
is_silent (list text) = is_empty text
is_silent (to_one sender_id receiver_id text) = is_empty text
is_silent (init new_id text) = is_empty text

-- `if (msg_send(queue, …) == -1) exit(1);`
unfoldable pub msg_send : MqQueues → ℤ → Post → Server → Result
unfolding exit
msg_send k queue p s =
    if is_silent p
    then undefined
    else if k.accepts queue
    then running (post queue p s)
    else exit k s

-- The loop of `list_action`, from client `i` on.
unfoldable pub list_text : ℕ → List ℤ → Bytes
list_text i [] = []
list_text i (queue ∷ rest) =
    let more = list_text (i + 1) rest in
    if is_connected queue then (show (pos i) ++ 10 ∷ []) ++ more else more

unfoldable pub list_action : MqQueues → Message → Server → Result
unfolding msg_send
list_action k m s = elim (get_elem? s.connected_clients m.sender_id) [
  | none ↦ undefined
  | some queue ↦ msg_send k queue (list (list_text 0 s.connected_clients)) s
]

unfoldable pub to_one_action : MqQueues → ℕ → ℕ → Bytes → Server → Result
unfolding msg_send exit
to_one_action k sender_id receiver_id text s = elim (get_elem? s.connected_clients receiver_id) [
  | none ↦ undefined
  | some queue ↦
      if is_connected queue
      then msg_send k queue (to_one sender_id receiver_id text) s
      else exit k s
]

-- What follows goes on only in a process that is still running.
abbrev pub then_run : Result → (Server → Result) → Result
then_run (running s) f = f s
then_run (exited s) f = exited s
then_run undefined f = undefined

-- The loop of `to_all_action`, from client `i` on. Sending changes no entry of `connected_clients`.
unfoldable pub to_all_loop : MqQueues → Message → ℕ → List ℤ → Server → Result
unfolding to_one_action
to_all_loop k m i [] s = running s
to_all_loop k m i (queue ∷ rest) s =
    let more = to_all_loop k m (i + 1) rest in
    if is_connected queue && not (i == m.sender_id)
    then then_run (to_one_action k m.sender_id i m.m_text s) more
    else more s

unfoldable pub to_all_action : MqQueues → Message → Server → Result
unfolding to_all_loop
to_all_action k m s = to_all_loop k m 0 s.connected_clients s

-- A client that is not there is only reported, and so is a failure of `mq_close`.
unfoldable pub stop_action : Message → Server → Result
stop_action m s = elim (get_elem? s.connected_clients m.sender_id) [
  | none ↦ undefined
  | some queue ↦ running (record s {
    closed = s.closed ++ (queue ∷ []);
    connected_clients = set s.connected_clients m.sender_id (pos 0);
  })
]

-- The loop of `init_action` goes on past the first free place: the last one is taken.
unfoldable pub last_free : ℕ → List ℤ → Option ℕ → Option ℕ
last_free i [] found = found
last_free i (queue ∷ rest) found =
    last_free (i + 1) rest (if is_connected queue then found else some i)

-- The text is the name of the client's queue. A failure of `mq_open` is only reported, and its -1
-- stored.
unfoldable pub init_at : MqQueues → ℕ → Message → Server → Result
unfolding msg_send
init_at k new_id m s =
    let queue = k.mq_open m.m_text in
    msg_send k queue (init new_id (show (pos new_id)))
      (record s { connected_clients = set s.connected_clients new_id queue })

unfoldable pub init_action : MqQueues → Message → Server → Result
unfolding init_at last_free
init_action k m s = elim (last_free 0 s.connected_clients none) [
  | none ↦ running s
  | some new_id ↦ init_at k new_id m s
]

-- The switch of `handle_message`.
unfoldable pub act : MqQueues → ℕ → Message → Server → Result
unfolding list_action to_all_action to_one_action stop_action init_action
act k m_type m s =
    if m_type == 1
    then stop_action m s
    else if m_type == 2
    then list_action k m s
    else if m_type == 3
    then to_all_action k m s
    else if m_type == 4
    then to_one_action k m.sender_id m.receiver_id m.m_text s
    else if m_type == 5
    then init_action k m s
    else running s

-- `save_message`; `opens` tells whether its file could be opened. The date and time that go with
-- the entry are left out.
unfoldable pub save_message : Bool → Message → Server → Option Server
save_message opens m s =
    if opens then some (record s { saved = s.saved ++ ((m.sender_id, m.m_text) ∷ []) }) else none

-- `handle_message` on a received text; a text that is not parsed is a null pointer that is followed.
unfoldable pub handle_message : MqQueues → Bool → Option Message → Server → Result
unfolding act exit save_message
handle_message k opens none s = undefined
handle_message k opens (some m) s = elim (save_message opens m s) [
  | none ↦ exit k s
  | some s' ↦ act k m.m_type m s'
]
