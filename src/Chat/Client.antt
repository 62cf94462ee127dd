-- ===== src/Chat/Client.antt =====
-- The client of cw06/zad1/client.c: what it types to the server, and how it ends. `accepts` tells
-- whether `msgsnd` to the server's queue succeeds, `junk` is what the fields of a message hold that
-- the code does not set. Printing is left out.
pub mod Typed
pub mod Session
mod Tests
use operating_systems_course.Common.{
  ℕ, zero, suc, ◌+◌, Bool, true, false, not, ◌||◌, List, [], ◌∷◌, ◌++◌, Option, none, some, take,
  ◌==◌, if◌then◌else◌,
}
use operating_systems_course.Common.Int.{ℤ, pos, negsuc, int_of}
use operating_systems_course.Common.Bytes.{Bytes, codes, str_eq}
use operating_systems_course.Common.Decimal.{show, atoi}
use operating_systems_course.Common.Strtok.{strtok, strcpy_down}
use operating_systems_course.Chat.{Message}

-- `errno` is not 0 once a call has failed. `shown` are the lists of clients that were printed.
pub record Client : Type 0 where
  pub client_id : ℕ
  pub errno : Bool
  pub sent : List Message
  pub shown : List Bytes
  pub child_killed : Bool
  pub queue_removed : Bool
  pub exit_code : Option ℕ

abbrev pub send : Message → Client → Client
send m c = record c { sent = c.sent ++ (m ∷ []) }

-- The request to join that `main` sends, and what it makes of the answer.
abbrev pub init_message : Message → ℤ → Message
init_message junk client_key = record junk { m_type = 5; m_text = show client_key }

unfoldable pub joined : Message → ℤ → Bytes → Option Client
joined junk client_key answer = elim (atoi answer) [
  | negsuc _ ↦ none
  | pos id ↦ some (record {
    client_id = id;
    errno = false;
    sent = init_message junk client_key ∷ [];
    shown = [];
    child_killed = false;
    queue_removed = false;
    exit_code = none;
  })
]

abbrev pub stop_message : Message → Client → Message
stop_message junk c = record junk { m_type = 1; sender_id = c.client_id }

-- `remove_queue`, which `exit` runs.
unfoldable pub remove_queue : Bool → Message → Client → Client
remove_queue accepts junk c =
    if accepts then record (send (stop_message junk c) c) { queue_removed = true } else c

unfoldable pub exit : Bool → Message → ℕ → Client → Client
unfolding remove_queue
exit accepts junk code c = record (remove_queue accepts junk c) { exit_code = some code }

unfoldable pub stop_action : Bool → Message → Client → Client
unfolding exit
stop_action accepts junk c =
    let killed = record c { child_killed = true } in
    exit accepts junk 1 (if accepts then send (stop_message junk c) killed else killed)

unfoldable pub to_one_action : Bool → Message → ℕ → Bytes → Client → Client
to_one_action accepts junk receiver_id message c =
    if accepts
    then send
        (record junk {
          m_type = 4;
          sender_id = c.client_id;
          receiver_id = receiver_id;
          m_text = message;
        })
        c
    else c

unfoldable pub to_all_action : Bool → Message → Bytes → Client → Client
to_all_action accepts junk message c =
    if accepts
    then send (record junk { m_type = 3; sender_id = c.client_id; m_text = message }) c
    else c

-- `answer` is the text of the server's list; `none` means that `msgrcv` failed.
unfoldable pub show_list : Bool → Message → Option Bytes → Client → Client
unfolding exit
show_list accepts junk none c = exit accepts junk 1 c
show_list accepts junk (some text) c = record c { shown = c.shown ++ (text ∷ []) }

unfoldable pub list_action : Bool → Message → Option Bytes → Client → Client
unfolding show_list
list_action accepts junk answer c =
    if accepts
    then show_list accepts junk answer
        (send (record junk { m_type = 2; sender_id = c.client_id }) c)
    else exit accepts junk 1 c

-- `strtok(args, "\\n")`, which also cuts `args` at the newline. The only newline of a line is its
-- last byte, so the body begins where `args` does.
unfoldable pub get_message_body : Bytes → Option Bytes
get_message_body args = elim (strtok 10 args) [ none ↦ none | some (text, _) ↦ some text ]

-- What `get_receiver_id` does: -1, the number and what is then left in `args`, or a copy that C
-- leaves undefined.
pub data Received : Type 0 where
  refused undefined : Received
  taken : ℕ → Bytes → Received

-- `strcpy(args, new_args)` and what is returned. A number of more than 64 bits is not clamped.
abbrev after_copy : ℕ → Option Bytes → Received
after_copy receiver_id none = undefined
after_copy receiver_id (some rest) = taken receiver_id rest

unfoldable pub get_receiver_id : Bool → Bool → Bytes → Received
unfolding strcpy_down
get_receiver_id forward errno args = elim (strtok 32 args) [
  | none ↦ refused
  | some (str_receiver_id, new_args) ↦ elim (int_of (atoi str_receiver_id)) [
    | negsuc _ ↦ refused
    | pos receiver_id ↦
        if errno then refused else after_copy receiver_id (strcpy_down forward args new_args)
  ]
]

-- The branch 2ONE: `body` points at `args`, from which the number is then taken away.
unfoldable pub one_command : Bool → Bool → Message → Bytes → Client → Option Client
unfolding get_message_body get_receiver_id to_one_action stop_action
one_command forward accepts junk args c = elim (get_message_body args) [
  | none ↦ some (stop_action accepts junk c)
  | some body ↦ elim (get_receiver_id forward c.errno body) [
    | refused ↦ some (stop_action accepts junk c)
    | undefined ↦ none
    | taken receiver_id rest ↦ some (to_one_action accepts junk receiver_id rest c)
  ]
]

unfoldable pub all_command : Bool → Message → Bytes → Client → Client
unfolding get_message_body to_all_action stop_action
all_command accepts junk args c = elim (get_message_body args) [
  | none ↦ stop_action accepts junk c
  | some text ↦ to_all_action accepts junk text c
]

-- `strncmp(command, name, 4) == 0`
abbrev pub starts_with : Bytes → Bytes → Bool
starts_with command name = str_eq (take 4 command) name

unfoldable pub obey : Bool → Bool → Message → Option Bytes → Bytes → Bytes → Client → Option Client
unfolding list_action all_command one_command stop_action
obey forward accepts junk answer command args c =
    if starts_with command (codes "LIST")
    then some (list_action accepts junk answer c)
    else if starts_with command (codes "2ALL")
    then some (all_command accepts junk args c)
    else if starts_with command (codes "2ONE")
    then one_command forward accepts junk args c
    else if starts_with command (codes "STOP")
    then some (stop_action accepts junk c)
    else some c

-- `handle_input` on what `fgets` read; `none` is what C leaves undefined. A line with no command is
-- a null pointer for `strncmp`. `forward` tells how `strcpy` copies areas that overlap.
unfoldable pub handle_input :
    Bool → Bool → Message → Option Bytes → Option Bytes → Client → Option Client
unfolding obey exit
handle_input forward accepts junk answer none c = some (exit accepts junk 1 c)
handle_input forward accepts junk answer (some input) c = elim (strtok 32 input) [
  | none ↦ none
  | some (command, args) ↦ obey forward accepts junk answer command args c
]

-- `handle_msg_control`, of the child: the message is shown, or its type is reported.
abbrev pub is_shown : ℕ → Bool
is_shown m_type = (m_type == 4) || (m_type == 3)

unfoldable pub handle_msg_control : Message → List (ℕ × Bytes) → List (ℕ × Bytes)
handle_msg_control m printed =
    if is_shown m.m_type then printed ++ ((m.sender_id, m.m_text) ∷ []) else printed
