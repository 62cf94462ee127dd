-- ===== src/Chat/Mq/Client.antt =====
-- The client of cw06/zad2/client.c: a parent that reads the client's queue, and its child that reads
-- what is typed. A message goes out as the text of `create_message`; `junk` is what the fields hold
-- that the code does not set, `now` the time. Printing is left out.
pub mod Typed
mod Tests
use operating_systems_course.Common.{
  ℕ, zero, suc, ◌+◌, Bool, true, false, not, ◌||◌, ◌&&◌, List, [], ◌∷◌, ◌++◌, Option, none, some,
  take, ◌==◌, if◌then◌else◌,
}
use operating_systems_course.Common.Int.{ℤ, pos, negsuc, minus_one, eq_ℤ, int_of}
use operating_systems_course.Common.Bytes.{Bytes, codes, str_eq}
use operating_systems_course.Common.Decimal.{show, atoi}
use operating_systems_course.Common.Strtok.{strtok, strcpy_down}
use operating_systems_course.Chat.Mq.Text.{Buffer, create_message, Parsed, ok, failed}

-- One of the two processes. `sent` are the texts in the server's queue, `interrupts` counts the
-- SIGINTs that the child has sent to its parent.
pub record Process : Type 0 where
  pub client_id : ℤ
  pub is_parent : Bool
  pub errno : Bool
  pub sent : List Bytes
  pub printed : List (ℤ × Bytes)
  pub interrupts : ℕ
  pub child_killed : Bool
  pub queue_unlinked : Bool
  pub exit_code : Option ℕ

-- The code goes on, or does what C leaves undefined.
pub data Outcome : Type 0 where
  running : Process → Outcome
  undefined : Outcome

-- `get_queue_name`: the path of the home directory behind its first part, and the process id.
unfoldable pub get_queue_name : Bytes → ℕ → Option Bytes
get_queue_name home pid = elim (strtok b'/' home) [
  | none ↦ none
  | some (_, result) ↦ some (b'/' ∷ (result ++ show (pos pid)))
]

-- `remove_queue`, which `exit` runs: it does nothing in the child, and ends the parent with 0.
unfoldable pub exit : ℕ → Process → Process
exit code p =
    if p.is_parent
    then record p { queue_unlinked = true; exit_code = some 0 }
    else record p { exit_code = some code }

-- `msg_send` to the server, where `accepts` tells whether `mq_send` succeeds; the code goes on as
-- `sent` and `refused` say. A message with an empty text is undefined.
unfoldable pub send : Bool → Option Bytes → Process → (Process → Process) → Outcome
send accepts none p refused = undefined
send accepts (some text) p refused =
    running (if accepts then record p { sent = p.sent ++ (text ∷ []) } else refused p)

-- The part of the parent in `stop_action`: STOP is sent, and the process ends either way.
unfoldable pub after_stop : Outcome → Outcome
unfolding exit
after_stop undefined = undefined
after_stop (running p) = running (exit 1 p)

-- `stop_action`: the child only interrupts its parent, and goes on.
unfoldable pub stop_action : Bool → Buffer → Process → Outcome
unfolding send after_stop
stop_action accepts junk p =
    if p.is_parent
    then after_stop (
        send accepts (create_message (record junk { m_type = pos 1; sender_id = p.client_id }))
          (record p { child_killed = true }) (λ q. q))
    else running (record p { interrupts = p.interrupts + 1 })

abbrev pub then_run : Outcome → (Process → Outcome) → Outcome
then_run (running p) f = f p
then_run undefined f = undefined

unfoldable pub to_all_action : Bool → Buffer → Bytes → Process → Outcome
unfolding send exit
to_all_action accepts junk message p =
    send accepts
      (create_message (record junk { m_type = pos 3; sender_id = p.client_id; m_text = message })) p
      (exit 1)

unfoldable pub to_one_action : Bool → Buffer → ℤ → ℤ → Bytes → Process → Outcome
unfolding send exit
to_one_action accepts junk now receiver_id message p =
    send accepts
      (create_message (record junk {
        m_type = pos 4;
        sender_id = p.client_id;
        receiver_id = receiver_id;
        send_time = now;
        m_text = message;
      }))
      p (exit 1)

-- `list_action` up to the answer, which is only printed.
unfoldable pub list_action : Bool → Buffer → Process → Outcome
unfolding send exit
list_action accepts junk p =
    send accepts (create_message (record junk { m_type = pos 2; sender_id = p.client_id })) p
      (exit 1)

-- As in cw06/zad1: the text up to the newline, if there is one, and then `args` holds the same.
unfoldable pub get_message_body : Bytes → Option Bytes
get_message_body args = elim (strtok 10 args) [ none ↦ none | some (text, _) ↦ some text ]

-- The spaces that `strtok_r` skips at the front.
unfoldable pub indent : Bytes → Bytes
indent [] = []
indent (c ∷ s) = let more = indent s in if c == 32 then c ∷ more else []

-- The number, -1 for a failure, and the text left at `args`: behind a failed number, `strtok_r` has
-- cut it off. `none` is a copy that C leaves undefined, if the text is longer than the number, and
-- `forward` does not tell that `strcpy` copies such areas from the front. A number of more than 64
-- bits is not clamped.
unfoldable pub get_receiver_id : Bool → Bool → Bytes → Option (ℤ × Bytes)
unfolding indent strcpy_down
get_receiver_id forward errno args = elim (strtok 32 args) [
  | none ↦ some (minus_one, args)
  | some (str_receiver_id, new_args) ↦ elim (int_of (atoi str_receiver_id)) [
    | negsuc _ ↦ some (minus_one, indent args ++ str_receiver_id)
    | pos receiver_id ↦
        if errno
        then some (minus_one, indent args ++ str_receiver_id)
        else elim (strcpy_down forward args new_args) [
          | none ↦ none
          | some rest ↦ some (pos receiver_id, rest)
        ]
  ]
]

abbrev pub is_negative : ℤ → Bool
is_negative (negsuc _) = true
is_negative (pos _) = false

-- The branch 2ONE with a body that is at `args`; the child goes on behind `stop_action`.
unfoldable pub one_command : Bool → Buffer → ℤ → ℤ × Bytes → Process → Outcome
unfolding stop_action to_one_action
one_command accepts junk now (receiver_id, body) p =
    then_run (if is_negative receiver_id then stop_action accepts junk p else running p)
      (to_one_action accepts junk now receiver_id body)

-- With no body, `to_one_action` copies from a null pointer behind `stop_action`.
unfoldable pub bodiless_command : Bool → Buffer → Process → Outcome
unfolding stop_action
bodiless_command accepts junk p = then_run (stop_action accepts junk p) (λ q. undefined)

-- The branch 2ALL, where `args` are sent behind `stop_action` too.
unfoldable pub all_command : Bool → Buffer → Bytes → Process → Outcome
unfolding get_message_body stop_action to_all_action
all_command accepts junk args p = elim (get_message_body args) [
  | some text ↦ to_all_action accepts junk text p
  | none ↦ then_run (stop_action accepts junk p) (to_all_action accepts junk args)
]

abbrev pub starts_with : Bytes → Bytes → Bool
starts_with command name = str_eq (take 4 command) name

unfoldable pub obey : Bool → Bool → Buffer → ℤ → Bytes → Bytes → Process → Outcome
unfolding list_action all_command one_command bodiless_command get_receiver_id stop_action
obey forward accepts junk now command args p =
    if starts_with command (codes "LIST")
    then list_action accepts junk p
    else if starts_with command (codes "2ALL")
    then all_command accepts junk args p
    else if starts_with command (codes "2ONE")
    then elim (get_message_body args) [
      | none ↦ bodiless_command accepts junk p
      | some body ↦ elim (get_receiver_id forward p.errno body) [
        | none ↦ undefined
        | some (receiver_id, rest) ↦ one_command accepts junk now (receiver_id, rest) p
      ]
    ]
    else if starts_with command (codes "STOP")
    then stop_action accepts junk p
    else running p

-- `handle_input`, in the child, on what `fgets` read.
unfoldable pub handle_input : Bool → Bool → Buffer → ℤ → Option Bytes → Process → Outcome
unfolding obey exit
handle_input forward accepts junk now none p = running (exit 1 p)
handle_input forward accepts junk now (some input) p = elim (strtok 32 input) [
  | none ↦ undefined
  | some (command, args) ↦ obey forward accepts junk now command args p
]

-- `handle_queue_message`, in the parent, on what `parse_message` made of a text.
unfoldable pub handle_queue_message : Bool → Buffer → Parsed Buffer → Process → Outcome
unfolding stop_action
handle_queue_message accepts junk failed p = running p
handle_queue_message accepts junk Parsed.undefined p = undefined
handle_queue_message accepts junk (ok m) p =
    if eq_ℤ m.m_type (pos 4) || eq_ℤ m.m_type (pos 3)
    then running (record p { printed = p.printed ++ ((m.sender_id, m.m_text) ∷ []) })
    else if eq_ℤ m.m_type (pos 1)
    then stop_action accepts junk p
    else running p
