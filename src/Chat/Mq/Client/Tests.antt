-- ===== src/Chat/Mq/Client/Tests.antt =====
-- Concrete runs of the client of cw06/zad2.
use operating_systems_course.Common.{◌≡◌, refl, true, false, [], ◌∷◌, ◌++◌, none, some}
use operating_systems_course.Common.Int.{pos, int_of}
use operating_systems_course.Common.Bytes.{Bytes, codes, str_eq}
use operating_systems_course.Common.Decimal.{show, atoi}
use operating_systems_course.Common.Strtok.{strtok}
use operating_systems_course.Chat.Mq.{MqQueues, Server, start, running}
use operating_systems_course.Chat.Mq.Text.{Buffer, Parsed, create_message, ok, parse_message}
use operating_systems_course.Chat.Mq.Client.{
  Process, running as process_running, undefined as process_undefined, get_queue_name, handle_input,
  handle_queue_message,
}
use operating_systems_course.Chat.Mq.Client.Typed.{read_buffer}

abbrev kernel : MqQueues
kernel = record { mq_open = λ name. pos 12; accepts = λ queue. true }

abbrev junk : Buffer
junk = record {
  m_type = pos 0;
  m_text = codes "?";
  sender_id = pos 7;
  receiver_id = pos 7;
  send_time = pos 0;
}

abbrev child : Process
child = record {
  client_id = pos 9;
  is_parent = false;
  errno = false;
  sent = [];
  printed = [];
  interrupts = 0;
  child_killed = false;
  queue_unlinked = false;
  exit_code = none;
}

-- Client 8 has queue 5.
abbrev chat : Server
chat = record start {
  connected_clients =
      pos 0 ∷ pos 0 ∷ pos 0 ∷ pos 0 ∷ pos 0 ∷ pos 0 ∷ pos 0 ∷ pos 0 ∷ pos 5 ∷ pos 6 ∷ [];
}

-- Leftover digits are read as part of the time.
leftover_run :
    parse_message true false (codes "4-hi-9-8-60" ++ codes "77")
    ≡ ok (record (read_buffer 9 8 60 (codes "hi")) { send_time = pos 6077 })
unfolding parse_message strtok atoi int_of
leftover_run = refl

-- Every message is copied over itself when its type is read.
overlap_run : parse_message false false (codes "4-hi-9-8-60") ≡ Parsed.undefined
unfolding parse_message strtok atoi int_of
overlap_run = refl

-- `2ONE` with nothing behind it copies from a null pointer in the child.
bodiless_run :
    handle_input false true junk (pos 60) (some (codes "2ONE " ++ 10 ∷ [])) child
    ≡ process_undefined
unfolding handle_input strtok str_eq
bodiless_run = refl

-- A STOP from the server ends the parent: it kills the child, answers with a STOP and removes its
-- queue.
stop_run :
    handle_queue_message true junk
      (ok (record junk { m_type = pos 1 }))
      (record child { is_parent = true })
    ≡ process_running (record child {
      is_parent = true;
      sent = codes "1-?-9-7-0" ∷ [];
      child_killed = true;
      queue_unlinked = true;
      exit_code = some 0;
    })
unfolding handle_queue_message create_message show
stop_run = refl

queue_name_run : get_queue_name (codes "/home/anna") 41 ≡ some (codes "/anna41")
unfolding get_queue_name strtok show
queue_name_run = refl
