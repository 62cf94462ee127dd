-- ===== src/Chat/Mq/Client/Typed.antt =====
-- What a line typed at the client of cw06/zad2/client.c sends, and what the server reads in it.
use operating_systems_course.Common.{ℕ, [], ◌∷◌, ◌++◌}
use operating_systems_course.Common.Int.{ℤ, pos}
use operating_systems_course.Common.Bytes.{Bytes, codes}
use operating_systems_course.Common.Decimal.{show}
use operating_systems_course.Chat.{Message}
use operating_systems_course.Chat.Mq.{Server, running, to_one_action}
use operating_systems_course.Chat.Mq.Text.{Buffer}
use operating_systems_course.Chat.Mq.Client.{
  Process, running as process_running, to_one_action as client_to_one,
}

-- `2ONE receiver_id text`, as typed.
abbrev pub one_line : ℤ → Bytes → Bytes
one_line receiver_id text = codes "2ONE" ++ 32 ∷ ((show receiver_id ++ 32 ∷ text) ++ 10 ∷ [])

-- The process with one more text in the server's queue.
abbrev pub with_sent : Bytes → Process → Process
with_sent message p = record p { sent = p.sent ++ (message ∷ []) }

-- What the server reads.
abbrev pub read_buffer : ℕ → ℕ → ℕ → Bytes → Buffer
read_buffer sender_id receiver_id now text = record {
  m_type = pos 4;
  m_text = text;
  sender_id = pos sender_id;
  receiver_id = pos receiver_id;
  send_time = pos now;
}

abbrev pub read_message : ℕ → ℕ → Bytes → Message
read_message sender_id receiver_id text = record {
  m_type = 4;
  m_text = text;
  sender_id = sender_id;
  receiver_id = receiver_id;
}

abbrev pub logged : ℕ → Bytes → Server → Server
logged sender_id text s = record s { saved = s.saved ++ ((sender_id, text) ∷ []) }
