-- ===== src/Chat/Client/Typed.antt =====
-- What a line typed at the client of cw06/zad1/client.c sends, and what the server does with it.
use operating_systems_course.Common.{ℕ, [], ◌∷◌, ◌++◌}
use operating_systems_course.Common.Int.{pos}
use operating_systems_course.Common.Bytes.{Bytes, codes}
use operating_systems_course.Common.Decimal.{show}
use operating_systems_course.Chat.{Message, Server}
use operating_systems_course.Chat.Client.{Client}

-- `2ONE receiver_id text` and `2ALL text`, as typed.
abbrev pub one_line : ℕ → Bytes → Bytes
one_line receiver_id text = codes "2ONE" ++ 32 ∷ ((show (pos receiver_id) ++ 32 ∷ text) ++ 10 ∷ [])

abbrev pub all_line : Bytes → Bytes
all_line text = codes "2ALL" ++ 32 ∷ (text ++ 10 ∷ [])

-- The messages that they should send.
abbrev pub one_message : Message → Client → ℕ → Bytes → Message
one_message junk c receiver_id text = record junk {
  m_type = 4;
  sender_id = c.client_id;
  receiver_id = receiver_id;
  m_text = text;
}

abbrev pub all_message : Message → Client → Bytes → Message
all_message junk c text = record junk { m_type = 3; sender_id = c.client_id; m_text = text }

-- The server with the message in its file.
abbrev pub logged : Message → Server → Server
logged m s = record s { saved = s.saved ++ ((m.sender_id, m.m_text) ∷ []) }
