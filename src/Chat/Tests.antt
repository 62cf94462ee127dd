-- ===== src/Chat/Tests.antt =====
-- Concrete runs of the chat server of cw06/zad1.
use operating_systems_course.Common.{ℕ, ◌≡◌, refl, ◌⊎◌, true, [], ◌∷◌, map, arith}
use operating_systems_course.Common.Int.{pos}
use operating_systems_course.Common.Bytes.{codes}
use operating_systems_course.Common.Decimal.{atoi, show}
use operating_systems_course.Chat.{
  Queues, Message, to_one, init, Server, start, running, init_action, handle_message,
}
use operating_systems_course.Chat.Join.{AllTaken, Joined, init_action-Joined}
use operating_systems_course.Chat.Deliver.{clients_from, without, addressed, AllAccept}
use operating_systems_course.Chat.Run.{IsChat, Survived, handle_message-Survived}

-- The queue of a key has the key's number, and every queue takes messages.
abbrev kernel : Queues
kernel = record { msgget = λ key. key; accepts = λ queue. true }

abbrev message : ℕ → Message
message m_type = record { m_type = m_type; m_text = codes "7"; sender_id = 9; receiver_id = 8 }

-- Clients 8 and 9.
abbrev chat : Server
chat = record start {
  connected_clients =
      pos 0 ∷ pos 0 ∷ pos 0 ∷ pos 0 ∷ pos 0 ∷ pos 0 ∷ pos 0 ∷ pos 0 ∷ pos 5 ∷ pos 6 ∷ [];
}

abbrev joined : Server
joined = record chat {
  connected_clients =
      pos 0 ∷ pos 0 ∷ pos 0 ∷ pos 0 ∷ pos 0 ∷ pos 0 ∷ pos 0 ∷ pos 7 ∷ pos 5 ∷ pos 6 ∷ [];
  sent = (pos 7, init 7 (codes "7")) ∷ [];
}

init_action_run : init_action kernel (message 5) chat ≡ running joined
unfolding init_action atoi show
init_action_run = refl

init_action-Joined_example :
    (AllTaken chat.connected_clients × (joined ≡ chat))
    ⊎ ((d : ℕ) × Joined kernel (message 5) chat joined d)
init_action-Joined_example = init_action-Joined kernel (message 5) chat init_action_run

all_accept : AllAccept kernel chat.connected_clients
all_accept j queue e c = refl

to_all_run :
    map (addressed (message 3)) (without 9 (clients_from 0 chat.connected_clients))
    ≡ (pos 5, to_one 9 8 (codes "7")) ∷ []
to_all_run = refl

chat-IsChat : IsChat kernel chat
chat-IsChat = record { places = refl; reachable = all_accept }

handle_message-Survived_example : Survived kernel (handle_message kernel true (message 4) chat)
handle_message-Survived_example =
    handle_message-Survived kernel (message 4) chat chat-IsChat (omega arith)
      ((λ e. absurd (omega (arith, e))), (λ e. (pos 5, refl, refl)), (λ e. refl))
