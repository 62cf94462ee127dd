-- ===== src/Chat/Client/Tests.antt =====
-- Concrete runs of the client of cw06/zad1.
use operating_systems_course.Common.{
  ◌≡◌, refl, get_elem?-lt, true, false, [], ◌∷◌, ◌++◌, none, some, arith, get_elem?,
}
use operating_systems_course.Common.Int.{pos, int_of}
use operating_systems_course.Common.Bytes.{codes, str_eq}
use operating_systems_course.Common.Decimal.{show, atoi, atoi-show}
use operating_systems_course.Common.Strtok.{strtok}
use operating_systems_course.Chat.{
  Queues, Message, Server, start, running, init_action, stop_action,
}
use operating_systems_course.Chat.Client.{
  Client, send, handle_input, stop_action as client_stop, stop_message, init_message,
}
use operating_systems_course.Chat.Client.Typed.{one_line, one_message}
use operating_systems_course.Chat.Client.Session.{TakenBehind, stopped, replaced, stop_action_twice}

abbrev kernel : Queues
kernel = record { msgget = λ key. key; accepts = λ queue. true }

abbrev junk : Message
junk = record { m_type = 0; m_text = codes "?"; sender_id = 7; receiver_id = 7 }

abbrev nine : Client
nine = record {
  client_id = 9;
  errno = false;
  sent = [];
  shown = [];
  child_killed = false;
  queue_removed = false;
  exit_code = none;
}

-- Clients 8 and 9.
abbrev chat : Server
chat = record start {
  connected_clients =
      pos 0 ∷ pos 0 ∷ pos 0 ∷ pos 0 ∷ pos 0 ∷ pos 0 ∷ pos 0 ∷ pos 0 ∷ pos 5 ∷ pos 6 ∷ [];
}

-- The line `2ONE 8 y`.
one_line_run : one_line 8 (codes "y") ≡ codes "2ONE 8 y" ++ 10 ∷ []
unfolding show
one_line_run = refl

behind_nine : TakenBehind 9 chat.connected_clients
behind_nine j queue lt e = absurd (omega (arith, lt, get_elem?-lt chat.connected_clients j e))

newcomer : Message
newcomer = init_message junk (pos 4)

stop_action_twice_example :
    let stop = stop_message junk nine in
    ((client_stop true junk nine).sent ≡ stop ∷ stop ∷ [])
    × (stop_action stop chat ≡ running (stopped 9 chat))
    × (init_action kernel newcomer (stopped 9 chat) ≡ running (replaced 9 (pos 4) chat))
    × (get_elem? (replaced 9 (pos 4) chat).connected_clients 9 ≡ some (pos 4))
    × (stop_action stop (replaced 9 (pos 4) chat) ≡ running (stopped 9 (replaced 9 (pos 4) chat)))
    × (get_elem? (stopped 9 (replaced 9 (pos 4) chat)).connected_clients 9 ≡ some (pos 0))
stop_action_twice_example =
    stop_action_twice junk newcomer nine kernel chat (pos 6) (pos 4) refl behind_nine
      (unfold newcomer in atoi-show (pos 4)) refl

-- A word that is no number counts as client 0.
not_a_number :
    handle_input false true junk none (some (codes "2ONE all" ++ 10 ∷ [])) nine
    ≡ some (send (one_message junk nine 0 []) nine)
unfolding handle_input strtok atoi str_eq int_of
not_a_number = refl

stop_run :
    handle_input false true junk none (some (codes "STOP" ++ 10 ∷ [])) nine
    ≡ some (client_stop true junk nine)
unfolding handle_input strtok str_eq
stop_run = refl

-- A text that is longer than the number is copied over itself.
overlap_run :
    handle_input false true junk none (some (codes "2ONE 8 hi you" ++ 10 ∷ [])) nine ≡ none
unfolding handle_input strtok atoi str_eq int_of
overlap_run = refl
