-- ===== src/Signals.antt =====
-- The sender and the catcher of cw04/zad3a/sender.c and catcher.c, which count the signals that they
-- send each other. Both run in one mode, with a valid number of signals; printing is left out.
pub mod Steps
pub mod Count
mod Tests
use operating_systems_course.Common.{
  ℕ, zero, suc, ◌+◌, ◌-◌, ◌≡◌, Bool, true, false, Option, none, some, ltb, if◌then◌else◌,
}

pub data Mode : Type 0 where
  kill_mode : Mode
  sigqueue_mode : Mode
  sigrt_mode : Mode

-- A real-time signal is queued each time that it is sent. SIGUSR1 and SIGUSR2 are pending or not,
-- also when they are sent by `sigqueue`.
abbrev pub queues : Mode → Bool
queues kill_mode = false
queues sigqueue_mode = false
queues sigrt_mode = true

abbrev pub sent_to : Mode → ℕ → ℕ
sent_to mode pending = if queues mode then pending + 1 else 1

-- Where the sender stands; a handler can run at any point before the end.
pub data SenderPc : Type 0 where
  sending : ℕ → SenderPc  -- with so many of the first signal still to send
  finishing : SenderPc  -- before sending the second signal
  spinning : SenderPc  -- in `while (1)`
  reported : ℕ → SenderPc  -- gone, with the count that it printed

-- Where the catcher stands.
pub data CatcherPc : Type 0 where
  suspended : CatcherPc  -- in `sigsuspend`
  answering : ℕ → CatcherPc  -- before `i < count`, in handler2
  closing : CatcherPc  -- before sending the second signal
  gone : CatcherPc

-- Both processes, and how often each of the two signals is pending at either.
pub record World : Type 0 where
  pub sender : SenderPc
  pub sender_count : ℕ
  pub first_at_sender : ℕ
  pub second_at_sender : ℕ
  pub catcher : CatcherPc
  pub catcher_count : ℕ
  pub first_at_catcher : ℕ
  pub second_at_catcher : ℕ

abbrev pub begin : ℕ → World
begin signals_number = record {
  sender = sending signals_number;
  sender_count = 0;
  first_at_sender = 0;
  second_at_sender = 0;
  catcher = suspended;
  catcher_count = 0;
  first_at_catcher = 0;
  second_at_catcher = 0;
}

-- `main` of the sender goes on.
unfoldable pub sender_step : Mode → SenderPc → World → Option World
sender_step mode (sending zero) w = some (record w { sender = finishing })
sender_step mode (sending (suc left)) w =
    some (record w { sender = sending left; first_at_catcher = sent_to mode w.first_at_catcher })
sender_step mode finishing w =
    some (record w { sender = spinning; second_at_catcher = sent_to mode w.second_at_catcher })
sender_step mode spinning w = none
sender_step mode (reported count) w = none

-- `handler2` of the catcher goes on; `count` is read in every round, and handler1 may interrupt.
unfoldable pub catcher_step : Mode → CatcherPc → World → Option World
catcher_step mode suspended w = none
catcher_step mode (answering i) w = some (
    if ltb i w.catcher_count
    then record w { catcher = answering (i + 1); first_at_sender = sent_to mode w.first_at_sender }
    else record w { catcher = closing })
catcher_step mode closing w =
    some (record w { catcher = gone; second_at_sender = sent_to mode w.second_at_sender })
catcher_step mode gone w = none

-- A pending signal is handled: `handler1` of the catcher, and its `handler2`, which is not entered
-- while it runs.
unfoldable pub catcher_handler1 : CatcherPc → World → Option World
catcher_handler1 gone w = none
catcher_handler1 _ w =
    if ltb 0 w.first_at_catcher
    then some (record w {
      first_at_catcher = w.first_at_catcher - 1;
      catcher_count = w.catcher_count + 1;
    })
    else none

unfoldable pub catcher_handler2 : CatcherPc → World → Option World
catcher_handler2 suspended w =
    if ltb 0 w.second_at_catcher
    then some (record w { second_at_catcher = w.second_at_catcher - 1; catcher = answering 0 })
    else none
catcher_handler2 _ w = none

-- `handler1` and `handler2` of the sender.
unfoldable pub sender_handler1 : SenderPc → World → Option World
sender_handler1 (reported count) w = none
sender_handler1 _ w =
    if ltb 0 w.first_at_sender
    then some
        (record w { first_at_sender = w.first_at_sender - 1; sender_count = w.sender_count + 1 })
    else none

unfoldable pub sender_handler2 : SenderPc → World → Option World
sender_handler2 (reported count) w = none
sender_handler2 _ w =
    if ltb 0 w.second_at_sender then some (record w { sender = reported w.sender_count }) else none

-- Who goes on. Signals that are pending together may be handled in either order.
pub data Move : Type 0 where
  sender_runs : Move
  catcher_runs : Move
  first_to_catcher : Move
  second_to_catcher : Move
  first_to_sender : Move
  second_to_sender : Move

unfoldable pub move : Mode → Move → World → Option World
unfolding sender_step catcher_step catcher_handler1 catcher_handler2 sender_handler1 sender_handler2
move mode sender_runs w = sender_step mode w.sender w
move mode catcher_runs w = catcher_step mode w.catcher w
move mode first_to_catcher w = catcher_handler1 w.catcher w
move mode second_to_catcher w = catcher_handler2 w.catcher w
move mode first_to_sender w = sender_handler1 w.sender w
move mode second_to_sender w = sender_handler2 w.sender w

-- The states that a run comes to.
pub data Reach (mode : Mode) (w : World) : World → Type 0 where
  here : Reach mode w w
  next : (m : Move) {u v : World} → Reach mode w u → move mode m u ≡ some v → Reach mode w v
