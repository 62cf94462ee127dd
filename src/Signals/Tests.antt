-- ===== src/Signals/Tests.antt =====
-- Runs of the sender and the catcher of cw04/zad3a with two signals.
use operating_systems_course.Common.{ℕ, ◌≤◌, ◌≡◌, refl, List, [], ◌∷◌, Option, none, some}
use operating_systems_course.Signals.{
  Mode, kill_mode, sigrt_mode, SenderPc, reported, World, begin, Move, sender_runs, catcher_runs,
  first_to_catcher, second_to_catcher, first_to_sender, second_to_sender, move, Reach, here, next,
}
use operating_systems_course.Signals.Count.{counts_bounded}
use operating_systems_course.Signals.Steps.{Printed}

run : Mode → List Move → Option World → Option World
run mode [] o = o
run mode (m ∷ moves) none = none
run mode (m ∷ moves) (some w) = run mode moves (move mode m w)

-- Both are sent before the catcher handles the first: they count once.
abbrev hasty : List Move
hasty =
    sender_runs ∷ sender_runs ∷ sender_runs ∷ sender_runs ∷ first_to_catcher ∷ second_to_catcher
    ∷ catcher_runs ∷ first_to_sender ∷ catcher_runs ∷ catcher_runs ∷ second_to_sender ∷ []

-- Each is handled when it has been sent.
abbrev patient : List Move
patient =
    sender_runs ∷ first_to_catcher ∷ sender_runs ∷ first_to_catcher ∷ sender_runs ∷ sender_runs
    ∷ second_to_catcher ∷ catcher_runs ∷ first_to_sender ∷ catcher_runs ∷ first_to_sender
    ∷ catcher_runs ∷ catcher_runs ∷ second_to_sender ∷ []

abbrev printed_count : SenderPc → Option ℕ
printed_count (reported count) = some count
printed_count _ = none

abbrev ended : Option World → Option ℕ
ended none = none
ended (some w) = printed_count w.sender

hasty_total : ended (run kill_mode hasty (some (begin 2))) ≡ some 1
unfolding run move
hasty_total = refl

patient_total : ended (run kill_mode patient (some (begin 2))) ≡ some 2
unfolding run move
patient_total = refl

-- The first signal of two has come to the catcher.
record Run : Type 0 where
  state : World
  reach : Reach sigrt_mode (begin 2) state

abbrev one_caught : Run
unfolding move
one_caught = record { state = _; reach = next first_to_catcher (next sender_runs here refl) refl }

counts_bounded_example :
    (one_caught.state.sender_count ≤ one_caught.state.catcher_count)
    × (one_caught.state.catcher_count ≤ 2)
    × Printed one_caught.state.sender 2
unfolding move
counts_bounded_example = counts_bounded sigrt_mode 2 one_caught.reach
