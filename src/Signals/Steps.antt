-- ===== src/Signals/Steps.antt =====
-- What a step of the sender or the catcher of cw04/zad3a keeps of the numbers of signals.
use operating_systems_course.Common.{
  ℕ, zero, suc, ◌+◌, ◌≤◌, ◌≡◌, inl, inr, some, arith, ltb, Bool-cases,
}
use operating_systems_course.Signals.{
  Mode, kill_mode, sigqueue_mode, sigrt_mode, sent_to, SenderPc, sending, finishing, spinning,
  reported, CatcherPc, suspended, answering, closing, gone, World, begin, sender_step, catcher_step,
}

-- The signals that the sender has still to send, and those that the catcher has sent back.
abbrev pub unsent : SenderPc → ℕ
unsent (sending left) = left
unsent _ = 0

-- Nothing is sent back before handler2 runs, one signal a round in it, and no more than `count` in
-- all.
abbrev pub SentBack : CatcherPc → ℕ → ℕ → Type 0
SentBack suspended back count = back ≤ 0
SentBack (answering i) back count = (back ≤ i) × (i ≤ count)
SentBack closing back count = back ≤ count
SentBack gone back count = back ≤ count

abbrev pub Printed : SenderPc → ℕ → Type 0
Printed (reported k) count = k ≤ count
Printed _ count = Unit

pub record Counted (n : ℕ) (w : World) : Type 0 where
  pub out : unsent w.sender + (w.first_at_catcher + w.catcher_count) ≤ n
  pub back : SentBack w.catcher (w.first_at_sender + w.sender_count) w.catcher_count
  pub printed : Printed w.sender w.sender_count

pub begin-Counted : (n : ℕ) → Counted n (begin n)
begin-Counted n = record { out = omega arith; back = omega arith; printed = tt }

sent_to-le : (mode : Mode) (pending : ℕ) → sent_to mode pending ≤ pending + 1
sent_to-le kill_mode pending = omega arith
sent_to-le sigqueue_mode pending = omega arith
sent_to-le sigrt_mode pending = omega arith

pub sender_step-Counted :
    (mode : Mode) (n : ℕ) (p : SenderPc) (w : World) {v : World}
    → w.sender ≡ p
    → Counted n w
    → sender_step mode p w ≡ some v
    → Counted n v
unfolding sender_step
sender_step-Counted mode n (sending zero) w {v} s c e =
    let same : record w { sender = finishing } ≡ v = ground (arith, e) in
    let out = rw s at c.out in
    rw (← same) (record { out = omega (arith, out); back = c.back; printed = tt })
sender_step-Counted mode n (sending (suc left)) w {v} s c e =
    let same : record w {
      sender = sending left;
      first_at_catcher = sent_to mode w.first_at_catcher;
    }
        ≡ v =
      ground (arith, e) in
    let out = rw s at c.out in
    rw (← same) (record {
      out = omega (arith, out, sent_to-le mode w.first_at_catcher);
      back = c.back;
      printed = tt;
    })
sender_step-Counted mode n finishing w {v} s c e =
    let same : record w { sender = spinning; second_at_catcher = sent_to mode w.second_at_catcher }
        ≡ v =
      ground (arith, e) in
    let out = rw s at c.out in
    rw (← same) (record { out = omega (arith, out); back = c.back; printed = tt })
sender_step-Counted mode n spinning w s c e = ground arith
sender_step-Counted mode n (reported k) w s c e = ground arith

pub catcher_step-Counted :
    (mode : Mode) (n : ℕ) (p : CatcherPc) (w : World) {v : World}
    → w.catcher ≡ p
    → Counted n w
    → catcher_step mode p w ≡ some v
    → Counted n v
unfolding catcher_step
catcher_step-Counted mode n suspended w s c e = ground arith
catcher_step-Counted mode n (answering i) w {v} s c e =
    let back = rw s at c.back in
    elim (Bool-cases (ltb i w.catcher_count)) [
      | inl more ↦
          let same : record w {
            catcher = answering (i + 1);
            first_at_sender = sent_to mode w.first_at_sender;
          }
              ≡ v =
            ground (arith, e, more) in
          rw (← same) (record {
            out = c.out;
            back = (omega (arith, back.0, sent_to-le mode w.first_at_sender), ground (arith, more));
            printed = c.printed;
          })
      | inr all ↦
          let same : record w { catcher = closing } ≡ v = ground (arith, e, all) in
          rw (← same)
            (record { out = c.out; back = omega (arith, back.0, back.1); printed = c.printed })
    ]
catcher_step-Counted mode n closing w {v} s c e =
    let same : record w { catcher = gone; second_at_sender = sent_to mode w.second_at_sender } ≡ v =
      ground (arith, e) in
    let back = rw s at c.back in
    rw (← same) (record { out = c.out; back = back; printed = c.printed })
catcher_step-Counted mode n gone w s c e = ground arith
