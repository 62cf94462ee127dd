-- ===== src/Signals/Count.antt =====
-- How many signals the sender of cw04/zad3a gets back.
use operating_systems_course.Common.{
  ℕ, ◌+◌, ◌-◌, ◌≤◌, ◌<◌, ◌≡◌, refl, inl, inr, none, some, arith, ltb, if◌then◌else◌, Bool-cases,
}
use operating_systems_course.Signals.{
  Mode, SenderPc, sending, finishing, spinning, reported, CatcherPc, suspended, answering, closing,
  gone, World, begin, catcher_handler1, catcher_handler2, sender_handler1, sender_handler2, Move,
  sender_runs, catcher_runs, first_to_catcher, second_to_catcher, first_to_sender, second_to_sender,
  move, Reach, here, next,
}
use operating_systems_course.Signals.Steps.{
  SentBack, Printed, Counted, begin-Counted, sender_step-Counted, catcher_step-Counted,
}

SentBack-more : (p : CatcherPc) (b c : ℕ) → SentBack p b c → SentBack p b (c + 1)
SentBack-more suspended b c h = h
SentBack-more (answering i) b c h = (h.0, omega (arith, h.1))
SentBack-more closing b c h = omega (arith, h)
SentBack-more gone b c h = omega (arith, h)

abbrev caught : World → World
caught w = record w {
  first_at_catcher = w.first_at_catcher - 1;
  catcher_count = w.catcher_count + 1;
}

caught-Counted :
    (n : ℕ) (w : World) {v : World}
    → Counted n w
    → (if ltb 0 w.first_at_catcher then some (caught w) else none) ≡ some v
    → Counted n v
caught-Counted n w {v} c e = elim (Bool-cases (ltb 0 w.first_at_catcher)) [
  | inl pending ↦
      let same : caught w ≡ v = ground (arith, e, pending) in
      let one : 0 < w.first_at_catcher = ground (arith, pending) in
      rw (← same) (record {
        out = omega (arith, c.out, one);
        back = SentBack-more w.catcher _ w.catcher_count c.back;
        printed = c.printed;
      })
  | inr nothing ↦ ground (arith, e, nothing)
]

catcher_handler1-Counted :
    (n : ℕ) (p : CatcherPc) (w : World) {v : World}
    → Counted n w
    → catcher_handler1 p w ≡ some v
    → Counted n v
unfolding catcher_handler1
catcher_handler1-Counted n suspended w c e = caught-Counted n w c e
catcher_handler1-Counted n (answering i) w c e = caught-Counted n w c e
catcher_handler1-Counted n closing w c e = caught-Counted n w c e
catcher_handler1-Counted n gone w c e = ground arith

catcher_handler2-Counted :
    (n : ℕ) (p : CatcherPc) (w : World) {v : World}
    → w.catcher ≡ p
    → Counted n w
    → catcher_handler2 p w ≡ some v
    → Counted n v
unfolding catcher_handler2
catcher_handler2-Counted n suspended w {v} s c e =
    let back = rw s at c.back in
    elim (Bool-cases (ltb 0 w.second_at_catcher)) [
      | inl pending ↦
          let same : record w { second_at_catcher = w.second_at_catcher - 1; catcher = answering 0 }
              ≡ v =
            ground (arith, e, pending) in
          rw (← same) (record { out = c.out; back = (back, omega arith); printed = c.printed })
      | inr nothing ↦ ground (arith, e, nothing)
    ]
catcher_handler2-Counted n (answering i) w s c e = ground arith
catcher_handler2-Counted n closing w s c e = ground arith
catcher_handler2-Counted n gone w s c e = ground arith

-- A signal that the sender handles is no longer pending.
SentBack-same : (p : CatcherPc) (b b' c : ℕ) → b ≡ b' → SentBack p b c → SentBack p b' c
SentBack-same p b b' c e h = rw (← e) h

-- While the sender runs, it has printed nothing.
abbrev Running : SenderPc → Type 0
Running (reported k) = ⊥
Running _ = Unit

Printed-Running : (p : SenderPc) (count : ℕ) → Running p → Printed p count
Printed-Running (sending left) count r = tt
Printed-Running finishing count r = tt
Printed-Running spinning count r = tt
Printed-Running (reported k) count r = absurd r

abbrev returned : World → World
returned w = record w { first_at_sender = w.first_at_sender - 1; sender_count = w.sender_count + 1 }

returned-Counted :
    (n : ℕ) (w : World) {v : World}
    → Running w.sender
    → Counted n w
    → (if ltb 0 w.first_at_sender then some (returned w) else none) ≡ some v
    → Counted n v
returned-Counted n w {v} r c e = elim (Bool-cases (ltb 0 w.first_at_sender)) [
  | inl pending ↦
      let same : returned w ≡ v = ground (arith, e, pending) in
      let one : 0 < w.first_at_sender = ground (arith, pending) in
      rw (← same) (record {
        out = c.out;
        back = SentBack-same w.catcher _ _ w.catcher_count (omega (arith, one)) c.back;
        printed = Printed-Running w.sender _ r;
      })
  | inr nothing ↦ ground (arith, e, nothing)
]

sender_handler1-Counted :
    (n : ℕ) (p : SenderPc) (w : World) {v : World}
    → w.sender ≡ p
    → Counted n w
    → sender_handler1 p w ≡ some v
    → Counted n v
unfolding sender_handler1
sender_handler1-Counted n (sending left) w s c e = returned-Counted n w (rw s tt) c e
sender_handler1-Counted n finishing w s c e = returned-Counted n w (rw s tt) c e
sender_handler1-Counted n spinning w s c e = returned-Counted n w (rw s tt) c e
sender_handler1-Counted n (reported k) w s c e = ground arith

abbrev printing : World → World
printing w = record w { sender = reported w.sender_count }

printing-Counted :
    (n : ℕ) (w : World) {v : World}
    → Counted n w
    → (if ltb 0 w.second_at_sender then some (printing w) else none) ≡ some v
    → Counted n v
printing-Counted n w {v} c e = elim (Bool-cases (ltb 0 w.second_at_sender)) [
  | inl pending ↦
      let same : printing w ≡ v = ground (arith, e, pending) in
      rw (← same) (record { out = omega (arith, c.out); back = c.back; printed = omega arith })
  | inr nothing ↦ ground (arith, e, nothing)
]

sender_handler2-Counted :
    (n : ℕ) (p : SenderPc) (w : World) {v : World}
    → Counted n w
    → sender_handler2 p w ≡ some v
    → Counted n v
unfolding sender_handler2
sender_handler2-Counted n (sending left) w c e = printing-Counted n w c e
sender_handler2-Counted n finishing w c e = printing-Counted n w c e
sender_handler2-Counted n spinning w c e = printing-Counted n w c e
sender_handler2-Counted n (reported k) w c e = ground arith

move-Counted :
    (mode : Mode) (n : ℕ) (m : Move) (w : World) {v : World}
    → Counted n w
    → move mode m w ≡ some v
    → Counted n v
unfolding move
move-Counted mode n sender_runs w c e = sender_step-Counted mode n w.sender w refl c e
move-Counted mode n catcher_runs w c e = catcher_step-Counted mode n w.catcher w refl c e
move-Counted mode n first_to_catcher w c e = catcher_handler1-Counted n w.catcher w c e
move-Counted mode n second_to_catcher w c e = catcher_handler2-Counted n w.catcher w refl c e
move-Counted mode n first_to_sender w c e = sender_handler1-Counted n w.sender w refl c e
move-Counted mode n second_to_sender w c e = sender_handler2-Counted n w.sender w c e

Reach-Counted : (mode : Mode) (n : ℕ) {w : World} → Reach mode (begin n) w → Counted n w
Reach-Counted mode n here = begin-Counted n
Reach-Counted mode n (next m {u} r e) = move-Counted mode n m u (Reach-Counted mode n r) e

back-le : (p : CatcherPc) (b c : ℕ) → SentBack p b c → b ≤ c
back-le suspended b c h = omega (arith, h)
back-le (answering i) b c h = omega (arith, h.0, h.1)
back-le closing b c h = h
back-le gone b c h = h

-- In every mode and in every order in which the signals are handled, the sender counts at most the
-- signals that the catcher has counted, of which there are at most signals_number, and it prints no
-- more than that.
pub counts_bounded :
    (mode : Mode) (signals_number : ℕ) {w : World}
    → Reach mode (begin signals_number) w
    → (w.sender_count ≤ w.catcher_count)
      × (w.catcher_count ≤ signals_number)
      × Printed w.sender signals_number
counts_bounded mode n {w} r =
    let c = Reach-Counted mode n r in
    let all = back-le w.catcher _ w.catcher_count c.back in
    (
      omega (arith, all),
      omega (arith, c.out),
      Printed-le w.sender w.sender_count n (omega (arith, all, c.out)) c.printed,
    )
  where
    Printed-le : (p : SenderPc) (k n : ℕ) → k ≤ n → Printed p k → Printed p n
    Printed-le (sending left) k n h q = tt
    Printed-le finishing k n h q = tt
    Printed-le spinning k n h q = tt
    Printed-le (reported j) k n h q = omega (arith, h, q)
