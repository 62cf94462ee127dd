-- ===== src/Chat/Join.antt =====
-- `init_action` of cw06/zad1/server.c: which place a new client gets.
use operating_systems_course.Common.{
  ℕ, zero, suc, ◌+◌, ◌<◌, ◌≡◌, refl, ap, ◌∙◌, ◌⊎◌, inl, inr, true, false, List, [], ◌∷◌, ◌++◌,
  Option, none, some, get_elem?, set, arith, Bool-cases, if◌then◌else◌,
}
use operating_systems_course.Common.Int.{ℤ, pos}
use operating_systems_course.Common.Decimal.{show, atoi}
use operating_systems_course.Chat.{
  Queues, Message, init, Server, running, is_connected, msgsnd, exit, last_free, init_at,
  init_action,
}

-- Every place from `i` on belongs to a client.
abbrev pub AllTaken : List ℤ → Type 0
AllTaken slots = (j : ℕ) (queue : ℤ) → get_elem? slots j ≡ some queue → is_connected queue ≡ true

-- Place `d` is free, and none behind it.
pub record LastFree (slots : List ℤ) (d : ℕ) : Type 0 where
  pub queue : ℤ
  pub here : get_elem? slots d ≡ some queue
  pub vacant : is_connected queue ≡ false
  pub last : (j : ℕ) (q : ℤ) → d < j → get_elem? slots j ≡ some q → is_connected q ≡ true

AllTaken-cons :
    (queue : ℤ) (rest : List ℤ)
    → is_connected queue ≡ true
    → AllTaken rest
    → AllTaken (queue ∷ rest)
AllTaken-cons queue rest c all zero q e = ground (arith, c, e)
AllTaken-cons queue rest c all (suc j) q e = all j q e

LastFree-cons :
    (queue : ℤ) (rest : List ℤ) (d : ℕ) → LastFree rest d → LastFree (queue ∷ rest) (suc d)
LastFree-cons queue rest d f = record {
  queue = f.queue;
  here = f.here;
  vacant = f.vacant;
  last = later queue;
}
  where
    later :
        (head : ℤ) (j : ℕ) (q : ℤ)
        → suc d < j
        → get_elem? (head ∷ rest) j ≡ some q
        → is_connected q ≡ true
    later head zero q lt e = absurd (omega arith)
    later head (suc j) q lt e = f.last j q (omega arith) e

LastFree-head :
    (queue : ℤ) (rest : List ℤ)
    → is_connected queue ≡ false
    → AllTaken rest
    → LastFree (queue ∷ rest) 0
LastFree-head queue rest c all = record { queue = queue; here = refl; vacant = c; last = later }
  where
    later : (j : ℕ) (q : ℤ) → 0 < j → get_elem? (queue ∷ rest) j ≡ some q → is_connected q ≡ true
    later zero q lt e = absurd (omega arith)
    later (suc j) q lt e = all j q e

-- What the loop of `init_action` finds: the last free place, or else what was found before.
pub last_free_lem :
    (i : ℕ) (slots : List ℤ) (found : Option ℕ)
    → (AllTaken slots × (last_free i slots found ≡ found))
      ⊎ ((d : ℕ) × LastFree slots d × (last_free i slots found ≡ some (i + d)))
unfolding last_free
last_free_lem i [] found = inl ((λ j q e. ground arith), refl)
last_free_lem i (queue ∷ rest) found =
    elim (last_free_lem (i + 1) rest (if is_connected queue then found else some i)) [
      | inr (d, f, e) ↦ inr (suc d, LastFree-cons queue rest d f, e ∙ ap some (omega arith))
      | inl (all, e) ↦ elim (Bool-cases (is_connected queue)) [
        | inl c ↦ inl (AllTaken-cons queue rest c all, ground (arith, e, c))
        | inr c ↦ inr (0, LastFree-head queue rest c all, e ∙ ground (arith, c))
      ]
    ]

-- What `init_action` did for a server that goes on.
pub record Joined (k : Queues) (m : Message) (s s' : Server) (d : ℕ) : Type 0 where
  pub place : LastFree s.connected_clients d
  pub accepted : k.accepts (k.msgget (atoi m.m_text)) ≡ true
  pub clients : s'.connected_clients ≡ set s.connected_clients d (k.msgget (atoi m.m_text))
  pub sent : s'.sent ≡ s.sent ++ ((k.msgget (atoi m.m_text), init d (show (pos d))) ∷ [])
  pub saved : s'.saved ≡ s.saved

init_at-Joined :
    (k : Queues) (m : Message) (s : Server) {s' : Server} {d : ℕ}
    → LastFree s.connected_clients d
    → init_at k d m s ≡ running s'
    → Joined k m s s' d
unfolding init_at msgsnd exit
init_at-Joined k m s {d} f e = elim (Bool-cases (k.accepts (k.msgget (atoi m.m_text)))) [
  | inl a ↦ record {
    place = f;
    accepted = a;
    clients = ground (arith, a, e);
    sent = ground (arith, a, e);
    saved = ground (arith, a, e);
  }
  | inr a ↦ absurd (ground (arith, a, e))
]

-- If init_action leaves the server running, then either every place was taken and nothing changes,
-- or the new client gets the last free place, its queue and nothing else is stored, and it alone is
-- sent its number.
pub init_action-Joined :
    (k : Queues) (m : Message) (s : Server) {s' : Server}
    → init_action k m s ≡ running s'
    → (AllTaken s.connected_clients × (s' ≡ s)) ⊎ ((d : ℕ) × Joined k m s s' d)
unfolding init_action
init_action-Joined k m s e = elim (last_free_lem 0 s.connected_clients none) [
  | inl (all, none_free) ↦ inl (all, ground (arith, none_free, e))
  | inr (d, f, found) ↦
      let at_d : last_free 0 s.connected_clients none ≡ some d = found ∙ ap some (omega arith) in
      inr (d, init_at-Joined k m s f (rw (at_d, init_action) at e))
]
