-- ===== src/Game/Server/Ping.antt =====
-- `ping` of cw10/zad1/server.c: one round removes the players who did not answer the last one, and
-- asks the others. Round is about a whole round.
pub mod Round
use operating_systems_course.Common.{
  ℕ, zero, suc, ◌+◌, ◌<◌, ◌≡◌, refl, sym, ◌∙◌, ap, ◌⊎◌, inl, inr, true, false, List, [], ◌∷◌, ◌++◌,
  Option, none, some, arith, get_elem?, get_elem?-lt, get_elem?-some, length, ℕ_discrete,
  if◌then◌else◌, Bool-cases,
}
use operating_systems_course.Common.Bytes.{Bytes, codes}
use operating_systems_course.Game.Server.{
  Player, Slots, get_opponent, Server, max_players, remove_client, occupied,
}
use operating_systems_course.Game.Server.Table.{IsTable, IsServer}
use operating_systems_course.Game.Server.Remove.{Removed, remove_client-Removed}

-- `if (clients[i] != NULL && !clients[i]->online) remove_client(clients[i]->name);`
unfoldable pub check_slot : Option (Option Player) → Server → Option Server
check_slot none s = none
check_slot (some none) s = some s
check_slot (some (some p)) s = if p.online then some s else remove_client p.name s

-- The first loop of `ping`, over `rounds` slots from `i` on.
unfoldable pub drop_offline : ℕ → ℕ → Server → Option Server
drop_offline zero i s = some s
drop_offline (suc rounds) i s = elim (check_slot (get_elem? s.clients i) s) [
  | none ↦ none
  | some s' ↦ drop_offline rounds (i + 1) s'
]

-- The second loop: every player left is asked, and counts as offline until it answers.
unfoldable pub ask : Slots → Slots
ask [] = []
ask (none ∷ rest) = none ∷ ask rest
ask (some p ∷ rest) = some (record p { online = false }) ∷ ask rest

unfoldable pub asked : Slots → List (ℕ × Bytes)
asked [] = []
asked (none ∷ rest) = asked rest
asked (some p ∷ rest) = (p.fd, codes "ping: ") ∷ asked rest

unfoldable pub ask_all : Server → Server
unfolding ask asked
ask_all s = record s { clients = ask s.clients; sent = s.sent ++ asked s.clients }

-- One round of `ping`, the pause apart.
unfoldable pub ping_round : Server → Option Server
unfolding ask_all drop_offline check_slot
ping_round s = elim (drop_offline max_players 0 s) [ none ↦ none | some s' ↦ some (ask_all s') ]

pub get_opponent-twice : (i : ℕ) → get_opponent (get_opponent i) ≡ i
get_opponent-twice i = ground arith

-- Slot `j` is free or holds a player who has answered.
abbrev pub Quiet : Slots → ℕ → Type 0
Quiet slots j = (p : Player) → get_elem? slots j ≡ some (some p) → p.online ≡ true

-- A slot of `s'` is as in `s`, or free.
abbrev pub Kept : Slots → Slots → Type 0
Kept before after =
    (j : ℕ) → (get_elem? after j ≡ get_elem? before j) ⊎ (get_elem? after j ≡ some none)

Removed-Kept : {s s' : Server} (i : ℕ) → Removed s i s' → Kept s.clients s'.clients
Removed-Kept i r j = elim (ℕ_discrete j i) [
  | yes here ↦ inr (rw here r.gone)
  | no away ↦ elim (ℕ_discrete j (get_opponent i)) [
    | yes opp ↦ inr (rw opp r.opponent_gone)
    | no far ↦ inl (r.others j away far)
  ]
]

pub Kept-Quiet : (a b : Slots) (j : ℕ) → Kept a b → Quiet a j → Quiet b j
Kept-Quiet a b j kept q p e = elim (kept j) [
  | inl same ↦ q p (sym same ∙ e)
  | inr free ↦ ground (arith, free)
]

pub Kept-trans : (a b c : Slots) → Kept a b → Kept b c → Kept a c
Kept-trans a b c ab bc j = elim (bc j) [
  | inr free ↦ inr free
  | inl same ↦ elim (ab j) [ inl same' ↦ inl (same ∙ same') | inr free ↦ inr (same ∙ free) ]
]

-- The player of slot `j` has answered, and an opponent, if there is one, has answered too.
pub record Answered (slots : Slots) (j : ℕ) : Type 0 where
  pub player : Player
  pub there : get_elem? slots j ≡ some (some player)
  pub online : player.online ≡ true
  pub opponent : Quiet slots (get_opponent j)

-- Such a pair outlives the removal of a player who has not answered.
Removed-Answered :
    {s s' : Server} (i : ℕ) (p : Player)
    → get_elem? s.clients i ≡ some (some p)
    → p.online ≡ false
    → Removed s i s'
    → (j : ℕ) → Answered s.clients j
    → get_elem? s'.clients j ≡ get_elem? s.clients j
Removed-Answered {s} i p at off r j a = elim (ℕ_discrete j i) [
  | yes here ↦ absurd (ground (arith, at, off, a.online, rw here at a.there))
  | no away ↦ elim (ℕ_discrete j (get_opponent i)) [
    | yes opp ↦
        let back : get_opponent j ≡ i = ap get_opponent opp ∙ get_opponent-twice i in
        absurd (ground (arith, off, a.opponent p (ap (get_elem? s.clients) back ∙ at)))
    | no far ↦ r.others j away far
  ]
]

-- A slot of `s'` is as in `s`, or its opponent's slot is free.
abbrev pub Touched : Slots → Slots → Type 0
Touched before after =
    (j : ℕ)
    → (get_elem? after j ≡ get_elem? before j) ⊎ (get_elem? after (get_opponent j) ≡ some none)

Removed-Touched : {s s' : Server} (i : ℕ) → Removed s i s' → Touched s.clients s'.clients
Removed-Touched {s' = s'} i r j = elim (ℕ_discrete j i) [
  | yes here ↦ inr (rw here r.opponent_gone)
  | no away ↦ elim (ℕ_discrete j (get_opponent i)) [
    | yes opp ↦
        inr (ap (get_elem? s'.clients) (ap get_opponent opp ∙ get_opponent-twice i) ∙ r.gone)
    | no far ↦ inl (r.others j away far)
  ]
]

-- Who has not answered leaves no opponent.
abbrev pub Cleared : ℕ → Slots → Slots → Type 0
Cleared i before after =
    (j : ℕ)
    → j < i
    → (p : Player) → get_elem? before j ≡ some (some p)
    → p.online ≡ false
    → get_elem? after (get_opponent j) ≡ some none

-- Where the slots before `i` are quiet, only slot `i` has somebody to clear.
pub Quiet-Cleared :
    (i : ℕ) (before after : Slots) → ((j : ℕ) → j < i → Quiet before j) → Cleared i before after
Quiet-Cleared i before after quiet j lt p e off = ground (arith, quiet j lt p e, off)

next-Cleared :
    (i : ℕ) (before after : Slots)
    → ((j : ℕ) → j < i → Quiet before j)
    → ((p : Player)
        → get_elem? before i ≡ some (some p)
        → p.online ≡ false
        → get_elem? after (get_opponent i) ≡ some none)
    → Cleared (i + 1) before after
next-Cleared i before after quiet now j lt p e off = elim (ℕ_discrete j i) [
  | yes here ↦
      ap (λ k. get_elem? after (get_opponent k)) here
      ∙ now p (ap (get_elem? before) (sym here) ∙ e) off
  | no ne ↦ Quiet-Cleared i before after quiet j (omega arith) p e off
]

-- What a part of the first loop has done.
pub record Dropped (s : Server) (i : ℕ) (s' : Server) : Type 0 where
  pub spared : (j : ℕ) → Answered s.clients j → get_elem? s'.clients j ≡ get_elem? s.clients j
  pub valid : IsServer s'
  pub touched : Touched s.clients s'.clients
  pub cleared : Cleared i s.clients s'.clients
  pub kept : Kept s.clients s'.clients
  pub quiet : (j : ℕ) → j < i → Quiet s'.clients j

pub check_slot-Dropped :
    (i : ℕ) (s : Server)
    → IsServer s
    → ((j : ℕ) → j < i → Quiet s.clients j)
    → i < max_players
    → (s' : Server) × (check_slot (get_elem? s.clients i) s ≡ some s') × Dropped s (i + 1) s'
unfolding check_slot
check_slot-Dropped i s v quiet lt =
    let (o, e) = get_elem?-some s.clients i (rw v.twenty lt) in
    let (s', at, d) = by_slot o e in (s', ap (λ x. check_slot x s) e ∙ at, d)
  where
    up_to :
        (t : Slots) → ((j : ℕ) → j < i → Quiet t j) → Quiet t i → (j : ℕ) → j < i + 1 → Quiet t j
    up_to t below here j lt' = elim (ℕ_discrete j i) [
      | yes same ↦ rw same here
      | no ne ↦ below j (omega arith)
    ]

    by_slot :
        (o : Option Player)
        → get_elem? s.clients i ≡ some o
        → (s' : Server) × (check_slot (some o) s ≡ some s') × Dropped s (i + 1) s'
    by_slot none e = (
      s,
      refl,
      record {
        valid = v;
        spared = λ j a. refl;
        touched = λ j. inl refl;
        cleared = next-Cleared i s.clients s.clients quiet (λ p e' off. ground arith);
        kept = λ j. inl refl;
        quiet = up_to s.clients quiet (λ p e'. ground arith);
      },
    )
    by_slot (some p) e = elim (Bool-cases p.online) [
      | inl on ↦ (
        s,
        ground (arith, on),
        record {
          valid = v;
          spared = λ j a. refl;
          touched = λ j. inl refl;
          cleared = next-Cleared i s.clients s.clients quiet (λ q e' off. ground (arith, on, off));
          kept = λ j. inl refl;
          quiet = up_to s.clients quiet (λ q e'. ground arith);
        },
      )
      | inr off ↦
          let (s', at, r) = remove_client-Removed p.name i s v (p, e, refl) in
          (
            s',
            ground (arith, off, at),
            record {
              valid = r.valid;
              spared = Removed-Answered i p e off r;
              touched = Removed-Touched i r;
              cleared = next-Cleared i s.clients s'.clients quiet (λ q e' off'. r.opponent_gone);
              kept = Removed-Kept i r;
              quiet =
                  up_to s'.clients
                    (λ j lt'. Kept-Quiet s.clients s'.clients j (Removed-Kept i r) (quiet j lt'))
                    (λ q e'. ground (arith, r.gone));
            },
          )
    ]

pub Dropped-Answered :
    {s s' : Server} {i : ℕ}
    → Dropped s i s'
    → (j : ℕ) → Answered s.clients j
    → Answered s'.clients j
Dropped-Answered {s} {s' = s'} d j a = record {
  player = a.player;
  there = d.spared j a ∙ a.there;
  online = a.online;
  opponent = Kept-Quiet s.clients s'.clients (get_opponent j) (d.kept) a.opponent;
}
