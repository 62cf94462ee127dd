-- ===== src/Game/Server/Ping/Round.antt =====
-- What a whole round of `ping` of cw10/zad1/server.c leaves.
use operating_systems_course.Common.{
  ℕ, zero, suc, ◌+◌, ◌<◌, ◌≡◌, refl, sym, ◌∙◌, ap, ◌⊎◌, inl, inr, true, false, [], ◌∷◌, Option,
  none, some, arith, get_elem?, get_elem?-lt, length, Bool-cases,
}
use operating_systems_course.Game.Server.{
  Player, Slots, get_opponent, Server, max_players, occupied,
}
use operating_systems_course.Game.Server.Table.{IsTable, IsServer, get_opponent-lt}
use operating_systems_course.Game.Server.Ping.{
  drop_offline, ask, ask_all, ping_round, Quiet, Kept, Touched, Cleared, Quiet-Cleared,
  get_opponent-twice, Kept-trans, Answered, Dropped, Dropped-Answered, check_slot-Dropped,
}

-- A free slot stays free.
Kept-free : (a b : Slots) (j : ℕ) → Kept a b → get_elem? a j ≡ some none → get_elem? b j ≡ some none
Kept-free a b j kept e = elim (kept j) [ inl same ↦ same ∙ e | inr free ↦ free ]

Touched-trans : (a b c : Slots) → Touched a b → Touched b c → Kept b c → Touched a c
Touched-trans a b c ab bc kept j = elim (ab j) [
  | inr free ↦ inr (Kept-free b c (get_opponent j) kept free)
  | inl same ↦ elim (bc j) [ inl same' ↦ inl (same' ∙ same) | inr free ↦ inr free ]
]

Cleared-trans : (i : ℕ) (a b c : Slots) → Touched a b → Cleared i b c → Kept b c → Cleared i a c
Cleared-trans i a b c ab bc kept j lt p e off = elim (ab j) [
  | inr free ↦ Kept-free b c (get_opponent j) kept free
  | inl same ↦ bc j lt p (same ∙ e) off
]

drop_offline-Dropped :
    (rounds i : ℕ) (s : Server)
    → i + rounds ≡ max_players
    → IsServer s
    → ((j : ℕ) → j < i → Quiet s.clients j)
    → (s' : Server) × (drop_offline rounds i s ≡ some s') × Dropped s max_players s'
unfolding drop_offline
drop_offline-Dropped zero i s e v quiet = (
  s,
  refl,
  record {
    valid = v;
    spared = λ j a. refl;
    touched = λ j. inl refl;
    cleared = Quiet-Cleared max_players s.clients s.clients (λ j lt. quiet j (omega arith));
    kept = λ j. inl refl;
    quiet = λ j lt. quiet j (omega arith);
  },
)
drop_offline-Dropped (suc rounds) i s e v quiet =
    let (s', at, d) = check_slot-Dropped i s v quiet (omega arith) in
    let (s'', at', d') = drop_offline-Dropped rounds (i + 1) s' (omega arith) d.valid d.quiet in
    (
      s'',
      rw (at, drop_offline) at',
      record {
        valid = d'.valid;
        touched = Touched-trans s.clients s'.clients s''.clients d.touched d'.touched d'.kept;
        cleared =
            Cleared-trans max_players s.clients s'.clients s''.clients d.touched d'.cleared d'.kept;
        spared = λ j a. d'.spared j (Dropped-Answered d j a) ∙ d.spared j a;
        kept = Kept-trans s.clients s'.clients s''.clients d.kept d'.kept;
        quiet = d'.quiet;
      },
    )

length-ask : (xs : Slots) → length (ask xs) ≡ length xs
unfolding ask
length-ask [] = refl
length-ask (none ∷ xs) = ap suc (length-ask xs)
length-ask (some p ∷ xs) = ap suc (length-ask xs)

occupied-ask : (xs : Slots) → occupied (ask xs) ≡ occupied xs
unfolding ask
occupied-ask [] = refl
occupied-ask (none ∷ xs) = occupied-ask xs
occupied-ask (some p ∷ xs) = ap suc (occupied-ask xs)

get_elem?-ask-some :
    (xs : Slots) (j : ℕ) {p : Player}
    → get_elem? xs j ≡ some (some p)
    → get_elem? (ask xs) j ≡ some (some (record p { online = false }))
unfolding ask
get_elem?-ask-some [] j e = ground arith
get_elem?-ask-some (none ∷ xs) zero e = ground arith
get_elem?-ask-some (some p ∷ xs) zero e = ground arith
get_elem?-ask-some (none ∷ xs) (suc j) e = get_elem?-ask-some xs j e
get_elem?-ask-some (some p ∷ xs) (suc j) e = get_elem?-ask-some xs j e

get_elem?-ask :
    (xs : Slots) (j : ℕ) {q : Player}
    → get_elem? (ask xs) j ≡ some (some q)
    → (p : Player) × (get_elem? xs j ≡ some (some p)) × (q ≡ record p { online = false })
unfolding ask
get_elem?-ask [] j e = ground arith
get_elem?-ask (none ∷ xs) zero e = ground arith
get_elem?-ask (some p ∷ xs) zero e = (p, refl, ground arith)
get_elem?-ask (none ∷ xs) (suc j) e = get_elem?-ask xs j e
get_elem?-ask (some p ∷ xs) (suc j) e = get_elem?-ask xs j e

ask-IsTable : (xs : Slots) (count : ℕ) → IsTable xs count → IsTable (ask xs) count
ask-IsTable xs count v = record {
  twenty = length-ask xs ∙ v.twenty;
  counted = v.counted ∙ sym (occupied-ask xs);
  distinct = λ i j p q g h n.
      let (p', g', ep) = get_elem?-ask xs i g in
      let (q', h', eq) = get_elem?-ask xs j h in
      v.distinct i j p' q' g' h' (ground (arith, ep, eq));
}

-- What a whole round leaves: a valid table. Who is left had answered and had no opponent, or one who
-- had answered; and each such player is left. Those who are left have their old names and sockets,
-- and count as offline until they answer again.
pub record Pinged (s s' : Server) : Type 0 where
  pub valid : IsServer s'
  pub stayed :
      (j : ℕ) (q : Player)
      → get_elem? s'.clients j ≡ some (some q)
      → (p : Player) × (get_elem? s.clients j ≡ some (some p))
        × (p.online ≡ true)
        × Quiet s.clients (get_opponent j)
        × (q ≡ record p { online = false })
  pub answered_stay :
      (j : ℕ) (a : Answered s.clients j)
      → get_elem? s'.clients j ≡ some (some (record a.player { online = false }))

opponent-Quiet :
    (s d : Server) (j : ℕ) (p : Player)
    → Cleared max_players s.clients d.clients
    → get_elem? d.clients j ≡ some (some p)
    → get_opponent j < max_players
    → Quiet s.clients (get_opponent j)
opponent-Quiet s d j p cleared there lt q e = elim (Bool-cases q.online) [
  | inl on ↦ on
  | inr off ↦
      let free =
        ap (get_elem? d.clients) (sym (get_opponent-twice j))
        ∙ cleared (get_opponent j) lt q e off in
      ground (arith, there, free)
]

-- A round of ping on a valid table never follows a null pointer, and leaves a valid table: the
-- players who are left are exactly those who had answered the last round and had no opponent, or
-- one who had answered too.
pub ping_round-Pinged :
    (s : Server) → IsServer s → (s' : Server) × (ping_round s ≡ some s') × Pinged s s'
unfolding ping_round
ping_round-Pinged s v =
    let (d, at, dropped) =
      drop_offline-Dropped max_players 0 s refl v (λ j lt. absurd (omega arith)) in
    (
      ask_all d,
      rw (at, ping_round) refl,
      record {
        valid = ask-IsTable d.clients d.clients_count dropped.valid;
        stayed = λ j q e.
            let (p, there, shape) = get_elem?-ask d.clients j e in
            let before = unkept (dropped.kept j) there in
            (
              p,
              before,
              dropped.quiet j (rw dropped.valid.twenty at (get_elem?-lt d.clients j there)) p there,
              opponent-Quiet s d j p dropped.cleared there
                  (get_opponent-lt j (rw dropped.valid.twenty at (get_elem?-lt d.clients j there))),
              shape,
            );
        answered_stay = λ j a. get_elem?-ask-some d.clients j (dropped.spared j a ∙ a.there);
      },
    )
  where
    unkept :
        {a b : Option (Option Player)} {p : Player}
        → (b ≡ a) ⊎ (b ≡ some none)
        → b ≡ some (some p)
        → a ≡ some (some p)
    unkept (inl same) e = sym same ∙ e
    unkept (inr free) e = ground arith
