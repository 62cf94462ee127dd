-- ===== src/Game/Server/Table.antt =====
-- The invariant of the table `clients` of cw10/zad1/server.c, kept by seating and freeing a player,
-- and where `choose_slot` puts a new one.
use operating_systems_course.Common.{
  ℕ, zero, suc, ◌+◌, ◌<◌, ◌≡◌, refl, sym, ◌∙◌, ◌≢◌, ◌⊎◌, inl, inr, true, [], ◌∷◌, Option, none,
  some, arith, get_elem?, set, length, length-set, replicate,
}
use operating_systems_course.Common.Bytes.{Bytes}
use operating_systems_course.Game.Server.{
  Player, Slots, occupied, get_opponent, Server, start, seat, vacate, max_players,
}
use operating_systems_course.Game.Server.Search.{Named}

-- Twenty slots, `count` of them taken, under different names.
pub record IsTable (clients : Slots) (count : ℕ) : Type 0 where
  pub twenty : length clients ≡ max_players
  pub counted : count ≡ occupied clients
  pub distinct :
      (i j : ℕ) (p q : Player)
      → get_elem? clients i ≡ some (some p)
      → get_elem? clients j ≡ some (some q)
      → p.name ≡ q.name
      → i ≡ j

abbrev pub IsServer : Server → Type 0
IsServer s = IsTable s.clients s.clients_count

empty_slot : (n i : ℕ) (p : Player) → get_elem? (replicate n none) i ≢ some (some p)
empty_slot zero i p e = ground arith
empty_slot (suc n) zero p e = ground arith
empty_slot (suc n) (suc i) p e = empty_slot n i p e

pub start-IsServer : IsServer start
start-IsServer = record {
  twenty = refl;
  counted = refl;
  distinct = λ i j p q e. absurd (empty_slot 20 i p e);
}

pub occupied-seat :
    (xs : Slots) (i : ℕ) (p : Player)
    → get_elem? xs i ≡ some none
    → occupied (set xs i (some p)) ≡ occupied xs + 1
occupied-seat [] i p e = ground arith
occupied-seat (none ∷ xs) zero p e = omega arith
occupied-seat (some q ∷ xs) zero p e = ground arith
occupied-seat (none ∷ xs) (suc i) p e = occupied-seat xs i p e
occupied-seat (some q ∷ xs) (suc i) p e = omega (arith, occupied-seat xs i p e)

pub occupied-vacate :
    (xs : Slots) (i : ℕ) (p : Player)
    → get_elem? xs i ≡ some (some p)
    → occupied (set xs i none) + 1 ≡ occupied xs
occupied-vacate [] i p e = ground arith
occupied-vacate (none ∷ xs) zero p e = ground arith
occupied-vacate (some q ∷ xs) zero p e = omega arith
occupied-vacate (none ∷ xs) (suc i) p e = occupied-vacate xs i p e
occupied-vacate (some q ∷ xs) (suc i) p e = omega (arith, occupied-vacate xs i p e)

-- A slot that is taken after a write held its player before, or it is the one written.
pub get_elem?-seated :
    (xs : Slots) (i j : ℕ) (o : Option Player) {p : Player}
    → get_elem? (set xs i o) j ≡ some (some p)
    → ((j ≡ i) × (o ≡ some p)) ⊎ ((j ≢ i) × (get_elem? xs j ≡ some (some p)))
get_elem?-seated [] i j o e = ground arith
get_elem?-seated (x ∷ xs) zero zero o e = ground arith
get_elem?-seated (x ∷ xs) zero (suc j) o e = inr (omega arith, e)
get_elem?-seated (x ∷ xs) (suc i) zero o e = inr (omega arith, e)
get_elem?-seated (x ∷ xs) (suc i) (suc j) o e = elim (get_elem?-seated xs i j o e) [
  | inl (at, same) ↦ inl (omega arith, same)
  | inr (other, before) ↦ inr ((λ h. other (omega arith)), before)
]

-- Seating a player under a new name in a free slot keeps the invariant.
pub seat-IsServer :
    (i fd : ℕ) (name : Bytes) (s : Server)
    → IsServer s
    → get_elem? s.clients i ≡ some none
    → ((j : ℕ) → ¬ (Named name s.clients j))
    → IsServer (seat i name fd s)
seat-IsServer i fd name s v e new = record {
  twenty = length-set s.clients i _ ∙ v.twenty;
  counted = omega (
    arith,
    v.counted,
    occupied-seat s.clients i (record { name = name; fd = fd; online = true }) e,
  );
  distinct = λ j k p q g h n. elim (get_elem?-seated s.clients i j _ g) [
    | inl (atj, isp) ↦ elim (get_elem?-seated s.clients i k _ h) [
      | inl (atk, isq) ↦ atj ∙ sym atk
      | inr (ne, before) ↦ absurd (new k (q, before, sym n ∙ ground arith))
    ]
    | inr (nej, beforej) ↦ elim (get_elem?-seated s.clients i k _ h) [
      | inl (atk, isq) ↦ absurd (new j (p, beforej, n ∙ ground arith))
      | inr (ne, before) ↦ v.distinct j k p q beforej before n
    ]
  ];
}

-- Freeing a taken slot keeps the invariant.
pub vacate-IsServer :
    (i : ℕ) (p : Player) (s : Server)
    → IsServer s
    → get_elem? s.clients i ≡ some (some p)
    → IsServer (vacate i s)
vacate-IsServer i p s v e = record {
  twenty = length-set s.clients i none ∙ v.twenty;
  counted = omega (arith, v.counted, occupied-vacate s.clients i p e);
  distinct = λ j k q r g h n. elim (get_elem?-seated s.clients i j none g) [
    | inl (at, no_player) ↦ ground arith
    | inr (ne, before) ↦ elim (get_elem?-seated s.clients i k none h) [
      | inl (at', no_player) ↦ ground arith
      | inr (ne', before') ↦ v.distinct j k q r before before' n
    ]
  ];
}

-- The opponent of a slot of the table is another slot of the table, whose opponent is the slot.
pub get_opponent_lem : (i : ℕ) → (get_opponent (get_opponent i) ≡ i) × (get_opponent i ≢ i)
get_opponent_lem i = ground arith

pub get_opponent-lt : (i : ℕ) → i < max_players → get_opponent i < max_players
get_opponent-lt i h = ground arith
