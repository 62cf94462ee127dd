-- ===== src/Game/Server/Add.antt =====
-- `add_client` of cw10/zad1/server.c and the answer to `add`: pairing, refusal, and no dead end.
use operating_systems_course.Common.{
  ℕ, zero, suc, ◌%◌, ◌≤◌, ◌<◌, ◌≡◌, refl, ◌∙◌, ap, ◌≢◌, ◌⊎◌, inl, inr, true, List, [], ◌∷◌, ◌++◌,
  append_assoc, Option, none, some, arith, get_elem?, get_elem?-lt, get_elem?-set_self,
  get_elem?-set_ne, ◌==◌, if◌then◌else◌, Option-cases,
}
use operating_systems_course.Common.Bytes.{Bytes, codes}
use operating_systems_course.Game.Server.{
  Player, Slots, first_named, free_seat, first_null, choose_slot, get_opponent, Server, send, seat,
  add_client, answer_add,
}
use operating_systems_course.Game.Server.Search.{
  Named, first_named-Found, first_named-none, free_seat-FreeSeat, free_seat-none,
  first_null-FirstNull, first_null-none,
}
use operating_systems_course.Game.Server.Table.{IsServer, seat-IsServer}

-- Slot `k` holds somebody.
abbrev pub Taken : Slots → ℕ → Type 0
Taken slots k = (p : Player) × (get_elem? slots k ≡ some (some p))

Taken-le :
    (slots : Slots) (j k : ℕ) (o : Option Player)
    → j ≤ k
    → get_elem? slots k ≡ some o
    → get_elem? slots j ≢ some none
    → Taken slots j
Taken-le [] j k o le e ne = ground arith
Taken-le (none ∷ rest) zero k o le e ne = absurd (ne refl)
Taken-le (some p ∷ rest) zero k o le e ne = (p, refl)
Taken-le (x ∷ rest) (suc j) zero o le e ne = absurd (omega arith)
Taken-le (x ∷ rest) (suc j) (suc k) o le e ne = Taken-le rest j k o (omega arith) e ne

-- A chosen slot is free, and an odd one lies beside a player who waits for an opponent.
pub record Chosen (slots : Slots) (k : ℕ) : Type 0 where
  pub vacant : get_elem? slots k ≡ some none
  pub paired : k % 2 ≡ 1 → Taken slots (get_opponent k)

choose_slot-Chosen : (slots : Slots) {k : ℕ} → choose_slot slots ≡ some k → Chosen slots k
unfolding choose_slot
choose_slot-Chosen slots {k} e = elim (Option-cases (free_seat 0 slots)) [
  | inr (index, found) ↦
      let f = free_seat-FreeSeat 0 slots found in
      let at : k ≡ suc f.before = ground (arith, f.at) in
      record {
        vacant = rw at f.vacant;
        paired = λ odd. (f.lone, rw at (rw (opponent_of_odd f.before f.even) f.taken));
      }
  | inl missing ↦
      let null : first_null 0 slots ≡ some k = rw (missing, choose_slot) at e in
      let f = first_null-FirstNull 0 slots null in
      let at : k ≡ f.distance = f.at ∙ omega arith in
      record {
        vacant = rw at f.vacant;
        paired = λ odd. absurd (no_odd missing f.distance f.vacant f.before (rw at at odd));
      }
]
  where
    opponent_of_odd : (m : ℕ) → m % 2 ≡ 0 → get_opponent (suc m) ≡ m
    opponent_of_odd m h = ground arith

    no_odd :
        free_seat 0 slots ≡ none
        → (d : ℕ) → get_elem? slots d ≡ some none
        → ((m : ℕ) → m < d → get_elem? slots m ≢ some none)
        → ¬ (d % 2 ≡ 1)
    no_odd missing zero vacant before odd = omega arith
    no_odd missing (suc d) vacant before odd =
        let (p, taken) =
          Taken-le slots d (suc d) none (omega arith) vacant (before d (omega arith)) in
        free_seat-none 0 slots d p missing (omega arith) taken vacant

choose_slot-none :
    (slots : Slots) → choose_slot slots ≡ none → (j : ℕ) → get_elem? slots j ≢ some none
unfolding choose_slot
choose_slot-none slots e = elim (Option-cases (free_seat 0 slots)) [
  | inr (index, found) ↦ absurd (ground (arith, found))
  | inl missing ↦ first_null-none 0 slots (rw (missing, choose_slot) at e)
]

-- What `add_client` did when it returned an index.
pub record Added (name : Bytes) (fd : ℕ) (s : Server) (k : ℕ) (s' : Server) : Type 0 where
  pub new : (j : ℕ) → ¬ (Named name s.clients j)
  pub chosen : Chosen s.clients k
  pub result : s' ≡ seat k name fd s
  pub valid : IsServer s'

-- An index that `add_client` returns is that of a free slot, which the player gets under a new
-- name, beside a waiting player if the index is odd; the invariant is kept.
pub add_client-some :
    (name : Bytes) (fd : ℕ) (s : Server) {s' : Server} {k : ℕ}
    → IsServer s
    → add_client name fd s ≡ (some k, s')
    → Added name fd s k s'
unfolding add_client
add_client-some name fd s {s'} {k} v e = elim (Option-cases (first_named name 0 s.clients)) [
  | inr (j, found) ↦ absurd (ground (arith, found))
  | inl absent ↦ elim (Option-cases (choose_slot s.clients)) [
    | inl full ↦ absurd (ground (arith, absent, full))
    | inr (i, here) ↦
        let same : (i ≡ k) × (s' ≡ seat k name fd s) = ground (arith, absent, here) in
        let chosen : Chosen s.clients k = rw (← same.0) (choose_slot-Chosen s.clients here) in
        let new = first_named-none name 0 s.clients absent in
        record {
          new = new;
          chosen = chosen;
          result = same.1;
          valid = rw same.1 (seat-IsServer k fd name s v chosen.vacant new);
        }
  ]
]

-- `add_client` refuses, and changes nothing, only where the name is taken or the table is full.
pub add_client-none :
    (name : Bytes) (fd : ℕ) (s : Server) {s' : Server}
    → add_client name fd s ≡ (none, s')
    → (s' ≡ s)
      × (((j : ℕ) × Named name s.clients j) ⊎ ((j : ℕ) → get_elem? s.clients j ≢ some none))
unfolding add_client
add_client-none name fd s e = elim (Option-cases (first_named name 0 s.clients)) [
  | inr (j, found) ↦
      let (d, at, named) = first_named-Found name 0 s.clients found in
      (ground (arith, found), inl (d, named))
  | inl absent ↦ elim (Option-cases (choose_slot s.clients)) [
    | inl full ↦ (ground (arith, absent, full), inr (choose_slot-none s.clients full))
    | inr (i, here) ↦ absurd (ground (arith, absent, here))
  ]
]

-- In a valid table add_client either returns the index of a free slot, which the player gets under a
-- new name, beside a waiting player if the index is odd, and the table stays valid; or it refuses and
-- changes nothing, and the name is taken or the table is full.
pub add_client-decides :
    (name : Bytes) (fd : ℕ) (s : Server)
    → IsServer s
    → ((k : ℕ) × (s' : Server) × (add_client name fd s ≡ (some k, s')) × Added name fd s k s')
      ⊎ ((add_client name fd s ≡ (none, s))
          × (((j : ℕ) × Named name s.clients j) ⊎ ((j : ℕ) → get_elem? s.clients j ≢ some none)))
add_client-decides name fd s v = by_index (add_client name fd s) refl
  where
    by_index :
        (r : Option ℕ × Server)
        → add_client name fd s ≡ r
        → ((k : ℕ) × (s' : Server) × (add_client name fd s ≡ (some k, s')) × Added name fd s k s')
          ⊎ ((add_client name fd s ≡ (none, s))
              × (((j : ℕ) × Named name s.clients j)
                  ⊎ ((j : ℕ) → get_elem? s.clients j ≢ some none)))
    by_index (some k, s') e = inl ((k, s', e, add_client-some name fd s v e))
    by_index (none, s') e =
        let (same, why) = add_client-none name fd s e in inr ((e ∙ ap (λ t. (none, t)) same, why))

-- The messages of a new pair: to the player who has O, then to the one who has X.
abbrev pub pair_messages : Player → ℕ → ℕ → List (ℕ × Bytes)
pair_messages opponent draw fd =
    if draw % 2 == 0
    then (fd, codes "add:O") ∷ (opponent.fd, codes "add:X") ∷ []
    else (opponent.fd, codes "add:O") ∷ (fd, codes "add:X") ∷ []

-- A refused player is told so, and its connection is closed.
refused_answer :
    (draw fd : ℕ) (s : Server)
    → answer_add draw fd (none, s)
      ≡ some (record s {
        sent = s.sent ++ ((fd, codes "add:name_taken") ∷ []);
        closed = s.closed ++ (fd ∷ []);
      })
unfolding answer_add
refused_answer draw fd s = refl

-- The answer to a player seated at an even index is that there is no enemy yet.
answer_add_even :
    (draw fd k : ℕ) (s : Server)
    → k % 2 ≡ 0
    → answer_add draw fd (some k, s) ≡ some (send fd (codes "add:no_enemy") s)
unfolding answer_add
answer_add_even draw fd k s even = ground arith

-- At an odd index both players are told their marks.
answer_add_odd :
    (draw fd k : ℕ) (name : Bytes) (s : Server) (opponent : Player)
    → k % 2 ≡ 1
    → get_elem? s.clients k ≡ some none
    → get_elem? s.clients (get_opponent k) ≡ some (some opponent)
    → answer_add draw fd (some k, seat k name fd s)
      ≡ some (record (seat k name fd s) { sent = s.sent ++ pair_messages opponent draw fd })
unfolding answer_add
answer_add_odd draw fd k name s opponent odd vacant taken = ground (
  arith,
  get_elem?-set_self s.clients k (some (record { name = name; fd = fd; online = true }))
      (get_elem?-lt s.clients k vacant),
  get_elem?-set_ne s.clients {i = k} {j = get_opponent k}
      (some (record { name = name; fd = fd; online = true })),
  append_assoc s.sent ((fd, codes "add:O") ∷ []) ((opponent.fd, codes "add:X") ∷ []),
  append_assoc s.sent ((opponent.fd, codes "add:O") ∷ []) ((fd, codes "add:X") ∷ []),
)

pub answer_add-IsServer :
    (draw fd : ℕ) (name : Bytes) (s : Server)
    → IsServer s
    → (s' : Server) × (answer_add draw fd (add_client name fd s) ≡ some s') × IsServer s'
answer_add-IsServer draw fd name s v = elim (Option-cases (add_client name fd s).0) [
  | inl refused ↦
      let (same, why) = add_client-none name fd s (λ i. (refused i, (add_client name fd s).1)) in
      (
        record s {
          sent = s.sent ++ ((fd, codes "add:name_taken") ∷ []);
          closed = s.closed ++ (fd ∷ []);
        },
        ap (answer_add draw fd) (λ i. (refused i, same i)) ∙ refused_answer draw fd s,
        v,
      )
  | inr (k, seated) ↦
      let a = add_client-some name fd s v (λ i. (seated i, (add_client name fd s).1)) in
      let placed : add_client name fd s ≡ (some k, seat k name fd s) =
        λ i. (seated i, a.result i) in
      elim (Mod-cases k) [
        | inl even ↦ (
          _,
          ap (answer_add draw fd) placed ∙ answer_add_even draw fd k (seat k name fd s) even,
          seat-IsServer k fd name s v a.chosen.vacant a.new,
        )
        | inr odd ↦
            let (p, taken) = a.chosen.paired odd in
            (
              _,
              ap (answer_add draw fd) placed
                  ∙ answer_add_odd draw fd k name s p odd a.chosen.vacant taken,
              seat-IsServer k fd name s v a.chosen.vacant a.new,
            )
      ]
]
  where
    Mod-cases : (k : ℕ) → (k % 2 ≡ 0) ⊎ (k % 2 ≡ 1)
    Mod-cases k = omega arith
