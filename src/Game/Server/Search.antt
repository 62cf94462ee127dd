-- ===== src/Game/Server/Search.antt =====
-- What the search loops of cw10/zad1/server.c find, and that they miss nothing.
use operating_systems_course.Common.{
  ℕ, zero, suc, ◌+◌, ◌%◌, ◌<◌, ◌≡◌, refl, ◌≢◌, ◌⊎◌, inl, inr, [], ◌∷◌, Option, none, some, arith,
  get_elem?, Bool-cases,
}
use operating_systems_course.Common.Bytes.{Bytes, str_eq, str_eq_iff}
use operating_systems_course.Game.Server.{
  Player, Slots, first_named, last_named, free_seat, first_null,
}

-- Slot `j` holds a player of that name.
abbrev pub Named : Bytes → Slots → ℕ → Type 0
Named name slots j = (p : Player) × (get_elem? slots j ≡ some (some p)) × (p.name ≡ name)

-- A result of a search from index `i` on, `j` slots further.
abbrev Found : Bytes → ℕ → Slots → ℕ → Type 0
Found name i slots k = (j : ℕ) × (k ≡ i + j) × Named name slots j

later_Found :
    (name : Bytes) (i : ℕ) {k : ℕ} (slots : Slots) (o : Option Player)
    → Found name (i + 1) slots k
    → Found name i (o ∷ slots) k
later_Found name i slots o (j, e, named) = (suc j, omega arith, named)

pub first_named-Found :
    (name : Bytes) (i : ℕ) (slots : Slots) {k : ℕ}
    → first_named name i slots ≡ some k
    → Found name i slots k
unfolding first_named
first_named-Found name i [] e = ground arith
first_named-Found name i (none ∷ rest) e =
    later_Found name i rest none (first_named-Found name (i + 1) rest e)
first_named-Found name i (some p ∷ rest) e = elim (Bool-cases (str_eq p.name name)) [
  | inl here ↦ (0, ground arith, (p, refl, (str_eq_iff p.name name).0 here))
  | inr further ↦
      later_Found name i rest (some p) (first_named-Found name (i + 1) rest (ground arith))
]

pub first_named-none :
    (name : Bytes) (i : ℕ) (slots : Slots)
    → first_named name i slots ≡ none
    → (j : ℕ) → ¬ (Named name slots j)
unfolding first_named
first_named-none name i [] e j (p, g, h) = ground arith
first_named-none name i (none ∷ rest) e zero (p, g, h) = ground arith
first_named-none name i (none ∷ rest) e (suc j) named = first_named-none name (i + 1) rest e j named
first_named-none name i (some q ∷ rest) e zero (p, g, h) = ground (arith, str_eq_iff q.name name)
first_named-none name i (some q ∷ rest) e (suc j) named =
    first_named-none name (i + 1) rest (ground arith) j named

pub last_named-Found :
    (name : Bytes) (i : ℕ) (index : Option ℕ) (slots : Slots) {k : ℕ}
    → last_named name i index slots ≡ some k
    → (index ≡ some k) ⊎ Found name i slots k
unfolding last_named
last_named-Found name i index [] e = inl e
last_named-Found name i index (none ∷ rest) e = elim (last_named-Found name (i + 1) index rest e) [
  | inl before ↦ inl before
  | inr f ↦ inr (later_Found name i rest none f)
]
last_named-Found name i index (some p ∷ rest) e = elim (last_named-Found name (i + 1) _ rest e) [
  | inr f ↦ inr (later_Found name i rest (some p) f)
  | inl before ↦ elim (Bool-cases (str_eq p.name name)) [
    | inl here ↦ inr (0, ground arith, (p, refl, (str_eq_iff p.name name).0 here))
    | inr further ↦ inl (ground arith)
  ]
]

pub last_named-none :
    (name : Bytes) (i : ℕ) (index : Option ℕ) (slots : Slots)
    → last_named name i index slots ≡ none
    → (index ≡ none) × ((j : ℕ) → ¬ (Named name slots j))
unfolding last_named
last_named-none name i index [] e = (e, λ j (p, g, h). ground arith)
last_named-none name i index (none ∷ rest) e =
    let (before, absent) = last_named-none name (i + 1) index rest e in
    (before, elim [ zero ↦ λ (p, g, h). ground arith | suc j ↦ absent j ])
last_named-none name i index (some q ∷ rest) e =
    let (before, absent) = last_named-none name (i + 1) _ rest e in
    (
      ground arith,
      elim [ zero ↦ λ (p, g, h). ground (arith, str_eq_iff q.name name) | suc j ↦ absent j ],
    )

-- A free seat behind a taken one, at an odd distance from where the search began.
pub record FreeSeat (i : ℕ) (slots : Slots) (k : ℕ) : Type 0 where
  pub before : ℕ
  pub at : k ≡ i + suc before
  pub even : before % 2 ≡ 0
  pub lone : Player
  pub taken : get_elem? slots before ≡ some (some lone)
  pub vacant : get_elem? slots (suc before) ≡ some none

later_FreeSeat :
    (i : ℕ) {k : ℕ} (slots : Slots) (o o' : Option Player)
    → FreeSeat (i + 2) slots k
    → FreeSeat i (o ∷ o' ∷ slots) k
later_FreeSeat i slots o o' f = record {
  before = suc (suc f.before);
  at = omega (arith, f.at);
  even = omega (arith, f.even);
  lone = f.lone;
  taken = f.taken;
  vacant = f.vacant;
}

pub free_seat-FreeSeat :
    (i : ℕ) (slots : Slots) {k : ℕ} → free_seat i slots ≡ some k → FreeSeat i slots k
unfolding free_seat
free_seat-FreeSeat i [] e = ground arith
free_seat-FreeSeat i (none ∷ []) e = ground arith
free_seat-FreeSeat i (some _ ∷ []) e = ground arith
free_seat-FreeSeat i (some p ∷ none ∷ rest) e = record {
  before = 0;
  at = ground arith;
  even = refl;
  lone = p;
  taken = refl;
  vacant = refl;
}
free_seat-FreeSeat i (some p ∷ some q ∷ rest) e =
    later_FreeSeat i rest (some p) (some q) (free_seat-FreeSeat (i + 2) rest e)
free_seat-FreeSeat i (none ∷ o ∷ rest) e =
    later_FreeSeat i rest none o (free_seat-FreeSeat (i + 2) rest e)

-- Where the search fails, no taken even slot has a free one behind it.
pub free_seat-none :
    (i : ℕ) (slots : Slots) (j : ℕ) (p : Player)
    → free_seat i slots ≡ none
    → j % 2 ≡ 0
    → get_elem? slots j ≡ some (some p)
    → get_elem? slots (suc j) ≢ some none
unfolding free_seat
free_seat-none i [] j p e even g h = ground arith
free_seat-none i (o ∷ []) zero p e even g h = ground arith
free_seat-none i (o ∷ []) (suc j) p e even g h = ground arith
free_seat-none i (some q ∷ none ∷ rest) j p e even g h = ground arith
free_seat-none i (some q ∷ some r ∷ rest) zero p e even g h = ground arith
free_seat-none i (some q ∷ some r ∷ rest) (suc zero) p e even g h = omega arith
free_seat-none i (some q ∷ some r ∷ rest) (suc (suc j)) p e even g h =
    free_seat-none (i + 2) rest j p e (omega arith) g h
free_seat-none i (none ∷ o ∷ rest) zero p e even g h = ground arith
free_seat-none i (none ∷ o ∷ rest) (suc zero) p e even g h = omega arith
free_seat-none i (none ∷ o ∷ rest) (suc (suc j)) p e even g h =
    free_seat-none (i + 2) rest j p e (omega arith) g h

-- `first_null` finds a free slot with none before it.
pub record FirstNull (i : ℕ) (slots : Slots) (k : ℕ) : Type 0 where
  pub distance : ℕ
  pub at : k ≡ i + distance
  pub vacant : get_elem? slots distance ≡ some none
  pub before : (m : ℕ) → m < distance → get_elem? slots m ≢ some none

pub first_null-FirstNull :
    (i : ℕ) (slots : Slots) {k : ℕ} → first_null i slots ≡ some k → FirstNull i slots k
unfolding first_null
first_null-FirstNull i [] e = ground arith
first_null-FirstNull i (none ∷ rest) e = record {
  distance = 0;
  at = ground arith;
  vacant = refl;
  before = λ m h. absurd (omega arith);
}
first_null-FirstNull i (some p ∷ rest) e =
    let f = first_null-FirstNull (i + 1) rest e in
    record {
      distance = suc f.distance;
      at = omega (arith, f.at);
      vacant = f.vacant;
      before = elim [ zero ↦ λ h. ground arith | suc m ↦ λ h. f.before m (omega arith) ];
    }

pub first_null-none :
    (i : ℕ) (slots : Slots) → first_null i slots ≡ none → (j : ℕ) → get_elem? slots j ≢ some none
unfolding first_null
first_null-none i [] e j h = ground arith
first_null-none i (none ∷ rest) e j h = ground arith
first_null-none i (some p ∷ rest) e zero h = ground arith
first_null-none i (some p ∷ rest) e (suc j) h = first_null-none (i + 1) rest e j h
