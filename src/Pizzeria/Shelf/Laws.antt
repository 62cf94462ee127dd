-- ===== src/Pizzeria/Shelf/Laws.antt =====
-- An oven or table as a ring of at most five pizzas: filling and emptying keep it one, no pizza is
-- overwritten and none is taken from an empty slot.
use operating_systems_course.Common.{
  ℕ, zero, suc, ◌+◌, ◌%◌, ◌≤◌, ◌<◌, ◌≡◌, refl, ◌∙◌, ap, ◌≢◌, List, [], ◌∷◌, arith, get_or, set,
  length, length-set, replicate, ◌==◌, if◌then◌else◌,
}
use operating_systems_course.Common.Int.{ℤ, minus_one}
use operating_systems_course.Pizzeria.Shelf.{
  Shelf, empty_shelf, put_in_oven, place_on_table, deliver_from_oven, deliver_from_table,
}

pub get_or-set {ℓ} :
    {A : Type ℓ} (xs : List A) (i j : ℕ) (v d : A)
    → i < length xs
    → get_or (set xs i v) j d ≡ (if i == j then v else get_or xs j d)
get_or-set [] i j v d h = absurd (omega arith)
get_or-set (x ∷ xs) zero zero v d h = refl
get_or-set (x ∷ xs) zero (suc j) v d h = ground arith
get_or-set (x ∷ xs) (suc i) zero v d h = ground arith
get_or-set (x ∷ xs) (suc i) (suc j) v d h = get_or-set xs i j v d (omega arith) ∙ ground arith

-- The slot of the `k`-th pizza in line.
abbrev pub cell : Shelf → ℕ → ℤ
cell s k = get_or s.slots ((s.idx_to_take_out + k) % 5) minus_one

-- Five slots, of which `pizzas` from `idx_to_take_out` on hold pizzas, and the others -1.
pub record IsShelf (s : Shelf) : Type 0 where
  pub five : length s.slots ≡ 5
  pub room : s.pizzas ≤ 5
  pub taking : s.idx_to_take_out < 5
  pub placing : s.idx_to_place ≡ (s.idx_to_take_out + s.pizzas) % 5
  pub holds : (k : ℕ) → k < s.pizzas → cell s k ≢ minus_one
  pub free : (k : ℕ) → s.pizzas ≤ k → k < 5 → cell s k ≡ minus_one

pub empty_shelf-IsShelf : IsShelf empty_shelf
empty_shelf-IsShelf = record {
  five = refl;
  room = omega arith;
  taking = omega arith;
  placing = refl;
  holds = λ k h. absurd (omega arith);
  free = λ k h l. all_empty ((0 + k) % 5);
}
  where
    all_empty : (k : ℕ) → get_or (replicate 5 minus_one) k minus_one ≡ minus_one
    all_empty zero = refl
    all_empty (suc zero) = refl
    all_empty (suc (suc zero)) = refl
    all_empty (suc (suc (suc zero))) = refl
    all_empty (suc (suc (suc (suc zero)))) = refl
    all_empty (suc (suc (suc (suc (suc k))))) = refl

-- With room for one more, the slot that is filled next is free.
pub place-free :
    (s : Shelf) → IsShelf s → s.pizzas < 5 → get_or s.slots s.idx_to_place minus_one ≡ minus_one
place-free s v h = rw v.placing (v.free s.pizzas (omega arith) h)

module _ (s : Shelf) (v : IsShelf s) (type : ℤ) (h : s.pizzas < 5) where
  cell-place :
      (k : ℕ) → k < 5 → cell (place_on_table s type) k ≡ (if s.pizzas == k then type else cell s k)
  unfolding place_on_table
  cell-place k lt = ground (
    arith,
    v.five,
    v.taking,
    v.placing,
    get_or-set s.slots s.idx_to_place ((s.idx_to_take_out + k) % 5) type minus_one,
  )

  pub place-IsShelf : type ≢ minus_one → IsShelf (place_on_table s type)
  unfolding place_on_table
  place-IsShelf real = record {
    five = length-set s.slots s.idx_to_place type ∙ v.five;
    room = omega arith;
    taking = v.taking;
    placing = omega (arith, v.placing);
    holds = λ k lt. ground (arith, cell-place k, v.holds k);
    free = λ k le lt. ground (arith, cell-place k, v.free k);
  }

module _ (s : Shelf) (v : IsShelf s) (h : 0 < s.pizzas) where
  cell-deliver :
      (k : ℕ)
      → k < 5
      → cell (deliver_from_table s).1 k ≡ (if k == 4 then minus_one else cell s (k + 1))
  unfolding deliver_from_table
  cell-deliver k lt = ground (
    arith,
    v.five,
    v.taking,
    v.placing,
    get_or-set s.slots s.idx_to_take_out (((s.idx_to_take_out + 1) % 5 + k) % 5) minus_one
        minus_one,
    shift,
  )
    where
      shift :
          get_or s.slots (((s.idx_to_take_out + 1) % 5 + k) % 5) minus_one
          ≡ get_or s.slots ((s.idx_to_take_out + (k + 1)) % 5) minus_one
      shift = ap (λ i. get_or s.slots i minus_one) (omega arith)

  pub deliver-IsShelf : IsShelf (deliver_from_table s).1
  unfolding deliver_from_table
  deliver-IsShelf = record {
    five = length-set s.slots s.idx_to_take_out minus_one ∙ v.five;
    room = omega arith;
    taking = omega arith;
    placing = omega (arith, v.placing);
    holds = λ k lt. ground (arith, cell-deliver k, v.holds (k + 1));
    free = λ k le lt. ground (arith, cell-deliver k, v.free (k + 1));
  }

  -- What is taken out is a pizza.
  pub deliver-real : (deliver_from_table s).0 ≢ minus_one
  unfolding deliver_from_table
  deliver-real e = v.holds 0 h (ap (λ i. get_or s.slots i minus_one) first ∙ e)
    where
      first : (s.idx_to_take_out + 0) % 5 ≡ s.idx_to_take_out
      first = omega (arith, v.taking)

-- The oven works as the table does.
pub put_in_oven-place : (s : Shelf) (type : ℤ) → put_in_oven s type ≡ place_on_table s type
unfolding put_in_oven place_on_table
put_in_oven-place s type = refl

pub deliver_from_oven_table : (s : Shelf) → deliver_from_oven s ≡ deliver_from_table s
unfolding deliver_from_oven deliver_from_table
deliver_from_oven_table s = refl
