-- ===== src/Blocks/Save.antt =====
-- Where `save_in_memory` of cw01/zad1/lib.c puts a result, and that `remove_block` takes it away.
use operating_systems_course.Common.{
  ℕ, zero, suc, ◌+◌, ◌*◌, ◌≤◌, ◌<◌, ◌≡◌, ◌∙◌, refl, ap, ◌⊎◌, inl, inr, List, [], ◌∷◌, Option, none,
  some, get_elem?, set, length, arith, ltb, Bool-cases, get_elem?-set_self,
}
use operating_systems_course.Common.Int.{pos}
use operating_systems_course.Common.Bytes.{Bytes}
use operating_systems_course.Blocks.{
  MemoryBlock, WrappedArray, live, empty_index, block_of, save_at, save_in_memory, remove_block,
  remove_found,
}

-- The array has room for twice the blocks it counts, and counts at least one.
pub record IsArray (a : WrappedArray) : Type 0 where
  pub counted : 0 < a.size
  pub room : length a.blocks ≡ a.size * 2

-- Every block before `index` is taken.
abbrev pub TakenBelow : ℕ → List (Option MemoryBlock) → Type 0
TakenBelow index blocks =
    (j : ℕ) → j < index → (b : MemoryBlock) × (get_elem? blocks j ≡ some (some b))

-- `d` blocks from `index` on.
pub record Stops (size index : ℕ) (rest : List (Option MemoryBlock)) (d : ℕ) : Type 0 where
  pub found : empty_index size index rest ≡ some (index + d)
  pub within : index + d ≤ size
  pub below : TakenBelow d rest
  pub choice : (get_elem? rest d ≡ some none) ⊎ (index + d ≡ size)

TakenBelow-cons :
    (b : MemoryBlock) (rest : List (Option MemoryBlock)) (d : ℕ)
    → TakenBelow d rest
    → TakenBelow (suc d) (some b ∷ rest)
TakenBelow-cons b rest d t zero lt = (b, refl)
TakenBelow-cons b rest d t (suc j) lt = t j (omega arith)

empty_index-Stops :
    (size index : ℕ) (rest : List (Option MemoryBlock))
    → index ≤ size
    → size < index + length rest
    → (d : ℕ) × Stops size index rest d
unfolding empty_index
empty_index-Stops size index [] le room = absurd (omega arith)
empty_index-Stops size index (none ∷ rest) le room = (
  0,
  record {
    found = ap some (omega arith);
    within = omega arith;
    below = λ j lt. absurd (omega arith);
    choice = inl refl;
  },
)
empty_index-Stops size index (some b ∷ rest) le room = elim (Bool-cases (ltb index size)) [
  | inl lt ↦
      let (d, s) = empty_index-Stops size (index + 1) rest (ground (arith, lt)) (omega arith) in
      (
        suc d,
        record {
          found = rw lt (s.found ∙ ap some (omega arith));
          within = omega (arith, s.within);
          below = TakenBelow-cons b rest d s.below;
          choice = elim s.choice [ inl e ↦ inl e | inr e ↦ inr (omega (arith, e)) ];
        },
      )
  | inr ge ↦ (
    0,
    record {
      found = rw ge (ap some (omega arith));
      within = omega arith;
      below = λ j lt. absurd (omega arith);
      choice = inr (ground (arith, ge));
    },
  )
]

set_back :
    (xs : List (Option MemoryBlock)) (i : ℕ) (v : Option MemoryBlock)
    → get_elem? xs i ≡ some none
    → set (set xs i v) i none ≡ xs
set_back [] i v e = refl
set_back (x ∷ xs) zero v e = ground (arith, e)
set_back (x ∷ xs) (suc i) v e = ap (λ ys. x ∷ ys) (set_back xs i v e)

abbrev pub filled : WrappedArray → ℕ → Bytes → WrappedArray
filled a i file = record a { blocks = set a.blocks i (some (block_of file)) }

-- What `save_in_memory` did when it returned `i`.
pub record Saved (file : Bytes) (a : WrappedArray) (i : ℕ) : Type 0 where
  pub saved : save_in_memory (some file) (live a) ≡ some (i, live (filled a i file))
  pub first : TakenBelow i a.blocks
  pub back :
      i < a.size
      → (get_elem? a.blocks i ≡ some none)
        × (remove_block (pos i) (live (filled a i file)) ≡ some (live a))
  pub full :
      a.size ≤ i
      → (i ≡ a.size)
        × (remove_block (pos i) (live (filled a i file)) ≡ some (live (filled a i file)))

remove_block-filled :
    (file : Bytes) (a : WrappedArray) (i : ℕ)
    → i < a.size
    → get_elem? a.blocks i ≡ some none
    → i < length a.blocks
    → remove_block (pos i) (live (filled a i file)) ≡ some (live a)
unfolding remove_block remove_found
remove_block-filled file a i lt e inside = ground (
  arith,
  lt,
  get_elem?-set_self a.blocks i (some (block_of file)) inside,
  set_back a.blocks i (some (block_of file)) e,
)

-- In a table that create_table could have made, save_in_memory stores the file and returns a block's
-- index, all blocks before which are taken. If it is below the table's size, then the block was
-- free, and remove_block undoes the call; otherwise it is the size itself, and remove_block does
-- nothing.
pub save_in_memory-Saved : (file : Bytes) (a : WrappedArray) → IsArray a → (i : ℕ) × Saved file a i
unfolding save_in_memory save_at remove_block
save_in_memory-Saved file a v =
    let (i, s) =
      empty_index-Stops a.size 0 a.blocks (omega arith) (omega (arith, v.counted, v.room)) in
    let found : empty_index a.size 0 a.blocks ≡ some i = s.found ∙ ap some (omega arith) in
    (
      i,
      record {
        saved = ap (save_at file a) found;
        first = s.below;
        back = λ lt. elim s.choice [
          | inl e ↦ (e, remove_block-filled file a i lt e (omega (arith, v.room)))
          | inr e ↦ absurd (omega (arith, e))
        ];
        full = λ ge. elim s.choice [
          | inl e ↦ (omega (arith, s.within, ge), ground (arith, ge))
          | inr e ↦ (omega (arith, e), ground (arith, ge))
        ];
      },
    )
