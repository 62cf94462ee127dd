-- ===== src/Common/Strtok.antt =====
-- `strtok` of the C library with one delimiter.
use operating_systems_course.Common.{
  ℕ, ◌≡◌, refl, ◌≢◌, [], ◌∷◌, ◌++◌, Option, none, some, Bool, true, false, ◌⊎◌, inl, inr, ◌||◌, ◌+◌,
  ◌≤◌, ltb, length, length-append, Bool-cases, arith, ◌==◌, if◌then◌else◌,
}
use operating_systems_course.Common.Int.{pos}
use operating_systems_course.Common.Bytes.{Bytes}
use operating_systems_course.Common.Decimal.{is_digit, Digits, NoDigit, show, show-Digits}

-- The bytes up to the next delimiter, and those behind it.
break_at : ℕ → Bytes → Bytes × Bytes
break_at d [] = ([], [])
break_at d (c ∷ s) =
    let (token, rest) = break_at d s in if c == d then ([], s) else (c ∷ token, rest)

-- One call: delimiters in front are skipped, and at the end of the text there is no token. The
-- second part is what the next call, `strtok(NULL, ":")`, goes on with.
unfoldable pub strtok : ℕ → Bytes → Option (Bytes × Bytes)
unfolding break_at
strtok d [] = none
strtok d (c ∷ s) = let more = strtok d s in if c == d then more else some (break_at d (c ∷ s))

-- `strcpy(area, text)`, where `text` is the end of `area`. C leaves a copy between areas that overlap
-- undefined; `forward` tells whether `strcpy` copies them byte by byte from the front.
unfoldable pub strcpy_down : Bool → Bytes → Bytes → Option Bytes
strcpy_down forward area text =
    if forward || ltb (length text + length text) (length area) then some text else none

pub strcpy_down-append :
    (forward : Bool) (s text : Bytes) (c : ℕ)
    → (forward ≡ true) ⊎ (length text ≤ length s)
    → strcpy_down forward (s ++ c ∷ text) text ≡ some text
unfolding strcpy_down
strcpy_down-append forward s text c (inl f) = ground (arith, f)
strcpy_down-append forward s text c (inr short) = ground (arith, short, length-append s (c ∷ text))

-- No byte of the text is the delimiter.
abbrev pub Avoids : ℕ → Bytes → Type 0
Avoids d [] = Unit
Avoids d (c ∷ s) = (c ≢ d) × Avoids d s

break_at-append : (d : ℕ) (s rest : Bytes) → Avoids d s → break_at d (s ++ d ∷ rest) ≡ (s, rest)
unfolding break_at
break_at-append d [] rest h = ground arith
break_at-append d (c ∷ s) rest h = ground (arith, break_at-append d s rest h.1)

break_at_end : (d : ℕ) (s : Bytes) → Avoids d s → break_at d s ≡ (s, [])
unfolding break_at
break_at_end d [] h = refl
break_at_end d (c ∷ s) h = ground (arith, break_at_end d s h.1)

-- A non-empty text without the delimiter, in front of one, is the next token.
pub strtok-append :
    (d : ℕ) (s rest : Bytes) → s ≢ [] → Avoids d s → strtok d (s ++ d ∷ rest) ≡ some (s, rest)
unfolding strtok
strtok-append d [] rest ne h = absurd (ne refl)
strtok-append d (c ∷ s) rest ne h = ground (arith, break_at-append d (c ∷ s) rest h)

pub strtok_last : (d : ℕ) (s : Bytes) → s ≢ [] → Avoids d s → strtok d s ≡ some (s, [])
unfolding strtok
strtok_last d [] ne h = absurd (ne refl)
strtok_last d (c ∷ s) ne h = ground (arith, break_at_end d (c ∷ s) h)

pub append-Avoids : (d : ℕ) (s t : Bytes) → Avoids d s → Avoids d t → Avoids d (s ++ t)
append-Avoids d [] t h k = k
append-Avoids d (c ∷ s) t h k = (h.0, append-Avoids d s t h.1 k)

Digits-Avoids : (d : ℕ) (s : Bytes) → is_digit d ≡ false → Digits s → Avoids d s
Digits-Avoids d [] e h = tt
Digits-Avoids d (c ∷ s) e h = ((λ same. ground (arith, e, h.0, same)), Digits-Avoids d s e h.1)

-- A printed number has no byte but digits.
pub show-Avoids : (d n : ℕ) → is_digit d ≡ false → Avoids d (show (pos n))
show-Avoids d n e = Digits-Avoids d (show (pos n)) e (show-Digits n)

break_at-NoDigit : (d : ℕ) (s : Bytes) → NoDigit s → NoDigit (break_at d s).0
unfolding break_at
break_at-NoDigit d [] h = tt
break_at-NoDigit d (c ∷ s) h = elim (Bool-cases (c == d)) [
  | inl here ↦ rw here tt
  | inr on ↦ rw on h
]

break_at-within :
    (d : ℕ) (s t : Bytes)
    → Avoids d s
    → break_at d (s ++ t) ≡ (s ++ (break_at d t).0, (break_at d t).1)
unfolding break_at
break_at-within d [] t h = refl
break_at-within d (c ∷ s) t h = ground (arith, break_at-within d s t h.1)

-- A token goes on up to the next delimiter: the number `s` with more bytes behind it.
pub strtok-NoDigit :
    (d : ℕ) (s t : Bytes)
    → s ≢ []
    → Avoids d s
    → NoDigit t
    → (t' : Bytes) × (rest : Bytes) × (strtok d (s ++ t) ≡ some (s ++ t', rest)) × NoDigit t'
unfolding strtok
strtok-NoDigit d [] t ne h k = absurd (ne refl)
strtok-NoDigit d (c ∷ s) t ne h k = (
  (break_at d t).0,
  (break_at d t).1,
  ground (arith, break_at-within d (c ∷ s) t h),
  break_at-NoDigit d t k,
)
