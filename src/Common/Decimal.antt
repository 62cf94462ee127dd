-- ===== src/Common/Decimal.antt =====
-- `sprintf("%d")` and `atoi` of the C library, on integers that fit an `int`.
use operating_systems_course.Common.{
  ℕ, zero, suc, ◌+◌, ◌-◌, ◌*◌, ◌/◌, ◌%◌, ◌<◌, ◌≡◌, refl, ap, ◌≢◌, ◌∙◌, ◌⊎◌, Bool, true, false, ◌&&◌,
  ◌||◌, [], ◌∷◌, ◌++◌, inl, inr, arith, ltb, leb, ◌==◌, if◌then◌else◌, Bool-cases,
}
use operating_systems_course.Common.Int.{ℤ, pos, negsuc}
use operating_systems_course.Common.Bytes.{Bytes}

-- The digits of `n` in front of `out`; a number has fewer digits than `fuel > n`.
emit : ℕ → ℕ → Bytes → Bytes
emit zero n out = out
emit (suc fuel) n out =
    let rest = emit fuel (n / 10) ((48 + n % 10) ∷ out) in if ltb n 10 then (48 + n) ∷ out else rest

unfoldable pub decimal : ℕ → Bytes
unfolding emit
decimal n = emit (suc n) n []

-- `sprintf(s, "%d", i)`
unfoldable pub show : ℤ → Bytes
unfolding decimal
show (pos n) = decimal n
show (negsuc n) = b'-' ∷ decimal (suc n)

abbrev pub is_digit : ℕ → Bool
is_digit c = leb 48 c && leb c 57

-- `isspace` in the C locale: blank, tab, newline, vertical tab, form feed, carriage return.
abbrev pub is_space : ℕ → Bool
is_space c = (c == 32) || (leb 9 c && leb c 13)

-- The number that the digits at the front spell, behind the digits of `n`.
unfoldable pub scan : ℕ → Bytes → ℕ
scan n [] = n
scan n (c ∷ s) = let rest = scan (n * 10 + (c - 48)) s in if is_digit c then rest else n

unfoldable pub negate : ℕ → ℤ
negate zero = pos 0
negate (suc n) = negsuc n

signed : Bytes → ℤ
unfolding scan negate
signed [] = pos 0
signed (c ∷ s) =
    if c == b'-'
    then negate (scan 0 s)
    else if c == b'+'
    then pos (scan 0 s)
    else pos (scan 0 (c ∷ s))

-- `atoi(s)`: blanks are skipped, and what follows the digits is ignored.
unfoldable pub atoi : Bytes → ℤ
unfolding signed
atoi [] = pos 0
atoi (c ∷ s) = let rest = atoi s in if is_space c then rest else signed (c ∷ s)

scan-emit : (fuel n : ℕ) (out : Bytes) → n < fuel → scan 0 (emit fuel n out) ≡ scan n out
unfolding emit scan
scan-emit zero n out h = elim h [ ]
scan-emit (suc fuel) n out h = elim (Bool-cases (ltb n 10)) [
  | inl small ↦ ground arith
  | inr large ↦ ground (arith, scan-emit fuel (n / 10) ((48 + n % 10) ∷ out))
]

-- What `emit` writes begins with a digit.
emit-digit :
    (fuel n : ℕ) (out : Bytes)
    → n < fuel
    → (c : ℕ) × (s : Bytes) × (emit fuel n out ≡ c ∷ s) × (is_digit c ≡ true)
unfolding emit
emit-digit zero n out h = elim h [ ]
emit-digit (suc fuel) n out h = elim (Bool-cases (ltb n 10)) [
  | inl small ↦ (48 + n, out, rw small, ground arith)
  | inr large ↦ rw large (emit-digit fuel (n / 10) ((48 + n % 10) ∷ out) (ground arith))
]

atoi-digit : (c : ℕ) (s : Bytes) → is_digit c ≡ true → atoi (c ∷ s) ≡ pos (scan 0 (c ∷ s))
unfolding atoi
atoi-digit c s h = ground arith

atoi-decimal : (n : ℕ) → atoi (decimal n) ≡ pos n
unfolding decimal
atoi-decimal n =
    let (c, s, e, d) = emit-digit (suc n) n [] (omega arith) in
    rw e (atoi-digit c s d ∙ ap pos (rw (← e) (scan-emit (suc n) n [] (omega arith) ∙ scan-nil n)))
  where
    scan-nil : (m : ℕ) → scan m [] ≡ m
    scan-nil m = unfold scan in refl

scan-decimal : (n : ℕ) → scan 0 (decimal n) ≡ n
unfolding decimal scan
scan-decimal n = scan-emit (suc n) n [] (omega arith)

pub scan-show : (n : ℕ) → scan 0 (show (pos n)) ≡ n
unfolding show
scan-show n = scan-decimal n

-- Printing an `int` and reading it back gives the `int`.
pub atoi-show : (i : ℤ) → atoi (show i) ≡ i
unfolding show
atoi-show (pos n) = atoi-decimal n
atoi-show (negsuc n) = rw atoi-minus (rw (scan-decimal (suc n)) (unfold negate in refl))
  where
    atoi-minus : atoi (b'-' ∷ decimal (suc n)) ≡ negate (scan 0 (decimal (suc n)))
    atoi-minus = unfold atoi in refl

-- Every byte of a printed number is a digit or the sign.
abbrev pub IsNumeral : Bytes → Type 0
IsNumeral [] = Unit
IsNumeral (c ∷ s) = ((is_digit c ≡ true) ⊎ (c ≡ b'-')) × IsNumeral s

emit-IsNumeral : (fuel n : ℕ) (out : Bytes) → n < fuel → IsNumeral out → IsNumeral (emit fuel n out)
unfolding emit
emit-IsNumeral zero n out h k = elim h [ ]
emit-IsNumeral (suc fuel) n out h k = elim (Bool-cases (ltb n 10)) [
  | inl small ↦ rw small (inl (ground arith), k)
  | inr large ↦
      rw large
        (emit-IsNumeral fuel (n / 10) ((48 + n % 10) ∷ out) (ground arith) (inl (ground arith), k))
]

pub show-IsNumeral : (i : ℤ) → IsNumeral (show i)
unfolding show decimal
show-IsNumeral (pos n) = emit-IsNumeral (suc n) n [] (omega arith) tt
show-IsNumeral (negsuc n) = (inr refl, emit-IsNumeral (suc (suc n)) (suc n) [] (omega arith) tt)

-- Every byte of a number that is not negative is a digit.
abbrev pub Digits : Bytes → Type 0
Digits [] = Unit
Digits (c ∷ s) = (is_digit c ≡ true) × Digits s

emit-Digits : (fuel n : ℕ) (out : Bytes) → n < fuel → Digits out → Digits (emit fuel n out)
unfolding emit
emit-Digits zero n out h k = elim h [ ]
emit-Digits (suc fuel) n out h k = elim (Bool-cases (ltb n 10)) [
  | inl small ↦ rw small (ground arith, k)
  | inr large ↦
      rw large (emit-Digits fuel (n / 10) ((48 + n % 10) ∷ out) (ground arith) (ground arith, k))
]

pub show-Digits : (n : ℕ) → Digits (show (pos n))
unfolding show decimal
show-Digits n = emit-Digits (suc n) n [] (omega arith) tt

pub show-ne-nil : (i : ℤ) → show i ≢ []
unfolding show decimal
show-ne-nil (pos n) e =
    let (c, s, printed, d) = emit-digit (suc n) n [] (omega arith) in ground (arith, printed, e)
show-ne-nil (negsuc n) e = ground arith

pub show_minus : (n : ℕ) → show (negsuc n) ≡ b'-' ∷ show (pos (suc n))
unfolding show
show_minus n = refl

-- The text does not begin with a digit.
abbrev pub NoDigit : Bytes → Type 0
NoDigit [] = Unit
NoDigit (c ∷ s) = is_digit c ≡ false

scan-append : (n : ℕ) (s t : Bytes) → Digits s → NoDigit t → scan n (s ++ t) ≡ scan n s
unfolding scan
scan-append n [] [] h k = refl
scan-append n [] (c ∷ t) h k = ground (arith, k)
scan-append n (c ∷ s) t h k = ground (arith, h.0, scan-append (n * 10 + (c - 48)) s t h.1 k)

-- What follows the digits of a number is ignored.
pub atoi-append : (n : ℕ) (t : Bytes) → NoDigit t → atoi (show (pos n) ++ t) ≡ pos n
atoi-append n t k = by_digits (show (pos n)) (show-Digits n) (show-ne-nil (pos n)) (scan-show n)
  where
    by_digits : (s : Bytes) → Digits s → s ≢ [] → scan 0 s ≡ n → atoi (s ++ t) ≡ pos n
    by_digits [] h ne e = absurd (ne refl)
    by_digits (c ∷ s) h ne e = atoi-digit c (s ++ t) h.0 ∙ ap pos (scan-append 0 (c ∷ s) t h k ∙ e)
