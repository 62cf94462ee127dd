-- ===== src/Common/Scanf.antt =====
-- The conversion `%d` of `sscanf` and `fscanf`, and `fgets`.
use operating_systems_course.Common.{
  ℕ, zero, suc, ◌+◌, ◌-◌, ◌*◌, ◌<◌, ◌≤◌, ◌≡◌, ◌≢◌, refl, ◌∙◌, ap, true, false, [], ◌∷◌, ◌++◌,
  Option, none, some, arith, length, ◌==◌, if◌then◌else◌,
}
use operating_systems_course.Common.Int.{ℤ, pos, negsuc}
use operating_systems_course.Common.Bytes.{Bytes}
use operating_systems_course.Common.Decimal.{
  show, is_digit, is_space, scan, scan-show, negate, Digits, show-Digits, show-ne-nil, show_minus,
}
use operating_systems_course.Common.Strtok.{Avoids}

-- The digits at the front, behind the digits of `n`, and what follows them.
unfoldable pub number : ℕ → Bytes → ℕ × Bytes
number n [] = (n, [])
number n (c ∷ s) =
    let more = number (n * 10 + (c - 48)) s in if is_digit c then more else (n, c ∷ s)

unfoldable pub unsigned : (ℕ → ℤ) → Bytes → Option ℤ × Bytes
unfolding number
unsigned f [] = (none, [])
unsigned f (c ∷ s) =
    let (n, rest) = number 0 (c ∷ s) in if is_digit c then (some (f n), rest) else (none, c ∷ s)

-- `%d`: the number, or `none` for a failure, and what is left to read. Blanks are skipped, and a
-- sign with no digit behind it is used up.
unfoldable pub scan_d : Bytes → Option ℤ × Bytes
unfolding unsigned negate
scan_d [] = (none, [])
scan_d (c ∷ s) =
    let more = scan_d s in
    if is_space c
    then more
    else if c == b'-'
    then unsigned negate s
    else if c == b'+'
    then unsigned pos s
    else unsigned pos (c ∷ s)

-- One line with its newline, but no more than `limit` bytes.
unfoldable pub line_of : ℕ → Bytes → Bytes × Bytes
line_of zero s = ([], s)
line_of (suc limit) [] = ([], [])
line_of (suc limit) (c ∷ s) =
    let (line, rest) = line_of limit s in if c == 10 then (10 ∷ [], s) else (c ∷ line, rest)

-- `fgets(buffer, limit + 1, file)`: the line and the rest, `none` at the end of the file.
unfoldable pub fgets : ℕ → Bytes → Option (Bytes × Bytes)
unfolding line_of
fgets limit [] = none
fgets limit (c ∷ s) = some (line_of limit (c ∷ s))

number-Digits :
    (n c : ℕ) (s rest : Bytes)
    → Digits s
    → is_digit c ≡ false
    → number n (s ++ c ∷ rest) ≡ (scan n s, c ∷ rest)
unfolding number scan
number-Digits n c [] rest h e = ground (arith, e)
number-Digits n c (d ∷ s) rest h e =
    ground (arith, h.0, number-Digits (n * 10 + (d - 48)) c s rest h.1 e)

unsigned-Digits :
    (f : ℕ → ℤ) (c : ℕ) (s rest : Bytes)
    → s ≢ []
    → Digits s
    → is_digit c ≡ false
    → unsigned f (s ++ c ∷ rest) ≡ (some (f (scan 0 s)), c ∷ rest)
unfolding unsigned
unsigned-Digits f c [] rest ne h e = absurd (ne refl)
unsigned-Digits f c (d ∷ s) rest ne h e = ground (arith, h.0, number-Digits 0 c (d ∷ s) rest h e)

scan_d-Digits :
    (c : ℕ) (s rest : Bytes)
    → s ≢ []
    → Digits s
    → is_digit c ≡ false
    → scan_d (s ++ c ∷ rest) ≡ unsigned pos (s ++ c ∷ rest)
unfolding scan_d
scan_d-Digits c [] rest ne h e = absurd (ne refl)
scan_d-Digits c (d ∷ s) rest ne h e = ground (arith, h.0)

scan_d-minus : (s : Bytes) → scan_d (b'-' ∷ s) ≡ unsigned negate s
unfolding scan_d
scan_d-minus s = refl

-- A printed number with no digit behind it is read back.
pub scan_d-show :
    (i : ℤ) (c : ℕ) (rest : Bytes)
    → is_digit c ≡ false
    → scan_d (show i ++ c ∷ rest) ≡ (some i, c ∷ rest)
unfolding negate
scan_d-show (pos n) c rest e =
    scan_d-Digits c (show (pos n)) rest (show-ne-nil (pos n)) (show-Digits n) e
    ∙ (unsigned-Digits pos c (show (pos n)) rest (show-ne-nil (pos n)) (show-Digits n) e
        ∙ ap (λ m. (some (pos m), c ∷ rest)) (scan-show n))
scan_d-show (negsuc n) c rest e = rw (show_minus n) (
    scan_d-minus (show (pos (suc n)) ++ c ∷ rest)
    ∙ (unsigned-Digits negate c (show (pos (suc n))) rest (show-ne-nil (pos (suc n)))
          (show-Digits (suc n)) e
        ∙ ap (λ m. (some (negate m), c ∷ rest)) (scan-show (suc n))))

pub scan_d-space : (c : ℕ) (s : Bytes) → is_space c ≡ true → scan_d (c ∷ s) ≡ scan_d s
unfolding scan_d
scan_d-space c s e = ground (arith, e)

length-line_of : (limit : ℕ) (s : Bytes) → length (line_of limit s).1 ≤ length s
unfolding line_of
length-line_of zero s = omega arith
length-line_of (suc limit) [] = omega arith
length-line_of (suc limit) (c ∷ s) = ground (arith, length-line_of limit s)

pub fgets-nil : (limit : ℕ) → fgets limit [] ≡ none
unfolding fgets
fgets-nil limit = refl

-- A line that is read has at least a byte.
pub fgets-shorter :
    (limit c : ℕ) (s : Bytes)
    → 0 < limit
    → (line : Bytes) × (rest : Bytes) × (fgets limit (c ∷ s) ≡ some (line, rest))
      × (length rest ≤ length s)
unfolding fgets line_of
fgets-shorter zero c s h = absurd (omega (arith, h))
fgets-shorter (suc limit) c s h = (
  (line_of (suc limit) (c ∷ s)).0,
  (line_of (suc limit) (c ∷ s)).1,
  refl,
  ground (arith, length-line_of limit s),
)

line_of-line :
    (limit : ℕ) (s rest : Bytes)
    → length s < limit
    → Avoids 10 s
    → line_of limit (s ++ 10 ∷ rest) ≡ (s ++ 10 ∷ [], rest)
unfolding line_of
line_of-line zero s rest h av = absurd (omega (arith, h))
line_of-line (suc limit) [] rest h av = ground arith
line_of-line (suc limit) (c ∷ s) rest h av =
    ground (arith, line_of-line limit s rest (omega (arith, h)) av.1)

-- A line that is shorter than the limit is read as a whole.
pub fgets-line :
    (limit : ℕ) (s rest : Bytes)
    → length s < limit
    → Avoids 10 s
    → fgets limit (s ++ 10 ∷ rest) ≡ some (s ++ 10 ∷ [], rest)
unfolding fgets
fgets-line limit [] rest h av = ap some (line_of-line limit [] rest h av)
fgets-line limit (c ∷ s) rest h av = ap some (line_of-line limit (c ∷ s) rest h av)
