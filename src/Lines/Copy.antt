-- ===== src/Lines/Copy.antt =====
-- `lib_open_file` and `sys_open_file` of cw02/zad1 against the list of lines.
use operating_systems_course.Common.{
  ℕ, zero, suc, ◌+◌, ◌≤◌, ◌<◌, ◌≡◌, refl, sym, ◌∙◌, ap, Bool, true, false, [], ◌∷◌, ◌++◌, some,
  arith, length, Bool-cases, inl, inr, append-nil, append_assoc,
}
use operating_systems_course.Common.Bytes.{Bytes}
use operating_systems_course.Lines.{
  scan_line, copy_line, lib_loop, sys_loop, lib_open_file, sys_open_file,
}
use operating_systems_course.Lines.Split.{
  split, keep_text, split-copy_line, length-copy_line, copy_line-eof, scan_line-text,
  scan_line-blank,
}

-- The first line, kept or not, and then the rest.
keep_text-text :
    (c : ℕ) (s : Bytes)
    → (scan_line (c ∷ s)).write_line ≡ true
    → keep_text (split (c ∷ s))
      ≡ (copy_line (c ∷ s)).line ++ keep_text (split (copy_line (c ∷ s)).rest)
keep_text-text c s h = ap keep_text (split-copy_line c s) ∙ rw (sym (scan_line-text (c ∷ s)), h)

keep_text-blank :
    (c : ℕ) (s : Bytes)
    → (scan_line (c ∷ s)).write_line ≡ false
    → keep_text (split (c ∷ s)) ≡ keep_text (split (scan_line (c ∷ s)).rest)
keep_text-blank c s h =
    ap keep_text (split-copy_line c s)
    ∙ rw (sym (scan_line-text (c ∷ s)), h, (scan_line-blank (c ∷ s) h).0)

length-scan_line :
    (c : ℕ) (s : Bytes)
    → (scan_line (c ∷ s)).write_line ≡ false
    → length (scan_line (c ∷ s)).rest ≤ length s
length-scan_line c s h =
    omega (arith, length-copy_line c s, ap length (scan_line-blank (c ∷ s) h).0)

scan_line-eof :
    (s : Bytes)
    → (scan_line s).write_line ≡ false
    → (scan_line s).eof ≡ true
    → (scan_line s).rest ≡ []
scan_line-eof s h e = (scan_line-blank s h).0 ∙ copy_line-eof s (sym (scan_line-blank s h).1 ∙ e)

sys_loop-text :
    (fuel c : ℕ) (s out : Bytes)
    → (scan_line (c ∷ s)).write_line ≡ true
    → sys_loop (suc fuel) (c ∷ s) out
      ≡ sys_loop fuel (copy_line (c ∷ s)).rest (out ++ (copy_line (c ∷ s)).line)
unfolding sys_loop
sys_loop-text fuel c s out t = rw (sys_loop, t)

sys_loop-blank :
    (fuel c : ℕ) (s out : Bytes)
    → (scan_line (c ∷ s)).write_line ≡ false
    → sys_loop (suc fuel) (c ∷ s) out ≡ sys_loop fuel (scan_line (c ∷ s)).rest out
unfolding sys_loop
sys_loop-blank fuel c s out t = rw (sys_loop, t)

sys_loop-keep_text :
    (fuel : ℕ) (file out : Bytes)
    → length file < fuel
    → sys_loop fuel file out ≡ some (out ++ keep_text (split file))
unfolding sys_loop
sys_loop-keep_text zero file out h = absurd (omega arith)
sys_loop-keep_text (suc fuel) [] out h = ap some (sym (append-nil out))
sys_loop-keep_text (suc fuel) (c ∷ s) out h =
    let kept = (copy_line (c ∷ s)).line in
    elim (Bool-cases (scan_line (c ∷ s)).write_line) [
      | inl t ↦
          sys_loop-text fuel c s out t
          ∙ sys_loop-keep_text fuel _ (out ++ kept) (omega (arith, length-copy_line c s))
          ∙ ap some (append_assoc out kept _ ∙ ap (λ l. out ++ l) (sym (keep_text-text c s t)))
      | inr f ↦
          sys_loop-blank fuel c s out f
          ∙ sys_loop-keep_text fuel _ out (omega (arith, length-scan_line c s f))
          ∙ ap (λ l. some (out ++ l)) (sym (keep_text-blank c s f))
    ]

lib_loop-text :
    (fuel : ℕ) (file out : Bytes)
    → (scan_line file).write_line ≡ true
    → lib_loop (suc fuel) file false out
      ≡ lib_loop fuel (copy_line file).rest (copy_line file).eof (out ++ (copy_line file).line)
unfolding lib_loop
lib_loop-text fuel file out t = rw (lib_loop, t)

lib_loop-blank :
    (fuel : ℕ) (file out : Bytes)
    → (scan_line file).write_line ≡ false
    → lib_loop (suc fuel) file false out
      ≡ lib_loop fuel (scan_line file).rest (scan_line file).eof out
unfolding lib_loop
lib_loop-blank fuel file out t = rw (lib_loop, t)

lib_loop-keep_text :
    (fuel : ℕ) (file : Bytes) (eof : Bool) (out : Bytes)
    → length file + 1 < fuel
    → (eof ≡ true → file ≡ [])
    → lib_loop fuel file eof out ≡ some (out ++ keep_text (split file))
unfolding lib_loop scan_line
lib_loop-keep_text zero file eof out h e = absurd (omega arith)
lib_loop-keep_text (suc fuel) file true out h e = rw (e refl, append-nil out)
lib_loop-keep_text (suc zero) [] false out h e = absurd (omega arith)
lib_loop-keep_text (suc (suc fuel)) [] false out h e = ap some (sym (append-nil out))
lib_loop-keep_text (suc fuel) (c ∷ s) false out h e =
    let kept = (copy_line (c ∷ s)).line in
    elim (Bool-cases (scan_line (c ∷ s)).write_line) [
      | inl t ↦
          lib_loop-text fuel (c ∷ s) out t
          ∙ lib_loop-keep_text fuel _ _ (out ++ kept) (omega (arith, length-copy_line c s))
              (copy_line-eof (c ∷ s))
          ∙ ap some (append_assoc out kept _ ∙ ap (λ l. out ++ l) (sym (keep_text-text c s t)))
      | inr f ↦
          lib_loop-blank fuel (c ∷ s) out f
          ∙ lib_loop-keep_text fuel _ _ out (omega (arith, length-scan_line c s f))
              (scan_line-eof (c ∷ s) f)
          ∙ ap (λ l. some (out ++ l)) (sym (keep_text-blank c s f))
    ]

-- lib_open_file and sys_open_file both end, and copy the lines that have a byte other than white
-- space, in their order, each as it was.
pub open_file-keep_text :
    (file : Bytes)
    → (lib_open_file file ≡ some (keep_text (split file)))
      × (sys_open_file file ≡ some (keep_text (split file)))
unfolding lib_open_file sys_open_file
open_file-keep_text file = (
  lib_loop-keep_text (length file + 2) file false [] (omega arith) (λ e. ground arith),
  sys_loop-keep_text (length file + 1) file [] (omega arith),
)
