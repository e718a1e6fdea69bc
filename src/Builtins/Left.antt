-- ===== src/Builtins/Left.antt =====
-- src/exec.c: what `scanf("%u")` leaves of the standard input.
use hvme.Prelude.{
  ℕ, ◌+◌, ◌-◌, ◌*◌, ◌^◌, ◌≢◌, Bool, true, false, Bool-cases, inl, inr, none, List, [], ◌∷◌, leb,
  ◌==◌, if◌then◌else◌,
}
use hvme.Console.{is_space, is_digit}
use hvme.Builtins.Strings.{AllBytes}
use hvme.Builtins.{
  Scanned, at_eof, no_match, scanned, too_big, skip_space, scan_digits, scan_unsigned, scan_sign,
  scanf_u, skip_line,
}

-- `scanf` gets a number that C defines, or the input has a newline behind what is no number.
abbrev pub CanScan : Scanned → Type 0
CanScan at_eof = Unit
CanScan (no_match s) = skip_line s ≢ none
CanScan (scanned n s) = Unit
CanScan too_big = ⊥

-- What `scanf` leaves is a part of what it got.
abbrev pub Leaves : Scanned → Type 0
Leaves at_eof = Unit
Leaves (no_match s) = AllBytes s
Leaves (scanned n s) = AllBytes s
Leaves too_big = Unit

skip_space-AllBytes : (s : List ℕ) → AllBytes s → AllBytes (skip_space s)
unfolding skip_space
skip_space-AllBytes [] h = tt
skip_space-AllBytes (c ∷ s) (a, h) =
    let rest = skip_space-AllBytes s h in
    elim (Bool-cases (is_space c)) [ inl t ↦ rw t rest | inr t ↦ rw t (a, h) ]

scan_digits-AllBytes : (n : ℕ) (s : List ℕ) → AllBytes s → AllBytes (scan_digits n s).1
unfolding scan_digits
scan_digits-AllBytes n [] h = tt
scan_digits-AllBytes n (c ∷ s) (a, h) =
    let rest = scan_digits-AllBytes (n * 10 + (c - 48)) s h in
    elim (Bool-cases (is_digit c)) [ inl t ↦ rw t rest | inr t ↦ rw t (a, h) ]

Leaves-if : (c : Bool) (x y : Scanned) → Leaves x → Leaves y → Leaves (if c then x else y)
Leaves-if true x y a b = a
Leaves-if false x y a b = b

scan_unsigned-Leaves :
    (negative : Bool) (s : List ℕ) → AllBytes s → Leaves (scan_unsigned negative s)
unfolding scan_unsigned
scan_unsigned-Leaves negative [] h = tt
scan_unsigned-Leaves negative (c ∷ s) h =
    Leaves-if (is_digit c) _ _
      (Leaves-if (leb (2 ^ 32) (scan_digits 0 (c ∷ s)).0) too_big _ tt
        (scan_digits-AllBytes 0 (c ∷ s) h))
      h

scan_sign-Leaves : (s : List ℕ) → AllBytes s → Leaves (scan_sign s)
unfolding scan_sign
scan_sign-Leaves [] h = tt
scan_sign-Leaves (c ∷ s) h = Leaves-if (c == b'-') _ _ (scan_unsigned-Leaves true s h.1) (
    Leaves-if (c == b'+') _ _ (scan_unsigned-Leaves false s h.1)
      (scan_unsigned-Leaves false (c ∷ s) h))

pub scanf_u-Leaves : (s : List ℕ) → AllBytes s → Leaves (scanf_u s)
unfolding scanf_u
scanf_u-Leaves s h = scan_sign-Leaves (skip_space s) (skip_space-AllBytes s h)
