-- ===== src/Builtins/Numbers.antt =====
-- src/exec.c: what `exec_builtin_print_num` writes, `scanf("%u")` reads back.
use hvme.Prelude.{
  ℕ, zero, suc, ◌+◌, ◌-◌, ◌*◌, ◌/◌, ◌%◌, ◌^◌, ◌<◌, ◌≡◌, ◌∙◌, refl, sym, ap, true, false, inl, inr,
  List, [], ◌∷◌, ◌++◌, ltb, leb, ◌==◌, Bool-cases, ltb→lt, arith,
}
use hvme.Console.{Io, decimal, print_num, hvme_fputs, newline, is_space, is_digit}
use hvme.Builtins.{scan_digits, scan_unsigned, scan_sign, skip_space, scanf_u, scanned}

digit-is_digit : (d : ℕ) → d < 10 → is_digit (48 + d) ≡ true
unfolding is_digit
digit-is_digit d h = ground arith

scan_digits-digit :
    (n d : ℕ) (s : List ℕ) → d < 10 → scan_digits n ((48 + d) ∷ s) ≡ scan_digits (n * 10 + d) s
unfolding scan_digits
scan_digits-digit n d s h =
    let e : n * 10 + (48 + d - 48) ≡ n * 10 + d = omega arith in rw (digit-is_digit d h, e) refl

scan_digits-first : (d : ℕ) (s : List ℕ) → d < 10 → scan_digits 0 ((48 + d) ∷ s) ≡ scan_digits d s
scan_digits-first d s h =
    let e : 0 * 10 + d ≡ d = omega arith in scan_digits-digit 0 d s h ∙ ap (λ k. scan_digits k s) e

scan_digits-newline : (n : ℕ) (s : List ℕ) → scan_digits n (newline ∷ s) ≡ (n, newline ∷ s)
unfolding scan_digits is_digit
scan_digits-newline n s = refl

-- The digits of a number are scanned to it.
scan_digits-decimal :
    (fuel n : ℕ) (s : List ℕ)
    → n < 10 ^ suc fuel
    → scan_digits 0 (decimal fuel n s) ≡ scan_digits n s
unfolding decimal
scan_digits-decimal zero n s h =
    let small : n % 10 ≡ n = omega arith in rw small (scan_digits-first n s (omega arith))
scan_digits-decimal (suc fuel) n s h = elim (Bool-cases (ltb n 10)) [
  | inl t ↦ rw t (scan_digits-first n s (ltb→lt n 10 t))
  | inr t ↦
      let e : n / 10 * 10 + n % 10 ≡ n = omega arith in
      rw t (
        scan_digits-decimal fuel (n / 10) ((48 + n % 10) ∷ s) (omega arith)
        ∙ scan_digits-digit (n / 10) (n % 10) s (omega arith)
        ∙ ap (λ k. scan_digits k s) e)
]

decimal-append : (fuel n : ℕ) (s t : List ℕ) → decimal fuel n s ++ t ≡ decimal fuel n (s ++ t)
unfolding decimal
decimal-append zero n s t = refl
decimal-append (suc fuel) n s t = elim (Bool-cases (ltb n 10)) [
  | inl h ↦ rw h refl
  | inr h ↦ rw h (decimal-append fuel (n / 10) ((48 + n % 10) ∷ s) t)
]

-- A number starts with a digit.
decimal-head :
    (fuel n : ℕ) (s : List ℕ)
    → (d : ℕ) × (t : List ℕ) × (d < 10) × (decimal fuel n s ≡ (48 + d) ∷ t)
unfolding decimal
decimal-head zero n s = (n % 10, s, omega arith, refl)
decimal-head (suc fuel) n s = elim (Bool-cases (ltb n 10)) [
  | inl h ↦ (n, s, ltb→lt n 10 h, rw h refl)
  | inr h ↦ rw h (decimal-head fuel (n / 10) ((48 + n % 10) ∷ s))
]

-- `scanf` of a text that starts with a digit.
scanf_u-digit :
    (d n : ℕ) (t rest : List ℕ)
    → d < 10
    → n < 2 ^ 32
    → scan_digits 0 ((48 + d) ∷ t) ≡ (n, rest)
    → scanf_u ((48 + d) ∷ t) ≡ scanned n rest
unfolding scanf_u skip_space scan_sign scan_unsigned
scanf_u-digit d n t rest h small run =
    let not_space : is_space (48 + d) ≡ false = unfold is_space in ground arith in
    let not_minus : (48 + d == 45) ≡ false = ground arith in
    let not_plus : (48 + d == 43) ≡ false = ground arith in
    let fits : leb (2 ^ 32) n ≡ false = ground arith in
    rw (not_space, not_minus, not_plus, run, digit-is_digit d h, fits) refl

-- The text that `print_num` writes for a word, with a newline behind it, is scanned to that word,
-- and the newline is left.
pub scanf_u-print_num :
    (val : ℕ) (rest : List ℕ) (io : Io)
    → val < 65536
    → scanf_u ((print_num val (record io { stdout = [] })).stdout ++ newline ∷ rest)
      ≡ scanned val (newline ∷ rest)
unfolding print_num hvme_fputs
scanf_u-print_num val rest io h =
    let (d, t, small, e) = decimal-head 4 val (newline ∷ rest) in
    let run : scan_digits 0 ((48 + d) ∷ t) ≡ (val, newline ∷ rest) =
      ap (scan_digits 0) (sym e)
      ∙ scan_digits-decimal 4 val (newline ∷ rest) (omega arith)
      ∙ scan_digits-newline val rest in
    ap scanf_u (decimal-append 4 val [] (newline ∷ rest) ∙ e)
    ∙ scanf_u-digit d val t (newline ∷ rest) small (omega arith) run
