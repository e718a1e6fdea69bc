-- ===== src/Scan/Numbers.antt =====
-- src/scan.c: `_uint` reads back what "%d" writes.
use hvme.Prelude.{
  ℕ, zero, suc, ◌+◌, ◌-◌, ◌*◌, ◌/◌, ◌%◌, ◌^◌, ◌<◌, ◌≤◌, ◌≡◌, ◌∙◌, refl, sym, ap, true, false, some,
  List, [], ◌∷◌, ◌++◌, append_nil, ltb, ltb→lt, ◌==◌, length, drop, arith, Bool-cases, inl, inr,
  if-true, if-false,
}
use hvme.Console.{decimal, is_space, is_digit}
use hvme.Scan.{
  Statics, ScanFn, keyword, scan_uint, scan_ident, comment, memory_fns, control_fns, match_fns,
  starts_with, digits, number, saturate, starts_blank, token_from_fn,
}
use hvme.Scan.Match.{find, taken}
use hvme.Scan.Words.{uint_word, Starts, word_text, Misses, Finds, find-Misses, find-some}

abbrev AreDigits : List ℕ → Type 0
AreDigits [] = Unit
AreDigits (d ∷ ds) = (d < 10) × AreDigits ds

abbrev chars : List ℕ → List ℕ
chars [] = []
chars (d ∷ ds) = (48 + d) ∷ chars ds

-- The digits behind those of `n`.
abbrev horner : ℕ → List ℕ → ℕ
horner n [] = n
horner n (d ∷ ds) = horner (n * 10 + d) ds

-- The digits that a number is written with.
record Digits (size n : ℕ) (text s : List ℕ) : Type 0 where
  ds : List ℕ
  written : text ≡ chars ds ++ s
  small : AreDigits ds
  value : horner 0 ds ≡ n
  most : length ds ≤ size
  least : 0 < length ds

decimal-Digits :
    (fuel n : ℕ) (ds s : List ℕ)
    → n < 10 ^ suc fuel
    → AreDigits ds
    → Digits (suc fuel + length ds) (horner n ds) (decimal fuel n (chars ds ++ s)) s
unfolding decimal
decimal-Digits zero n ds s h a =
    let e : n % 10 ≡ n = omega arith in
    let z : 0 * 10 + n ≡ n = omega arith in
    record {
      ds = n ∷ ds;
      written = rw e refl;
      small = (omega arith, a);
      value = ap (λ k. horner k ds) z;
      most = omega arith;
      least = omega arith;
    }
decimal-Digits (suc fuel) n ds s h a = elim (Bool-cases (ltb n 10)) [
  | inl t ↦
      let z : 0 * 10 + n ≡ n = omega arith in
      record {
        ds = n ∷ ds;
        written = rw t refl;
        small = (ltb→lt n 10 t, a);
        value = ap (λ k. horner k ds) z;
        most = omega arith;
        least = omega arith;
      }
  | inr t ↦
      let r = decimal-Digits fuel (n / 10) (n % 10 ∷ ds) s (omega arith) (omega arith, a) in
      let z : n / 10 * 10 + n % 10 ≡ n = omega arith in
      record {
        ds = r.ds;
        written = rw t r.written;
        small = r.small;
        value = r.value ∙ ap (λ k. horner k ds) z;
        most = omega (arith, r.most);
        least = r.least;
      }
]

pub blank-is_digit : (b : ℕ) → is_space b ≡ true → is_digit b ≡ false
unfolding is_digit is_space
blank-is_digit b t = ground arith

char-is_digit : (d : ℕ) → d < 10 → is_digit (48 + d) ≡ true
unfolding is_digit
char-is_digit d h = ground arith

-- `_uint` sees these digits, up to the white space behind them.
digits-chars :
    (k b : ℕ) (ds text : List ℕ)
    → AreDigits ds
    → length ds ≤ k
    → is_space b ≡ true
    → digits k (chars ds ++ b ∷ text) ≡ ds
unfolding digits
digits-chars zero b [] text a h t = refl
digits-chars zero b (d ∷ ds) text a h t = absurd (omega arith)
digits-chars (suc k) b [] text a h t = if-false _ _ (blank-is_digit b t)
digits-chars (suc k) b (d ∷ ds) text (s, a) h t =
    let e : 48 + d - 48 ≡ d = omega arith in
    if-true _ _ (char-is_digit d s)
    ∙ ap (λ c. c ∷ digits k (chars ds ++ b ∷ text)) e
    ∙ ap (λ r. d ∷ r) (digits-chars k b ds text a (omega arith) t)

drop-chars : (ds text : List ℕ) → drop (length ds) (chars ds ++ text) ≡ text
drop-chars [] text = refl
drop-chars (d ∷ ds) text = drop-chars ds text

length-chars : (ds : List ℕ) → length (chars ds) ≡ length ds
length-chars [] = refl
length-chars (d ∷ ds) = ap suc (length-chars ds)

number-horner : (ds : List ℕ) → 0 < length ds → length ds ≤ 5 → number ds ≡ horner 0 ds
unfolding number
number-horner [] h l = absurd (omega arith)
number-horner (a ∷ []) h l = omega arith
number-horner (a ∷ b ∷ []) h l = omega arith
number-horner (a ∷ b ∷ c ∷ []) h l = omega arith
number-horner (a ∷ b ∷ c ∷ d ∷ []) h l = omega arith
number-horner (a ∷ b ∷ c ∷ d ∷ e ∷ []) h l = omega arith
number-horner (a ∷ b ∷ c ∷ d ∷ e ∷ f ∷ ds) h l = absurd (omega arith)

-- No keyword starts with a digit.
abbrev AboveDigits : List ScanFn → Type 0
AboveDigits [] = Unit
AboveDigits (keyword (s ∷ spelling) ∷ fs) = (57 < s) × AboveDigits fs
AboveDigits (_ ∷ fs) = ⊥

digit-Misses :
    (fs : List ScanFn) (d : ℕ) (text : List ℕ)
    → AboveDigits fs
    → d < 10
    → Misses fs ((48 + d) ∷ text)
unfolding starts_with
digit-Misses [] d text a h = tt
digit-Misses (keyword [] ∷ fs) d text a h = absurd a
digit-Misses (keyword (s ∷ spelling) ∷ fs) d text (above, a) h =
    let other : (48 + d == s) ≡ false = ground arith in (rw other refl, digit-Misses fs d text a h)
digit-Misses (scan_uint ∷ fs) d text a h = absurd a
digit-Misses (scan_ident ∷ fs) d text a h = absurd a
digit-Misses (comment ∷ fs) d text a h = absurd a

chars-Misses :
    (fs : List ScanFn) (ds text : List ℕ)
    → AboveDigits fs
    → AreDigits ds
    → 0 < length ds
    → Misses fs (chars ds ++ text)
chars-Misses fs [] text a s h = absurd (omega arith)
chars-Misses fs (d ∷ ds) text a (s, r) h = digit-Misses fs d (chars ds ++ text) a s

chars-Starts : (ds text : List ℕ) → AreDigits ds → 0 < length ds → Starts (chars ds ++ text)
unfolding is_space
chars-Starts [] text a h = absurd (omega arith)
chars-Starts (d ∷ ds) text (s, a) h = ground arith

taken-chars :
    (b : ℕ) (ds text : List ℕ) (v : Statics)
    → AreDigits ds
    → 0 < length ds
    → length ds ≤ 5
    → is_space b ≡ true
    → horner 0 ds < 65536
    → taken scan_uint (chars ds ++ b ∷ text) v ≡ some (length ds, record v { uilit = horner 0 ds })
unfolding taken starts_blank saturate
taken-chars b ds text v a h l t s =
    let some_digits : (length ds == 0) ≡ false = ground arith in
    let fits : ltb 65535 (horner 0 ds) ≡ false = ground arith in
    rw
      (
        digits-chars 5 b ds text a l t,
        drop-chars ds (b ∷ text),
        number-horner ds h l,
        t,
        some_digits,
        fits,
      )
      refl

abbrev after_uint : List ScanFn
after_uint = control_fns ++ (scan_ident ∷ comment ∷ [])

pub uint-Finds :
    (n b : ℕ) (text : List ℕ) (v : Statics)
    → n < 65536
    → is_space b ≡ true
    → Finds (uint_word n) (word_text (uint_word n) ++ b ∷ text) v
unfolding token_from_fn
uint-Finds n b text v h t =
    let r = decimal-Digits 4 n [] [] (omega arith) tt in
    let most : length r.ds ≤ 5 = omega (arith, r.most) in
    let bare : decimal 4 n [] ≡ chars r.ds = r.written ∙ append_nil (chars r.ds) in
    let vars : Statics = record v { uilit = n } in
    let took : taken scan_uint (chars r.ds ++ b ∷ text) v ≡ some (length r.ds, vars) =
      taken-chars b r.ds text v r.small r.least most t (omega (arith, r.value))
      ∙ ap (λ k. some (length r.ds, record v { uilit = k })) r.value in
    record {
      hit = record { fn_idx = 10; fn = scan_uint; count = length r.ds; vars = vars };
      finds =
          ap (λ s. find match_fns 0 (s ++ b ∷ text) v) bare
          ∙ find-Misses memory_fns (scan_uint ∷ after_uint) 0 (chars r.ds ++ b ∷ text) v
              (chars-Misses memory_fns r.ds (b ∷ text) (omega arith) r.small r.least)
          ∙ find-some scan_uint after_uint 10 (chars r.ds ++ b ∷ text) v (length r.ds) vars took;
      count = sym (length-chars r.ds) ∙ ap (λ (s : List ℕ). length s) (sym bare);
      no_comment = refl;
      says = λ pos. (refl, refl);
      outside = refl;
    }

-- A written number starts with no white space.
pub decimal-Starts : (n : ℕ) (text : List ℕ) → n < 65536 → Starts (word_text (uint_word n) ++ text)
decimal-Starts n text h =
    let r = decimal-Digits 4 n [] [] (omega arith) tt in
    let bare : decimal 4 n [] ≡ chars r.ds = r.written ∙ append_nil (chars r.ds) in
    rw bare (chars-Starts r.ds text r.small r.least)

-- It takes five characters at most.
pub decimal-short : (n : ℕ) → n < 65536 → length (decimal 4 n []) ≤ 5
decimal-short n h =
    let r = decimal-Digits 4 n [] [] (omega arith) tt in
    let bare : decimal 4 n [] ≡ chars r.ds = r.written ∙ append_nil (chars r.ds) in
    let size = ap (λ (s : List ℕ). length s) bare in omega (arith, size, length-chars r.ds, r.most)
