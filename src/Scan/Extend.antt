-- ===== src/Scan/Extend.antt =====
-- src/scan.c: which function is found at a text, and at the same text with more behind it.
use hvme.Prelude.{
  ℕ, zero, suc, ◌-◌, ◌≤◌, ◌≡◌, ◌∙◌, refl, ap, Option, none, some, List, [], ◌∷◌, ◌++◌, ◌==◌,
  if◌then◌else◌, Bool-cases, inl, inr, length, take, drop, arith, ==_iff,
}
use hvme.Console.{is_space, is_digit}
use hvme.Text.{codes}
use hvme.Scan.{
  Statics, ScanFn, keyword, scan_uint, scan_ident, comment, match_fns, starts_with, digits,
  starts_blank, is_ident_start, is_ident_char, count_ident, cut,
}
use hvme.Scan.Match.{Hit, find, taken}
use hvme.Scan.Rest.{NoBlank, HasBlank}
use hvme.Scan.Numbers.{blank-is_digit}
use hvme.Scan.Names.{blank-is_ident_char, start-is_space}

-- With white space in the text, no function sees what is behind.
module _ (b : List ℕ) where
  starts_with-more :
      (s t : List ℕ) → NoBlank s → HasBlank t → starts_with s (t ++ b) ≡ starts_with s t
  unfolding starts_with
  starts_with-more [] t n h = refl
  starts_with-more (x ∷ s) [] n h = absurd h
  starts_with-more (x ∷ s) (c ∷ t) (n, ns) h = elim (Bool-cases (c == x)) [
    | inl same ↦ elim h [
      | inl blank ↦ let eq : c ≡ x = (==_iff c x).0 same in absurd (cc (n, blank, eq))
      | inr later ↦ rw same (starts_with-more s t ns later)
    ]
    | inr other ↦ rw other refl
  ]

  -- What follows the characters of a kind that white space is not of.
  digits-more : (n : ℕ) (t : List ℕ) → HasBlank t → digits n (t ++ b) ≡ digits n t
  unfolding digits
  digits-more zero t h = refl
  digits-more (suc n) [] h = absurd h
  digits-more (suc n) (c ∷ t) h = elim (Bool-cases (is_digit c)) [
    | inl d ↦ elim h [
      | inl blank ↦ absurd (cc (blank-is_digit c blank, d))
      | inr later ↦ rw d (ap (λ ds. (c - 48) ∷ ds) (digits-more n t later))
    ]
    | inr d ↦ rw d refl
  ]

  behind_digits :
      (n : ℕ) (t : List ℕ)
      → HasBlank t
      → starts_blank (drop (length (digits n t)) (t ++ b))
        ≡ starts_blank (drop (length (digits n t)) t)
  unfolding digits starts_blank
  behind_digits zero [] h = absurd h
  behind_digits zero (c ∷ t) h = refl
  behind_digits (suc n) [] h = absurd h
  behind_digits (suc n) (c ∷ t) h = elim (Bool-cases (is_digit c)) [
    | inl d ↦ elim h [
      | inl blank ↦ absurd (cc (blank-is_digit c blank, d))
      | inr later ↦ rw d (behind_digits n t later)
    ]
    | inr d ↦ rw d refl
  ]

  count_ident-more : (t : List ℕ) → HasBlank t → count_ident (t ++ b) ≡ count_ident t
  unfolding count_ident
  count_ident-more [] h = absurd h
  count_ident-more (c ∷ t) h = elim (Bool-cases (is_ident_char c)) [
    | inl d ↦ elim h [
      | inl blank ↦ absurd (cc (blank-is_ident_char c blank, d))
      | inr later ↦ rw d (ap suc (count_ident-more t later))
    ]
    | inr d ↦ rw d refl
  ]

  behind_ident :
      (t : List ℕ)
      → HasBlank t
      → starts_blank (drop (count_ident t) (t ++ b)) ≡ starts_blank (drop (count_ident t) t)
  unfolding count_ident starts_blank
  behind_ident [] h = absurd h
  behind_ident (c ∷ t) h = elim (Bool-cases (is_ident_char c)) [
    | inl d ↦ elim h [
      | inl blank ↦ absurd (cc (blank-is_ident_char c blank, d))
      | inr later ↦ rw d (behind_ident t later)
    ]
    | inr d ↦ rw d refl
  ]

  take-more : (n : ℕ) (t : List ℕ) → n ≤ length t → take n (t ++ b) ≡ take n t
  take-more zero t h = refl
  take-more (suc n) [] h = absurd (omega arith)
  take-more (suc n) (c ∷ t) h = ap (λ r. c ∷ r) (take-more n t (omega arith))

count_ident-bound : (t : List ℕ) → count_ident t ≤ length t
unfolding count_ident
count_ident-bound [] = omega arith
count_ident-bound (c ∷ t) = ground (arith, count_ident-bound t)

cut-bound : (n : ℕ) → cut n ≤ n
unfolding cut
cut-bound n = ground arith

-- Functions whose spelling holds no white space.
abbrev Bare : ScanFn → Type 0
Bare (keyword spelling) = NoBlank spelling
Bare _ = Unit

taken-more :
    (f : ScanFn) (b t : List ℕ) (v : Statics)
    → Bare f
    → HasBlank t
    → taken f (t ++ b) v ≡ taken f t v
unfolding taken is_space
taken-more (keyword spelling) b t v n h =
    ap (λ c. if c then some (length spelling, v) else none) (starts_with-more b spelling t n h)
taken-more comment b t v n h =
    ap (λ c. if c then some (2, v) else none)
      (starts_with-more b (codes "//") t (refl, (refl, tt)) h)
taken-more scan_uint b t v n h = rw (digits-more b 5 t h, behind_digits b 5 t h) refl
taken-more scan_ident b [] v n h = absurd h
taken-more scan_ident b (a ∷ t) v n h = elim (Bool-cases (is_ident_start a)) [
  | inr other ↦ rw other refl
  | inl start ↦ elim h [
    | inl blank ↦ absurd (cc (start-is_space a start, blank))
    | inr later ↦
        let k = suc (count_ident t) in
        let fits : cut k ≤ length (a ∷ t) = omega (arith, cut-bound k, count_ident-bound t) in
        rw
          (
            start,
            count_ident-more b t later,
            behind_ident b t later,
            take-more b (cut k) (a ∷ t) fits,
          )
          refl
  ]
]

abbrev AllBare : List ScanFn → Type 0
AllBare [] = Unit
AllBare (f ∷ fs) = Bare f × AllBare fs

find-more :
    (fs : List ScanFn) (fn_idx : ℕ) (b t : List ℕ) (v : Statics)
    → AllBare fs
    → HasBlank t
    → find fs fn_idx (t ++ b) v ≡ find fs fn_idx t v
unfolding find
find-more [] fn_idx b t v n h = refl
find-more (f ∷ fs) fn_idx b t v (n, ns) h =
    ap (first_or (find fs (suc fn_idx) (t ++ b) v)) (taken-more f b t v n h)
    ∙ ap (λ y. first_or y (taken f t v)) (find-more fs (suc fn_idx) b t v ns h)
  where
    first_or : Option Hit → Option (ℕ × Statics) → Option Hit
    first_or y m = elim m [
      | none ↦ y
      | some (n, v') ↦ some (record { fn_idx = fn_idx; fn = f; count = n; vars = v' })
    ]

-- A text with white space finds what it finds with more behind it.
pub find-HasBlank :
    (b t : List ℕ) (v : Statics) → HasBlank t → find match_fns 0 (t ++ b) v ≡ find match_fns 0 t v
unfolding is_space
find-HasBlank b t v h = find-more match_fns 0 b t v (search) h
