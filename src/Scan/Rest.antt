-- ===== src/Scan/Rest.antt =====
-- src/scan.c: what the functions of the scanner leave of a block.
use hvme.Prelude.{
  ℕ, zero, suc, ◌+◌, ◌≤◌, ◌<◌, ◌≡◌, ◌∙◌, ◌⊎◌, refl, sym, ap, true, false, Option, none, some, List,
  [], ◌∷◌, ◌++◌, ◌==◌, if◌then◌else◌, Bool-cases, inl, inr, length, take, drop, take-drop,
  append_assoc, arith, length-append,
}
use hvme.Inst.{Pos}
use hvme.Console.{newline, is_space}
use hvme.Scan.{
  Statics, Cursor, inc, incl, starts_with, ScanFn, keyword, scan_uint, scan_ident, comment,
  starts_blank, digits, count_ident, is_ident_start,
}
use hvme.Scan.Block.{eat_ws_from, num_trailing}
use hvme.Scan.Match.{taken, starts_with-length}

-- `rest` is what is left of `text` behind some characters.
pub record Suffix (rest text : List ℕ) : Type 0 where
  pub read : List ℕ
  pub splits : text ≡ read ++ rest

pub Suffix-refl : (text : List ℕ) → Suffix text text
Suffix-refl text = record { read = []; splits = refl }

pub Suffix-trans : {a b c : List ℕ} → Suffix a b → Suffix b c → Suffix a c
Suffix-trans {a} s t = record {
  read = t.read ++ s.read;
  splits = t.splits ∙ ap (λ b. t.read ++ b) s.splits ∙ sym (append_assoc t.read s.read a);
}

pub Suffix-drop : (n : ℕ) (text : List ℕ) → Suffix (drop n text) text
Suffix-drop n text = record { read = take n text; splits = sym (take-drop n text) }

pub Suffix-cons : {a b : List ℕ} (c : ℕ) → Suffix a b → Suffix a (c ∷ b)
Suffix-cons c s = record { read = c ∷ s.read; splits = ap (λ b. c ∷ b) s.splits }

pub Suffix-length : {a b : List ℕ} → Suffix a b → length a ≤ length b
Suffix-length {a} s = omega (arith, ap (λ (t : List ℕ). length t) s.splits, length-append s.read a)

-- Texts with no white space, and texts with some.
abbrev pub NoBlank : List ℕ → Type 0
NoBlank [] = Unit
NoBlank (c ∷ text) = (is_space c ≡ false) × NoBlank text

abbrev pub HasBlank : List ℕ → Type 0
HasBlank [] = ⊥
HasBlank (c ∷ text) = (is_space c ≡ true) ⊎ HasBlank text

pub num_trailing_cases :
    (k : ℕ) (text : List ℕ)
    → (NoBlank text × (num_trailing k text ≡ some (k + length text)))
      ⊎ (HasBlank text × (num_trailing k text ≡ none))
unfolding num_trailing
num_trailing_cases k [] = inl (tt, ap some (omega arith))
num_trailing_cases k (c ∷ text) = elim (Bool-cases (is_space c)) [
  | inl t ↦ inr (inl t, rw t refl)
  | inr t ↦ elim (num_trailing_cases (k + 1) text) [
    | inl (h, e) ↦ inl ((t, h), rw t (e ∙ ap some (omega arith)))
    | inr (h, e) ↦ inr (inr h, rw t e)
  ]
]

pub eat_ws-Suffix : (text : List ℕ) (pos : Pos) → Suffix (eat_ws_from text pos).text text
unfolding eat_ws_from
eat_ws-Suffix [] pos = Suffix-refl []
eat_ws-Suffix (c ∷ text) pos =
    let here : Cursor = record { text = c ∷ text; pos = pos } in
    elim (Bool-cases (is_space c)) [
      | inl t ↦
          rw t
            (Suffix-cons c (eat_ws-Suffix text (if c == newline then incl here else inc here).pos))
      | inr t ↦ rw t (Suffix-refl (c ∷ text))
    ]

pub starts_blank-drop :
    (n : ℕ) (text : List ℕ) → starts_blank (drop n text) ≡ true → n < length text
unfolding starts_blank
starts_blank-drop zero [] h = cc
starts_blank-drop zero (c ∷ text) h = omega arith
starts_blank-drop (suc n) [] h = cc
starts_blank-drop (suc n) (c ∷ text) h = omega (arith, starts_blank-drop n text h)

abbrev pub Takes : List ℕ → Option (ℕ × Statics) → Type 0
Takes text none = Unit
Takes text (some (n, v)) = (0 < n) × (n ≤ length text)

abbrev pub HasLetters : ScanFn → Type 0
HasLetters (keyword search) = 0 < length search
HasLetters _ = Unit

pub taken-Takes :
    (f : ScanFn) (text : List ℕ) (v : Statics) → HasLetters f → Takes text (taken f text v)
unfolding taken
taken-Takes (keyword search) text v h = elim (Bool-cases (starts_with search text)) [
  | inl t ↦ rw t (h, starts_with-length search text t)
  | inr t ↦ rw t tt
]
taken-Takes comment text v h = elim (Bool-cases (starts_with (47 ∷ 47 ∷ []) text)) [
  | inl t ↦ rw t (omega arith, starts_with-length (47 ∷ 47 ∷ []) text t)
  | inr t ↦ rw t tt
]
taken-Takes scan_uint text v h =
    let n = length (digits 5 text) in
    elim (Bool-cases (starts_blank (drop n text))) [
      | inl t ↦ elim (Bool-cases (n == 0)) [
        | inl z ↦ rw (t, z) tt
        | inr z ↦ rw (t, z) (ground arith, omega (arith, starts_blank-drop n text t))
      ]
      | inr t ↦ rw t tt
    ]
taken-Takes scan_ident [] v h = tt
taken-Takes scan_ident (a ∷ text) v h =
    let n = suc (count_ident text) in
    elim (Bool-cases (is_ident_start a)) [
      | inl s ↦ elim (Bool-cases (starts_blank (drop n (a ∷ text)))) [
        | inl t ↦ rw (s, t) (omega arith, omega (arith, starts_blank-drop n (a ∷ text) t))
        | inr t ↦ rw (s, t) tt
      ]
      | inr s ↦ rw s tt
    ]
