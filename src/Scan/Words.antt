-- ===== src/Scan/Words.antt =====
-- src/scan.c: what a token is written as, and which tokens say so.
use hvme.Prelude.{
  ℕ, suc, ◌+◌, ◌<◌, ◌≤◌, ◌≡◌, ◌∙◌, refl, ap, true, false, Option, none, some, List, [], ◌∷◌, ◌++◌,
  ◌==◌, length, arith, Bool-cases, inl, inr, ==_iff, if-false,
}
use hvme.Inst.{Ident, Pos}
use hvme.Console.{decimal, is_space}
use hvme.Token.{TokenCode, Token}
use hvme.Scan.{
  Statics, ScanFn, keyword, scan_uint, scan_ident, comment, match_fns, memory_fns, control_fns,
  starts_with, is_ident_start, is_ident_char, max_ident_len, token_from_fn,
}
use hvme.Scan.Block.{is_comment}
use hvme.Scan.Match.{Hit, find, taken}
use hvme.Scan.Rest.{NoBlank}
use hvme.Scan.Keywords.{strs, IsKeyword}

pub data Word : Type 0 where
  keyword_word : TokenCode → Word
  uint_word : ℕ → Word
  ident_word : Ident → Word

abbrev pub word_text : Word → List ℕ
word_text (keyword_word t) = strs t
word_text (uint_word n) = decimal 4 n []
word_text (ident_word s) = s

-- The text has a first character, which is no white space.
abbrev pub Starts : List ℕ → Type 0
Starts [] = ⊥
Starts (c ∷ text) = is_space c ≡ false

-- The text starts with none of the keywords.
abbrev pub Misses : List ScanFn → List ℕ → Type 0
Misses [] text = Unit
Misses (keyword spelling ∷ fs) text = (starts_with spelling text ≡ false) × Misses fs text
Misses (_ ∷ fs) text = ⊥

abbrev pub AreIdentChars : List ℕ → Type 0
AreIdentChars [] = Unit
AreIdentChars (c ∷ s) = (is_ident_char c ≡ true) × AreIdentChars s

abbrev pub StartsIdent : List ℕ → Type 0
StartsIdent [] = ⊥
StartsIdent (c ∷ s) = (is_ident_start c ≡ true) × AreIdentChars s

-- The identifiers that the scanner reads as such: it takes one that starts with a keyword apart.
pub record IsName (s : Ident) : Type 0 where
  pub chars : StartsIdent s
  pub short : length s ≤ max_ident_len
  pub no_memory : Misses memory_fns s
  pub no_control : Misses control_fns s

abbrev pub IsWord : Word → Type 0
IsWord (keyword_word t) = IsKeyword t
IsWord (uint_word n) = n < 65536
IsWord (ident_word s) = IsName s

-- The token stands for the word.
abbrev pub Says : Word → Token → Type 0
Says (keyword_word t) it = it.t ≡ t
Says (uint_word n) it = (it.t ≡ TokenCode.uint) × (it.uilit ≡ n)
Says (ident_word s) it = (it.t ≡ TokenCode.ident) × (it.ident ≡ s)

-- The function that is found at a text takes `n` characters and makes a token for the word.
pub record Finds (w : Word) (text : List ℕ) (v : Statics) : Type 0 where
  pub hit : Hit
  pub finds : find match_fns 0 text v ≡ some hit
  pub count : hit.count ≡ length (word_text w)
  pub no_comment : is_comment hit.fn ≡ false
  pub says : (pos : Pos) → Says w (token_from_fn hit.fn_idx pos hit.vars).0
  pub outside : hit.vars.inside_comment ≡ v.inside_comment

-- A function that takes nothing is passed over, and one that takes something is found.
module _ (f : ScanFn) (fs : List ScanFn) (fn_idx : ℕ) (text : List ℕ) (v : Statics) where
  by_taken :
      (t : Option (ℕ × Statics))
      → taken f text v ≡ t
      → find (f ∷ fs) fn_idx text v ≡ (elim t [
        | none ↦ find fs (suc fn_idx) text v
        | some (n, v') ↦ some (record { fn_idx = fn_idx; fn = f; count = n; vars = v' })
      ])
  unfolding find
  by_taken t h =
      ap
        (λ (t : Option (ℕ × Statics)). elim t [
          | none ↦ find fs (suc fn_idx) text v
          | some (n, v') ↦ some (record { fn_idx = fn_idx; fn = f; count = n; vars = v' })
        ])
        h

  pub find-none : taken f text v ≡ none → find (f ∷ fs) fn_idx text v ≡ find fs (suc fn_idx) text v
  find-none h = by_taken none h

  pub find-some :
      (n : ℕ) (v' : Statics)
      → taken f text v ≡ some (n, v')
      → find (f ∷ fs) fn_idx text v
        ≡ some (record { fn_idx = fn_idx; fn = f; count = n; vars = v' })
  find-some n v' h = by_taken (some (n, v')) h

-- Keywords that miss are passed over.
pub find-Misses :
    (fs gs : List ScanFn) (fn_idx : ℕ) (text : List ℕ) (v : Statics)
    → Misses fs text
    → find (fs ++ gs) fn_idx text v ≡ find gs (length fs + fn_idx) text v
unfolding taken
find-Misses [] gs fn_idx text v h = ap (λ i. find gs i text v) (omega arith)
find-Misses (keyword spelling ∷ fs) gs fn_idx text v (h, hs) =
    find-none (keyword spelling) (fs ++ gs) fn_idx text v (if-false _ _ h)
    ∙ find-Misses fs gs (suc fn_idx) text v hs
    ∙ ap (λ i. find gs i text v) (omega arith)
find-Misses (scan_uint ∷ fs) gs fn_idx text v h = absurd h
find-Misses (scan_ident ∷ fs) gs fn_idx text v h = absurd h
find-Misses (comment ∷ fs) gs fn_idx text v h = absurd h

abbrev pub AllNoBlank : List ScanFn → Type 0
AllNoBlank [] = Unit
AllNoBlank (keyword spelling ∷ fs) = NoBlank spelling × AllNoBlank fs
AllNoBlank (_ ∷ fs) = Unit

-- A keyword that some characters do not start with, does not start with them and white space.
pub starts_with-blank :
    (search s : List ℕ) (b : ℕ) (text : List ℕ)
    → NoBlank search
    → is_space b ≡ true
    → starts_with search s ≡ false
    → starts_with search (s ++ b ∷ text) ≡ false
unfolding starts_with
starts_with-blank [] s b text h t e = cc
starts_with-blank (x ∷ search) [] b text (h, hs) t e = elim (Bool-cases (b == x)) [
  | inl same ↦ let eq : b ≡ x = (==_iff b x).0 same in absurd (cc (h, t, eq))
  | inr other ↦ rw other refl
]
starts_with-blank (x ∷ search) (c ∷ s) b text (h, hs) t e = elim (Bool-cases (c == x)) [
  | inl same ↦ rw same (starts_with-blank search s b text hs t (rw same at e))
  | inr other ↦ rw other refl
]

pub Misses-blank :
    (fs : List ScanFn) (s : List ℕ) (b : ℕ) (text : List ℕ)
    → AllNoBlank fs
    → is_space b ≡ true
    → Misses fs s
    → Misses fs (s ++ b ∷ text)
Misses-blank [] s b text h t m = tt
Misses-blank (keyword spelling ∷ fs) s b text (h, hs) t (m, ms) =
    (starts_with-blank spelling s b text h t m, Misses-blank fs s b text hs t ms)
Misses-blank (scan_uint ∷ fs) s b text h t m = absurd m
Misses-blank (scan_ident ∷ fs) s b text h t m = absurd m
Misses-blank (comment ∷ fs) s b text h t m = absurd m
