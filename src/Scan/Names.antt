-- ===== src/Scan/Names.antt =====
-- src/scan.c: `ident` reads back a name, up to the white space behind it.
use hvme.Prelude.{
  ℕ, suc, ◌≤◌, ◌≡◌, ◌∙◌, refl, ap, true, false, none, some, List, [], ◌∷◌, ◌++◌, leb, length, drop,
  take, arith, Bool-cases, inl, inr, if-true, if-false,
}
use hvme.Inst.{Ident}
use hvme.Console.{is_space, is_digit, is_alpha}
use hvme.Scan.{
  Statics, ScanFn, scan_uint, scan_ident, comment, memory_fns, control_fns, digits, starts_blank,
  token_from_fn, is_ident_start, is_ident_char, count_ident, cut, max_ident_len,
}
use hvme.Scan.Match.{taken}
use hvme.Scan.Words.{
  ident_word, Starts, word_text, AreIdentChars, IsName, Finds, find-Misses, find-none, find-some,
  Misses-blank,
}

pub start-is_digit : (c : ℕ) → is_ident_start c ≡ true → is_digit c ≡ false
unfolding is_ident_start is_digit is_alpha
start-is_digit c h = ground arith

pub start-is_space : (c : ℕ) → is_ident_start c ≡ true → is_space c ≡ false
unfolding is_ident_start is_space is_alpha
start-is_space c h = ground arith

pub blank-is_ident_char : (b : ℕ) → is_space b ≡ true → is_ident_char b ≡ false
unfolding is_ident_char is_ident_start is_space is_alpha is_digit
blank-is_ident_char b h = ground arith

pub name-Starts : (s : Ident) (text : List ℕ) → IsName s → Starts (s ++ text)
name-Starts [] text h = absurd h.chars
name-Starts (a ∷ s) text h = start-is_space a h.chars.0

uint-misses :
    (a : ℕ) (text : List ℕ) (v : Statics)
    → is_ident_start a ≡ true
    → taken scan_uint (a ∷ text) v ≡ none
unfolding taken digits starts_blank
uint-misses a text v h = rw (start-is_digit a h, start-is_space a h) refl

count_ident-chars :
    (b : ℕ) (s text : List ℕ)
    → AreIdentChars s
    → is_space b ≡ true
    → count_ident (s ++ b ∷ text) ≡ length s
unfolding count_ident
count_ident-chars b [] text h t = if-false _ _ (blank-is_ident_char b t)
count_ident-chars b (c ∷ s) text (e, h) t = if-true _ _ e ∙ ap suc (count_ident-chars b s text h t)

pub drop-front : (s text : List ℕ) → drop (length s) (s ++ text) ≡ text
drop-front [] text = refl
drop-front (c ∷ s) text = drop-front s text

take-front : (s text : List ℕ) → take (length s) (s ++ text) ≡ s
take-front [] text = refl
take-front (c ∷ s) text = ap (λ r. c ∷ r) (take-front s text)

cut-short : (n : ℕ) → n ≤ max_ident_len → cut n ≡ n
unfolding cut
cut-short n h = elim (Bool-cases (leb max_ident_len n)) [
  | inl t ↦ if-true _ _ t ∙ ground arith
  | inr t ↦ if-false _ _ t
]

taken-name :
    (a b : ℕ) (s text : List ℕ) (v : Statics)
    → is_ident_start a ≡ true
    → AreIdentChars s
    → length (a ∷ s) ≤ max_ident_len
    → is_space b ≡ true
    → taken scan_ident (a ∷ s ++ b ∷ text) v ≡ some (length (a ∷ s), record v { ident_buf = a ∷ s })
unfolding taken starts_blank
taken-name a b s text v h cs l t =
    rw
      (
        h,
        count_ident-chars b s text cs t,
        drop-front s (b ∷ text),
        cut-short (suc (length s)) l,
        take-front s (b ∷ text),
        t,
      )
      refl

-- No keyword holds white space.
abbrev before_ident : List ScanFn
before_ident = control_fns ++ (scan_ident ∷ comment ∷ [])

pub ident-Finds :
    (s : Ident) (b : ℕ) (text : List ℕ) (v : Statics)
    → IsName s
    → is_space b ≡ true
    → Finds (ident_word s) (word_text (ident_word s) ++ b ∷ text) v
unfolding token_from_fn is_space
ident-Finds [] b text v h t = absurd h.chars
ident-Finds (a ∷ s) b text v h t =
    let (start, cs) = h.chars in
    let whole = a ∷ s ++ b ∷ text in
    let vars : Statics = record v { ident_buf = a ∷ s } in
    record {
      hit = record { fn_idx = 26; fn = scan_ident; count = length (a ∷ s); vars = vars };
      finds =
          find-Misses memory_fns (scan_uint ∷ before_ident) 0 whole v
            (Misses-blank memory_fns (a ∷ s) b text (search) t h.no_memory)
          ∙ find-none scan_uint before_ident 10 whole v (uint-misses a (s ++ b ∷ text) v start)
          ∙ find-Misses control_fns (scan_ident ∷ comment ∷ []) 11 whole v
              (Misses-blank control_fns (a ∷ s) b text (search) t h.no_control)
          ∙ find-some scan_ident (comment ∷ []) 26 whole v (length (a ∷ s)) vars
              (taken-name a b s text v start cs h.short t);
      count = refl;
      no_comment = refl;
      says = λ pos. (refl, refl);
      outside = refl;
    }
