-- ===== src/Scan/Found.antt =====
-- src/scan.c: what is found at a text without white space is found with more behind it.
use hvme.Prelude.{
  ℕ, zero, suc, ◌≡◌, ◌∙◌, ◌⊎◌, refl, sym, ap, true, false, none, List, [], ◌∷◌, ◌++◌, append_assoc,
  ◌==◌, Bool-cases, inl, inr, if-false, length, drop, ==_iff,
}
use hvme.Text.{codes}
use hvme.Token.{TokenCode}
use hvme.Scan.{
  Statics, ScanFn, keyword, scan_uint, scan_ident, comment, match_fns, memory_fns, control_fns,
  starts_with, digits, starts_blank, is_ident_start, count_ident,
}
use hvme.Scan.Match.{find, taken}
use hvme.Scan.Keywords.{strs, IsKeyword, find-strs}
use hvme.Scan.Rest.{NoBlank}
use hvme.Scan.Comments.{find-comment}
use hvme.Scan.Words.{Misses, find-Misses, find-none}

-- Without white space, only keywords and comments are found.
NoBlank-drop : (n : ℕ) (t : List ℕ) → NoBlank t → starts_blank (drop n t) ≡ false
unfolding starts_blank
NoBlank-drop zero [] h = refl
NoBlank-drop zero (c ∷ t) (h, hs) = h
NoBlank-drop (suc n) [] h = refl
NoBlank-drop (suc n) (c ∷ t) (h, hs) = NoBlank-drop n t hs

uint-NoBlank : (t : List ℕ) (v : Statics) → NoBlank t → taken scan_uint t v ≡ none
unfolding taken
uint-NoBlank t v h = if-false _ _ (NoBlank-drop (length (digits 5 t)) t h)

ident-NoBlank : (t : List ℕ) (v : Statics) → NoBlank t → taken scan_ident t v ≡ none
unfolding taken
ident-NoBlank [] v h = refl
ident-NoBlank (a ∷ t) v (h, hs) = elim (Bool-cases (is_ident_start a)) [
  | inl start ↦ rw (start, NoBlank-drop (count_ident t) t hs) refl
  | inr other ↦ rw other refl
]

-- The keywords of a list, one by one.
abbrev keywords : List TokenCode → List ScanFn
keywords [] = []
keywords (k ∷ ks) = keyword (strs k) ∷ keywords ks

abbrev AllKeywords : List TokenCode → Type 0
AllKeywords [] = Unit
AllKeywords (k ∷ ks) = IsKeyword k × AllKeywords ks

starts_with-splits : (s t : List ℕ) → starts_with s t ≡ true → (r : List ℕ) × (t ≡ s ++ r)
unfolding starts_with
starts_with-splits [] t h = (t, refl)
starts_with-splits (x ∷ s) [] h = cc
starts_with-splits (x ∷ s) (c ∷ t) h = elim (Bool-cases (c == x)) [
  | inl same ↦
      let eq : c ≡ x = (==_iff c x).0 same in
      let (r, e) = starts_with-splits s t (rw same at h) in (r, rw (eq, e) refl)
  | inr other ↦ cc (rw other at h)
]

first_cases :
    (ks : List TokenCode) (t : List ℕ)
    → AllKeywords ks
    → ((k : TokenCode) × (r : List ℕ) × IsKeyword k × (t ≡ strs k ++ r)) ⊎ Misses (keywords ks) t
first_cases [] t h = inr tt
first_cases (k ∷ ks) t (h, hs) = elim (Bool-cases (starts_with (strs k) t)) [
  | inl hit ↦ let (r, e) = starts_with-splits (strs k) t hit in inl (k, r, h, e)
  | inr miss ↦ elim (first_cases ks t hs) [ inl found ↦ inl found | inr rest ↦ inr (miss, rest) ]
]

memory_codes : List TokenCode
memory_codes =
    TokenCode.push ∷ TokenCode.pop ∷ TokenCode.arg ∷ TokenCode.loc ∷ TokenCode.stat
    ∷ TokenCode.const ∷ TokenCode.this ∷ TokenCode.that ∷ TokenCode.ptr ∷ TokenCode.tmp ∷ []

control_codes : List TokenCode
control_codes =
    TokenCode.label ∷ TokenCode.goto ∷ TokenCode.if_goto ∷ TokenCode.func ∷ TokenCode.call
    ∷ TokenCode.ret ∷ TokenCode.add ∷ TokenCode.sub ∷ TokenCode.neg ∷ TokenCode.eq ∷ TokenCode.gt
    ∷ TokenCode.lt ∷ TokenCode.and ∷ TokenCode.or ∷ TokenCode.not ∷ []

keyword-found :
    (k : TokenCode) (b t r : List ℕ) (v : Statics)
    → IsKeyword k
    → t ≡ strs k ++ r
    → find match_fns 0 (t ++ b) v ≡ find match_fns 0 t v
keyword-found k b t r v h e =
    let whole : t ++ b ≡ strs k ++ (r ++ b) = ap (λ s. s ++ b) e ∙ append_assoc (strs k) r b in
    ap (λ s. find match_fns 0 s v) whole
    ∙ find-strs k (r ++ b) v h
    ∙ sym (find-strs k r v h)
    ∙ ap (λ s. find match_fns 0 s v) (sym e)

comment-misses :
    (t : List ℕ) (v : Statics) → starts_with (codes "//") t ≡ false → taken comment t v ≡ none
unfolding taken
comment-misses t v h = if-false _ _ h

find-nil : (t : List ℕ) (v : Statics) → find [] 28 t v ≡ none
unfolding find
find-nil t v = refl

-- A text without white space finds nothing, or what it finds with more behind it.
pub find-NoBlank :
    (b t : List ℕ) (v : Statics)
    → NoBlank t
    → (find match_fns 0 t v ≡ none) ⊎ (find match_fns 0 (t ++ b) v ≡ find match_fns 0 t v)
unfolding memory_codes control_codes
find-NoBlank b t v h = elim (first_cases memory_codes t search) [
  | inl (k, r, is, e) ↦ inr (keyword-found k b t r v is e)
  | inr misses ↦ elim (first_cases control_codes t search) [
    | inl (k, r, is, e) ↦ inr (keyword-found k b t r v is e)
    | inr later ↦ elim (Bool-cases (starts_with (codes "//") t)) [
      | inl two ↦
          let (r, e) = starts_with-splits (codes "//") t two in
          inr (
            ap (λ s. find match_fns 0 (s ++ b) v) e
            ∙ find-comment (r ++ b) v
            ∙ sym (find-comment r v)
            ∙ ap (λ s. find match_fns 0 s v) (sym e))
      | inr none_left ↦
          let ends = scan_ident ∷ comment ∷ [] in
          inl (
            find-Misses memory_fns (scan_uint ∷ (control_fns ++ ends)) 0 t v misses
            ∙ find-none scan_uint (control_fns ++ ends) 10 t v (uint-NoBlank t v h)
            ∙ find-Misses control_fns ends 11 t v later
            ∙ find-none scan_ident (comment ∷ []) 26 t v (ident-NoBlank t v h)
            ∙ find-none comment [] 27 t v (comment-misses t v none_left)
            ∙ find-nil t v)
    ]
  ]
]
