-- ===== src/Scan/Plain.antt =====
-- src/scan.c: text without slashes leaves the scanner outside of comments.
use hvme.Prelude.{
  ℕ, zero, suc, ◌≡◌, ◌∙◌, refl, false, Option, none, some, List, [], ◌∷◌, ◌++◌, ◌==◌, Bool-cases,
  inl, inr, length, drop,
}
use hvme.Inst.{Pos}
use hvme.Scan.{
  Statics, Cursor, ScanFn, keyword, scan_uint, scan_ident, comment, match_fns, starts_with, digits,
  starts_blank, is_ident_start, count_ident, token_from_fn,
}
use hvme.Scan.Block.{eat_ws, Output, Round, more, return, round, scan_blk, completed, is_comment}
use hvme.Scan.Match.{Hit, find, taken}
use hvme.Scan.Rest.{Suffix, eat_ws-Suffix}
use hvme.Scan.Progress.{after_find, round_outside, Advances, round-Advances}

abbrev pub NoSlash : List ℕ → Type 0
NoSlash [] = Unit
NoSlash (c ∷ text) = ((c == b'/') ≡ false) × NoSlash text

pub NoSlash-append : (a b : List ℕ) → NoSlash a → NoSlash b → NoSlash (a ++ b)
NoSlash-append [] b h k = k
NoSlash-append (c ∷ a) b (h, hs) k = (h, NoSlash-append a b hs k)

behind_NoSlash : (a b : List ℕ) → NoSlash (a ++ b) → NoSlash b
behind_NoSlash [] b h = h
behind_NoSlash (c ∷ a) b (h, hs) = behind_NoSlash a b hs

pub Suffix-NoSlash : (a b : List ℕ) → Suffix a b → NoSlash b → NoSlash a
Suffix-NoSlash a b s h = behind_NoSlash s.read a (rw s.splits at h)

-- What a function takes is no comment, and does not change `inside_comment`.
abbrev Plain : ScanFn → Statics → Option (ℕ × Statics) → Type 0
Plain f v none = Unit
Plain f v (some (n, v')) = (is_comment f ≡ false) × (v'.inside_comment ≡ v.inside_comment)

taken-Plain : (f : ScanFn) (text : List ℕ) (v : Statics) → NoSlash text → Plain f v (taken f text v)
unfolding taken starts_with
taken-Plain (keyword spelling) text v h = elim (Bool-cases (starts_with spelling text)) [
  | inl t ↦ rw t (refl, refl)
  | inr t ↦ rw t tt
]
taken-Plain comment [] v h = tt
taken-Plain comment (c ∷ text) v (h, hs) = rw h tt
taken-Plain scan_uint text v h =
    let nums = digits 5 text in
    elim (Bool-cases (starts_blank (drop (length nums) text))) [
      | inl t ↦ elim (Bool-cases (length nums == 0)) [
        | inl z ↦ rw (t, z) tt
        | inr z ↦ rw (t, z) (refl, refl)
      ]
      | inr t ↦ rw t tt
    ]
taken-Plain scan_ident [] v h = tt
taken-Plain scan_ident (a ∷ text) v h =
    let n = suc (count_ident text) in
    elim (Bool-cases (is_ident_start a)) [
      | inl s ↦ elim (Bool-cases (starts_blank (drop n (a ∷ text)))) [
        | inl t ↦ rw (s, t) (refl, refl)
        | inr t ↦ rw (s, t) tt
      ]
      | inr s ↦ rw s tt
    ]

abbrev PlainHit : Statics → Option Hit → Type 0
PlainHit v none = Unit
PlainHit v (some h) = (is_comment h.fn ≡ false) × (h.vars.inside_comment ≡ v.inside_comment)

find-PlainHit :
    (fs : List ScanFn) (fn_idx : ℕ) (text : List ℕ) (v : Statics)
    → NoSlash text
    → PlainHit v (find fs fn_idx text v)
unfolding find
find-PlainHit [] fn_idx text v h = tt
find-PlainHit (f ∷ fs) fn_idx text v h =
    by_taken (taken f text v) (find fs (suc fn_idx) text v) (taken-Plain f text v h)
      (find-PlainHit fs (suc fn_idx) text v h)
  where
    by_taken :
        (t : Option (ℕ × Statics)) (y : Option Hit)
        → Plain f v t
        → PlainHit v y
        → PlainHit v (elim t [
          | none ↦ y
          | some (n, v') ↦ some (record { fn_idx = fn_idx; fn = f; count = n; vars = v' })
        ])
    by_taken none y a b = b
    by_taken (some (n, v')) y a b = a

abbrev Outside : Round → Type 0
Outside (more c o) = o.vars.inside_comment ≡ false
Outside (return r c o) = o.vars.inside_comment ≡ false

after_find-Outside :
    (c : Cursor) (o : Output) (h : Option Hit)
    → o.vars.inside_comment ≡ false
    → PlainHit o.vars h
    → Outside (after_find c o h)
unfolding completed token_from_fn
after_find-Outside c o none a b = a
after_find-Outside c o (some h) a (b, k) = rw b (k ∙ a)

round-Outside :
    (ch : ℕ) (text : List ℕ) (pos : Pos) (o : Output)
    → NoSlash (ch ∷ text)
    → o.vars.inside_comment ≡ false
    → Outside (round ch (record { text = ch ∷ text; pos = pos }) o)
round-Outside ch text pos o h outside =
    let here : Cursor = record { text = ch ∷ text; pos = pos } in
    let e = eat_ws here in
    let clean = Suffix-NoSlash e.text (ch ∷ text) (eat_ws-Suffix (ch ∷ text) pos) h in
    rw (round_outside ch here o outside) (
      after_find-Outside e o (find match_fns 0 e.text o.vars) outside
        (find-PlainHit match_fns 0 e.text o.vars clean))

abbrev pub EndsOutside : Option (Option ℕ × Pos × Output) → Type 0
EndsOutside none = Unit
EndsOutside (some (r, end, o)) = o.vars.inside_comment ≡ false

pub scan_blk-EndsOutside :
    (fuel : ℕ) (text : List ℕ) (pos : Pos) (o : Output)
    → NoSlash text
    → o.vars.inside_comment ≡ false
    → EndsOutside (scan_blk fuel text pos o)
unfolding scan_blk
scan_blk-EndsOutside fuel [] pos o h outside = outside
scan_blk-EndsOutside zero (ch ∷ text) pos o h outside = tt
scan_blk-EndsOutside (suc fuel) (ch ∷ text) pos o h outside =
    by_round
      (λ c o' s k.
        scan_blk-EndsOutside fuel c.text c.pos o' (Suffix-NoSlash c.text (ch ∷ text) s h) k)
      (round ch (record { text = ch ∷ text; pos = pos }) o) (round-Advances ch text pos o)
      (round-Outside ch text pos o h outside)
  where
    by_round :
        ((c : Cursor) (o' : Output)
          → Suffix c.text (ch ∷ text)
          → o'.vars.inside_comment ≡ false
          → EndsOutside (scan_blk fuel c.text c.pos o'))
        → (r : Round) → Advances (ch ∷ text) r
        → Outside r
        → EndsOutside (elim r [
          | more c o' ↦ scan_blk fuel c.text c.pos o'
          | return r c o' ↦ some (r, c.pos, o')
        ])
    by_round go (more c o') (s, a) k = go c o' s k
    by_round go (return r c o') a k = k
