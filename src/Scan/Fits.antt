-- ===== src/Scan/Fits.antt =====
-- src/scan.c: what the scanner puts into a token has room there.
use hvme.Prelude.{
  ℕ, zero, suc, ◌<◌, ◌≤◌, ◌≡◌, Option, none, some, List, [], ◌∷◌, ◌++◌, ◌==◌, Bool-cases, inl, inr,
  length, take, drop, arith,
}
use hvme.Inst.{Pos}
use hvme.Token.{Token}
use hvme.Console.{newline}
use hvme.Scan.{
  Statics, Cursor, ScanFn, keyword, scan_uint, scan_ident, comment, match_fns, starts_with, digits,
  number, starts_blank, saturate, is_ident_start, count_ident, cut, max_ident_len, token_from_fn,
}
use hvme.Scan.Block.{
  eat_ws, Output, Round, more, return, round, scan_blk, in_comment, completed, is_comment,
}
use hvme.Scan.Match.{Hit, find, taken}
use hvme.Scan.Progress.{after_find, round_inside, round_outside, scan_blk-ends}

-- `uint16_t uilit` and `char ident[MAX_IDENT_LEN + 1]`
pub record Fits (uilit : ℕ) (ident : List ℕ) : Type 0 where
  pub number : uilit < 65536
  pub name : length ident ≤ max_ident_len

abbrev FitsVars : Statics → Type 0
FitsVars v = Fits v.uilit v.ident_buf

abbrev pub AllFit : List Token → Type 0
AllFit [] = Unit
AllFit (it ∷ its) = Fits it.uilit it.ident × AllFit its

pub record FitsOutput (o : Output) : Type 0 where
  pub cells : AllFit o.cells
  pub vars : Fits o.vars.uilit o.vars.ident_buf

AllFit-append : (xs ys : List Token) → AllFit xs → AllFit ys → AllFit (xs ++ ys)
AllFit-append [] ys a b = b
AllFit-append (x ∷ xs) ys (h, a) b = (h, AllFit-append xs ys a b)

abbrev FitsTaken : Option (ℕ × Statics) → Type 0
FitsTaken none = Unit
FitsTaken (some (n, v)) = FitsVars v

saturate-bound : (n : ℕ) → saturate n < 65536
unfolding saturate
saturate-bound n = ground arith

length-take : (n : ℕ) (s : List ℕ) → length (take n s) ≤ n
length-take zero s = omega arith
length-take (suc n) [] = omega arith
length-take (suc n) (c ∷ s) = omega (arith, length-take n s)

cut-bound : (n : ℕ) → cut n ≤ max_ident_len
unfolding cut
cut-bound n = ground arith

taken-Fits : (f : ScanFn) (text : List ℕ) (v : Statics) → FitsVars v → FitsTaken (taken f text v)
unfolding taken
taken-Fits (keyword spelling) text v h = elim (Bool-cases (starts_with spelling text)) [
  | inl t ↦ rw t h
  | inr t ↦ rw t tt
]
taken-Fits comment text v h = elim (Bool-cases (starts_with (47 ∷ 47 ∷ []) text)) [
  | inl t ↦ rw t h
  | inr t ↦ rw t tt
]
taken-Fits scan_uint text v h =
    let nums = digits 5 text in
    elim (Bool-cases (starts_blank (drop (length nums) text))) [
      | inl t ↦ elim (Bool-cases (length nums == 0)) [
        | inl z ↦ rw (t, z) tt
        | inr z ↦ rw (t, z) (record { number = saturate-bound (number nums); name = h.name })
      ]
      | inr t ↦ rw t tt
    ]
taken-Fits scan_ident [] v h = tt
taken-Fits scan_ident (a ∷ text) v h =
    let n = suc (count_ident text) in
    elim (Bool-cases (is_ident_start a)) [
      | inl s ↦ elim (Bool-cases (starts_blank (drop n (a ∷ text)))) [
        | inl t ↦
            let short : length (take (cut n) (a ∷ text)) ≤ max_ident_len =
              omega (arith, length-take (cut n) (a ∷ text), cut-bound n) in
            rw (s, t) (record { number = h.number; name = short })
        | inr t ↦ rw (s, t) tt
      ]
      | inr s ↦ rw s tt
    ]

abbrev FitsHit : Option Hit → Type 0
FitsHit none = Unit
FitsHit (some h) = FitsVars h.vars

find-Fits :
    (fs : List ScanFn) (fn_idx : ℕ) (text : List ℕ) (v : Statics)
    → FitsVars v
    → FitsHit (find fs fn_idx text v)
unfolding find
find-Fits [] fn_idx text v h = tt
find-Fits (f ∷ fs) fn_idx text v h =
    by_taken (taken f text v) (find fs (suc fn_idx) text v) (taken-Fits f text v h)
      (find-Fits fs (suc fn_idx) text v h)
  where
    by_taken :
        (t : Option (ℕ × Statics)) (y : Option Hit)
        → FitsTaken t
        → FitsHit y
        → FitsHit (elim t [
          | none ↦ y
          | some (n, v') ↦ some (record { fn_idx = fn_idx; fn = f; count = n; vars = v' })
        ])
    by_taken none y a b = b
    by_taken (some (n, v')) y a b = a

abbrev FitsRound : Round → Type 0
FitsRound (more c o) = FitsOutput o
FitsRound (return r c o) = FitsOutput o

after_find-Fits :
    (c : Cursor) (o : Output) (h : Option Hit)
    → FitsOutput o
    → FitsHit h
    → FitsRound (after_find c o h)
unfolding completed token_from_fn
after_find-Fits c o none a b = a
after_find-Fits c o (some h) a b = elim (Bool-cases (is_comment h.fn)) [
  | inl t ↦ rw t (record { cells = a.cells; vars = b })
  | inr t ↦ rw t (record {
    cells = AllFit-append o.cells (_ ∷ []) a.cells (b, tt);
    vars = record { number = omega arith; name = omega arith };
  })
]

round-Fits : (ch : ℕ) (c : Cursor) (o : Output) → FitsOutput o → FitsRound (round ch c o)
unfolding in_comment
round-Fits ch c o h = elim (Bool-cases o.vars.inside_comment) [
  | inl t ↦ rw (round_inside ch c o t) (elim (Bool-cases (ch == newline)) [
    | inl n ↦ rw n (record { cells = h.cells; vars = h.vars })
    | inr n ↦ rw n h
  ])
  | inr t ↦ rw (round_outside ch c o t) (
      after_find-Fits (eat_ws c) o (find match_fns 0 (eat_ws c).text o.vars) h
        (find-Fits match_fns 0 (eat_ws c).text o.vars h.vars))
]

abbrev FitsResult : Option (Option ℕ × Pos × Output) → Type 0
FitsResult none = Unit
FitsResult (some (r, pos, o)) = FitsOutput o

scan_blk-Fits :
    (fuel : ℕ) (text : List ℕ) (pos : Pos) (o : Output)
    → FitsOutput o
    → FitsResult (scan_blk fuel text pos o)
unfolding scan_blk
scan_blk-Fits fuel [] pos o h = h
scan_blk-Fits zero (ch ∷ text) pos o h = tt
scan_blk-Fits (suc fuel) (ch ∷ text) pos o h =
    let here : Cursor = record { text = ch ∷ text; pos = pos } in
    by_round (λ c o' a. scan_blk-Fits fuel c.text c.pos o' a) (round ch here o)
      (round-Fits ch here o h)
  where
    by_round :
        ((c : Cursor) (o' : Output) → FitsOutput o' → FitsResult (scan_blk fuel c.text c.pos o'))
        → (r : Round) → FitsRound r
        → FitsResult (elim r [
          | more c o' ↦ scan_blk fuel c.text c.pos o'
          | return r c o' ↦ some (r, c.pos, o')
        ])
    by_round go (more c o') a = go c o' a
    by_round go (return r c o') a = a

-- If the tokens made before and the static variables fit their fields, a number below 65536 and a
-- name of at most 24 characters, then `scan_blk` ends, and they fit after it, whatever it returns.
pub scan_blk-FitsOutput :
    (text : List ℕ) (pos : Pos) (o : Output)
    → FitsOutput o
    → (r : Option ℕ) × (end : Pos) × (o' : Output) × (scan_blk (length text) text pos o
        ≡ some (r, end, o'))
      × FitsOutput o'
scan_blk-FitsOutput text pos o h =
    let ((r, end, o'), run, leaves) = scan_blk-ends text pos o in
    (r, end, o', run, rw run at (scan_blk-Fits (length text) text pos o h))
