-- ===== src/Scan/Match.antt =====
-- src/scan.c: which of the functions of `match_fns` completes, in terms of the text alone.
use hvme.Prelude.{
  ℕ, suc, ◌≤◌, ◌≡◌, refl, true, false, Option, none, some, List, [], ◌∷◌, ltb, ◌==◌, if◌then◌else◌,
  Bool-cases, inl, inr, length, take, drop, arith, le→not_ltb,
}
use hvme.Text.{codes}
use hvme.Scan.{
  Statics, Cursor, incby, starts_with, static_scan, digits, number, saturate, starts_blank, uint,
  is_ident_start, count_ident, cut, ident_from, ident, ScanFn, keyword, scan_uint, scan_ident,
  comment, run_fn, Matched, first_match, with_vars,
}

-- The number of characters that a function takes, with the static variables after it.
unfoldable pub taken : ScanFn → List ℕ → Statics → Option (ℕ × Statics)
unfolding digits number saturate starts_blank is_ident_start count_ident cut starts_with
taken (keyword search) text v = if starts_with search text then some (length search, v) else none
taken scan_uint text v =
    let nums = digits 5 text in
    let n = length nums in
    if starts_blank (drop n text)
    then (if n == 0 then none else some (n, record v { uilit = saturate (number nums) }))
    else none
taken scan_ident [] v = none
taken scan_ident (a ∷ text) v =
    let n = suc (count_ident text) in
    if is_ident_start a
    then (if starts_blank (drop n (a ∷ text))
        then some (n, record v { ident_buf = take (cut n) (a ∷ text) })
        else none)
    else none
taken comment text v = if starts_with (codes "//") text then some (2, v) else none

-- A cursor moved by what has been taken.
abbrev pub moved : Cursor → Option (ℕ × Statics) → Option (Cursor × Statics)
moved c none = none
moved c (some (n, v)) = some (incby n c, v)

pub starts_with-length :
    (search text : List ℕ) → starts_with search text ≡ true → length search ≤ length text
unfolding starts_with
starts_with-length [] text h = omega arith
starts_with-length (s ∷ search) [] h = cc
starts_with-length (s ∷ search) (c ∷ text) h = ground (arith, starts_with-length search text)

static_scan_lem :
    (search : List ℕ) (c : Cursor) (v : Statics)
    → with_vars v (static_scan search c)
      ≡ moved c (if starts_with search c.text then some (length search, v) else none)
unfolding static_scan
static_scan_lem search c v = elim (Bool-cases (starts_with search c.text)) [
  | inl h ↦
      let short : ltb (length c.text) (length search) ≡ false =
        le→not_ltb _ _ (starts_with-length search c.text h) in
      rw (short, h) refl
  | inr h ↦ elim (Bool-cases (ltb (length c.text) (length search))) [
    | inl t ↦ rw (t, h) refl
    | inr t ↦ rw (t, h) refl
  ]
]

uint-taken : (c : Cursor) (v : Statics) → uint c v ≡ moved c (taken scan_uint c.text v)
unfolding uint taken
uint-taken c v =
    let nums = digits 5 c.text in
    elim (Bool-cases (starts_blank (drop (length nums) c.text))) [
      | inl h ↦ elim (Bool-cases (length nums == 0)) [
        | inl e ↦ rw (h, e) refl
        | inr e ↦ rw (h, e) refl
      ]
      | inr h ↦ rw h refl
    ]

ident-taken :
    (text : List ℕ) (c : Cursor) (v : Statics)
    → c.text ≡ text
    → ident_from text c v ≡ moved c (taken scan_ident text v)
unfolding ident_from taken
ident-taken [] c v e = refl
ident-taken (a ∷ text) c v e =
    let n = suc (count_ident text) in
    rw e (elim (Bool-cases (is_ident_start a)) [
      | inl h ↦ elim (Bool-cases (starts_blank (drop n (a ∷ text)))) [
        | inl t ↦ rw (h, t) refl
        | inr t ↦ rw (h, t) refl
      ]
      | inr h ↦ rw h refl
    ])

pub run_fn-taken :
    (f : ScanFn) (c : Cursor) (v : Statics) → run_fn f c v ≡ moved c (taken f c.text v)
unfolding run_fn taken ident
run_fn-taken (keyword search) c v = static_scan_lem search c v
run_fn-taken comment c v = static_scan_lem (codes "//") c v
run_fn-taken scan_uint c v = uint-taken c v
run_fn-taken scan_ident c v = ident-taken c.text c v refl

-- A function that has completed, with the number of characters that it took.
pub record Hit : Type 0 where
  pub fn_idx : ℕ
  pub fn : ScanFn
  pub count : ℕ
  pub vars : Statics

-- `first_match` on the text alone.
unfoldable pub find : List ScanFn → ℕ → List ℕ → Statics → Option Hit
unfolding taken
find [] fn_idx text v = none
find (f ∷ fs) fn_idx text v = elim (taken f text v) [
  | none ↦ find fs (suc fn_idx) text v
  | some (n, v') ↦ some (record { fn_idx = fn_idx; fn = f; count = n; vars = v' })
]

abbrev pub matched_at : Cursor → Option Hit → Option Matched
matched_at c none = none
matched_at c (some h) =
    some (record { fn_idx = h.fn_idx; fn = h.fn; after = incby h.count c; vars = h.vars })

pub first_match-find :
    (fs : List ScanFn) (fn_idx : ℕ) (c : Cursor) (v : Statics)
    → first_match fs fn_idx c v ≡ matched_at c (find fs fn_idx c.text v)
unfolding first_match find
first_match-find [] fn_idx c v = refl
first_match-find (f ∷ fs) fn_idx c v =
    elim_moved (taken f c.text v) _ (run_fn-taken f c v) (first_match-find fs (suc fn_idx) c v)
  where
    elim_moved :
        {r : Option (Cursor × Statics)} {x : Option Matched} (t : Option (ℕ × Statics))
        (y : Option Hit)
        → r ≡ moved c t
        → x ≡ matched_at c y
        → (elim r [
          | none ↦ x
          | some (c', v') ↦ some (record { fn_idx = fn_idx; fn = f; after = c'; vars = v' })
        ])
          ≡ matched_at c (elim t [
            | none ↦ y
            | some (n, v') ↦ some (record { fn_idx = fn_idx; fn = f; count = n; vars = v' })
          ])
    elim_moved none y e h = rw e h
    elim_moved (some (n, v')) y e h = rw e refl
