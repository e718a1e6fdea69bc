-- ===== src/Scan/Whole.antt =====
-- src/scan.c: the loop of `scan_blk` with enough fuel, and white space at the start of a text.
use hvme.Prelude.{
  ℕ, zero, suc, ◌<◌, ◌≤◌, ◌≡◌, ◌∙◌, refl, sym, ap, false, Option, some, List, [], ◌∷◌, ◌++◌, ◌==◌,
  if◌then◌else◌, Bool-cases, inl, inr, if-false, length, arith,
}
use hvme.Inst.{Pos}
use hvme.Console.{newline, is_space}
use hvme.Scan.{Cursor, inc, incl, incby, match_fns}
use hvme.Scan.Block.{eat_ws_from, num_trailing, Output, Round, more, return, round, scan_blk}
use hvme.Scan.Match.{find}
use hvme.Scan.Progress.{Advances, round-Advances, after_find, round_outside}
use hvme.Scan.Comments.{Clear, eat_ws-stays}

abbrev pub Result : Type 0
Result = Option (Option ℕ × Pos × Output)

-- `scan_blk` with enough fuel.
abbrev pub scan_all : Cursor → Output → Option (Option ℕ × Pos × Output)
scan_all c o = scan_blk (length c.text) c.text c.pos o

abbrev pub by_round : (Cursor → Output → Result) → Round → Result
by_round go (more c o) = go c o
by_round go (return r c o) = some (r, c.pos, o)

pub scan_blk-round :
    (fuel ch : ℕ) (text : List ℕ) (pos : Pos) (o : Output)
    → scan_blk (suc fuel) (ch ∷ text) pos o
      ≡ by_round
          (λ c o'. scan_blk fuel c.text c.pos o')
          (round ch (record { text = ch ∷ text; pos = pos }) o)
unfolding scan_blk
scan_blk-round fuel ch text pos o = by_cases (round ch (record { text = ch ∷ text; pos = pos }) o)
  where
    by_cases :
        (r : Round)
        → (elim r [
          | more c o' ↦ scan_blk fuel c.text c.pos o'
          | return r c o' ↦ some (r, c.pos, o')
        ])
          ≡ by_round (λ c o'. scan_blk fuel c.text c.pos o') r
    by_cases (more c o') = refl
    by_cases (return r c o') = refl

-- Any fuel that is enough gives the same result.
by_round-same :
    (text : List ℕ) (r : Round) (f g : Cursor → Output → Result)
    → Advances text r
    → ((c : Cursor) (o : Output) → length c.text < length text → f c o ≡ g c o)
    → by_round f r ≡ by_round g r
by_round-same text (more c o) f g (s, a) h = h c o a
by_round-same text (return r c o) f g a h = refl

scan_blk-fuel :
    (f g : ℕ) (text : List ℕ) (pos : Pos) (o : Output)
    → length text ≤ f
    → length text ≤ g
    → scan_blk f text pos o ≡ scan_blk g text pos o
unfolding scan_blk
scan_blk-fuel f g [] pos o h k = refl
scan_blk-fuel zero g (ch ∷ text) pos o h k = absurd (omega arith)
scan_blk-fuel (suc f) zero (ch ∷ text) pos o h k = absurd (omega arith)
scan_blk-fuel (suc f) (suc g) (ch ∷ text) pos o h k =
    scan_blk-round f ch text pos o
    ∙ by_round-same (ch ∷ text) (round ch (record { text = ch ∷ text; pos = pos }) o)
        (λ c o'. scan_blk f c.text c.pos o') (λ c o'. scan_blk g c.text c.pos o')
        (round-Advances ch text pos o)
        (λ c o' less. scan_blk-fuel f g c.text c.pos o' (omega arith) (omega arith))
    ∙ sym (scan_blk-round g ch text pos o)

-- A round, and the rest of the loop.
pub scan_all-round :
    (ch : ℕ) (text : List ℕ) (pos : Pos) (o : Output)
    → (let here : Cursor = record { text = ch ∷ text; pos = pos } in
        scan_all here o ≡ by_round scan_all (round ch here o))
scan_all-round ch text pos o =
    let here : Cursor = record { text = ch ∷ text; pos = pos } in
    scan_blk-round (length text) ch text pos o
    ∙ by_round-same (ch ∷ text) (round ch here o) (λ c o'. scan_blk (length text) c.text c.pos o')
        scan_all (round-Advances ch text pos o)
        (λ c o' less.
          scan_blk-fuel (length text) (length c.text) c.text c.pos o' (omega arith) (omega arith))

-- Outside of a comment, white space at the start makes no difference.
pub eat_ws-Clear : (text : List ℕ) (pos : Pos) → Clear (eat_ws_from text pos).text
unfolding eat_ws_from
eat_ws-Clear [] pos = tt
eat_ws-Clear (c ∷ text) pos =
    let here : Cursor = record { text = c ∷ text; pos = pos } in
    elim (Bool-cases (is_space c)) [
      | inl t ↦ rw t (eat_ws-Clear text (if c == newline then incl here else inc here).pos)
      | inr t ↦ rw t t
    ]

unfoldable pub at_eaten : Cursor → Output → Result
at_eaten e o = by_round scan_all (after_find e o (find match_fns 0 e.text o.vars))

pub scan_all-eaten :
    (ch : ℕ) (text : List ℕ) (pos : Pos) (o : Output)
    → o.vars.inside_comment ≡ false
    → scan_all (record { text = ch ∷ text; pos = pos }) o ≡ at_eaten (eat_ws_from (ch ∷ text) pos) o
unfolding at_eaten
scan_all-eaten ch text pos o h =
    scan_all-round ch text pos o
    ∙ ap (by_round scan_all) (round_outside ch (record { text = ch ∷ text; pos = pos }) o h)

at_eaten-nil :
    (pos : Pos) (o : Output) → at_eaten (record { text = []; pos = pos }) o ≡ some (some 0, pos, o)
unfolding at_eaten find num_trailing
at_eaten-nil pos o = refl

pub scan_all-Clear :
    (text : List ℕ) (pos : Pos) (o : Output)
    → o.vars.inside_comment ≡ false
    → Clear text
    → scan_all (record { text = text; pos = pos }) o
      ≡ at_eaten (record { text = text; pos = pos }) o
unfolding scan_blk
scan_all-Clear [] pos o h k = sym (at_eaten-nil pos o)
scan_all-Clear (ch ∷ text) pos o h k =
    scan_all-eaten ch text pos o h ∙ ap (λ e. at_eaten e o) (eat_ws-stays (ch ∷ text) pos k)

pub scan_all-eat_ws :
    (text : List ℕ) (pos : Pos) (o : Output)
    → o.vars.inside_comment ≡ false
    → scan_all (record { text = text; pos = pos }) o ≡ scan_all (eat_ws_from text pos) o
unfolding eat_ws_from
scan_all-eat_ws [] pos o h = refl
scan_all-eat_ws (ch ∷ text) pos o h =
    scan_all-eaten ch text pos o h
    ∙ sym (
        scan_all-Clear (eat_ws_from (ch ∷ text) pos).text (eat_ws_from (ch ∷ text) pos).pos o h
          (eat_ws-Clear (ch ∷ text) pos))

pub eat_ws-append :
    (a b : List ℕ) (pos : Pos)
    → (let e = eat_ws_from a pos in eat_ws_from (a ++ b) pos ≡ eat_ws_from (e.text ++ b) e.pos)
unfolding eat_ws_from inc incl incby
eat_ws-append [] b pos = refl
eat_ws-append (c ∷ a) b pos = elim (Bool-cases (is_space c)) [
  | inl t ↦ elim (Bool-cases (c == newline)) [
    | inl n ↦ rw (t, n) (eat_ws-append a b (incl (record { text = c ∷ a; pos = pos })).pos)
    | inr n ↦ rw (t, n) (eat_ws-append a b (inc (record { text = c ∷ a; pos = pos })).pos)
  ]
  | inr t ↦ rw t (sym (if-false _ _ t))
]

-- So a text and what is behind it can be put together behind the white space of the text.
pub scan_all-append :
    (a b : List ℕ) (pos : Pos) (o : Output)
    → o.vars.inside_comment ≡ false
    → (let e = eat_ws_from a pos in
        scan_all (record { text = a ++ b; pos = pos }) o
        ≡ scan_all (record { text = e.text ++ b; pos = e.pos }) o)
scan_all-append a b pos o h =
    let e = eat_ws_from a pos in
    scan_all-eat_ws (a ++ b) pos o h
    ∙ ap (λ c. scan_all c o) (eat_ws-append a b pos)
    ∙ sym (scan_all-eat_ws (e.text ++ b) e.pos o h)
