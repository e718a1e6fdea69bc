-- ===== src/Scan/Comments.antt =====
-- src/scan.c: where a comment ends.
use hvme.Prelude.{
  ℕ, suc, ◌+◌, ◌≡◌, ◌∙◌, refl, sym, ap, true, false, Option, some, List, [], ◌∷◌, ◌++◌, ◌==◌,
  if◌then◌else◌, if-false, length, arith,
}
use hvme.Inst.{Pos}
use hvme.Text.{codes}
use hvme.Console.{newline, is_space, is_digit, is_alpha}
use hvme.Scan.{Statics, Cursor, inc, incl, incby, match_fns, comment}
use hvme.Scan.Block.{
  eat_ws_from, Output, Round, more, return, round, scan_blk, in_comment, completed,
}
use hvme.Scan.Match.{find}
use hvme.Scan.Progress.{after_find, round_inside, round_outside}

abbrev pub AllBlank : List ℕ → Type 0
AllBlank [] = Unit
AllBlank (c ∷ text) = (is_space c ≡ true) × AllBlank text

abbrev pub NoNewline : List ℕ → Type 0
NoNewline [] = Unit
NoNewline (c ∷ text) = ((c == newline) ≡ false) × NoNewline text

-- White space is eaten up to a character that is none.
abbrev pub Clear : List ℕ → Type 0
Clear [] = Unit
Clear (c ∷ text) = is_space c ≡ false

pub eat_ws-stays :
    (text : List ℕ) (pos : Pos)
    → Clear text
    → eat_ws_from text pos ≡ record { text = text; pos = pos }
unfolding eat_ws_from
eat_ws-stays [] pos h = refl
eat_ws-stays (c ∷ text) pos h = rw h refl

pub eat_ws-gap :
    (gap text : List ℕ) (pos : Pos)
    → AllBlank gap
    → Clear text
    → (eat_ws_from (gap ++ text) pos).text ≡ text
unfolding eat_ws_from
eat_ws-gap [] text pos a h = ap (λ (c : Cursor). c.text) (eat_ws-stays text pos h)
eat_ws-gap (c ∷ gap) text pos (b, a) h =
    let here : Cursor = record { text = c ∷ gap ++ text; pos = pos } in
    rw b (eat_ws-gap gap text (if c == newline then incl here else inc here).pos a h)

-- `inside_comment` is set and cleared.
abbrev inside : Output → Output
inside o = record o { vars = record (o.vars) { inside_comment = true } }

abbrev outside : Output → Output
outside o = record o { vars = record (o.vars) { inside_comment = false } }

outside_lem : (o : Output) → o.vars.inside_comment ≡ false → outside (inside o) ≡ o
outside_lem o h = ap (λ b. record o { vars = record (o.vars) { inside_comment = b } }) (sym h)

pub scan_blk_more :
    (fuel ch : ℕ) (text : List ℕ) (pos : Pos) (o : Output) (c : Cursor) (o' : Output)
    → round ch (record { text = ch ∷ text; pos = pos }) o ≡ more c o'
    → scan_blk (suc fuel) (ch ∷ text) pos o ≡ scan_blk fuel c.text c.pos o'
unfolding scan_blk
scan_blk_more fuel ch text pos o c o' h = goes h
  where
    goes :
        {r : Round}
        → r ≡ more c o'
        → (elim r [
          | more c o' ↦ scan_blk fuel c.text c.pos o'
          | return r c o' ↦ some (r, c.pos, o')
        ])
          ≡ scan_blk fuel c.text c.pos o'
    goes e = rw e refl

-- Inside a comment, the loop goes on behind the next newline.
scan_blk-line :
    (fuel : ℕ) (line rest : List ℕ) (pos : Pos) (o : Output)
    → NoNewline line
    → (pos' : Pos) × (scan_blk (length line + suc fuel) (line ++ newline ∷ rest) pos (inside o)
        ≡ scan_blk fuel rest pos' (outside o))
unfolding in_comment inc incl incby
scan_blk-line fuel [] rest pos o n =
    let here : Cursor = record { text = newline ∷ rest; pos = pos } in
    let e : 0 + suc fuel ≡ suc fuel = omega arith in
    (
      (incl here).pos,
      rw e (
          scan_blk_more fuel newline rest pos (inside o) (incl here) (outside o)
            (round_inside newline here (inside o) refl)),
    )
scan_blk-line fuel (c ∷ line) rest pos o (h, n) =
    let here : Cursor = record { text = c ∷ line ++ newline ∷ rest; pos = pos } in
    let (pos', run) = scan_blk-line fuel line rest (inc here).pos o n in
    let e : length (c ∷ line) + suc fuel ≡ suc (length line + suc fuel) = omega arith in
    (
      pos',
      ap (λ k. scan_blk k here.text pos (inside o)) e
          ∙ scan_blk_more (length line + suc fuel) c (line ++ newline ∷ rest) pos (inside o)
              (inc here) (inside o) (round_inside c here (inside o) refl ∙ if-false _ _ h)
          ∙ run,
    )

pub find-comment :
    (text : List ℕ) (v : Statics)
    → find match_fns 0 (codes "//" ++ text) v
      ≡ some (record { fn_idx = 27; fn = comment; count = 2; vars = v })
unfolding find is_digit is_space is_alpha
find-comment text v = refl

round-comment :
    (text : List ℕ) (pos : Pos) (o : Output)
    → o.vars.inside_comment ≡ false
    → round b'/' (record { text = codes "//" ++ text; pos = pos }) o
      ≡ more
          (eat_ws_from text (incby 2 (record { text = codes "//" ++ text; pos = pos })).pos)
          (inside o)
unfolding eat_ws_from completed incby is_space
round-comment text pos o h =
    let here : Cursor = record { text = codes "//" ++ text; pos = pos } in
    round_outside b'/' here o h ∙ ap (after_find here o) (find-comment text o.vars)

-- A comment, of `//`, white space and a line that starts with another character, is skipped to
-- behind that line, with no token. The white space may hold newlines: a `//` that has nothing but
-- white space behind it on its line takes the blank lines below and the next line with it.
pub scan_blk-comment :
    (fuel ch : ℕ) (gap line rest : List ℕ) (pos : Pos) (o : Output)
    → o.vars.inside_comment ≡ false
    → AllBlank gap
    → is_space ch ≡ false
    → NoNewline (ch ∷ line)
    → (pos' : Pos) × (scan_blk
          (length (ch ∷ line) + suc (suc fuel))
          (codes "//" ++ (gap ++ (ch ∷ line ++ newline ∷ rest)))
          pos
          o
        ≡ scan_blk fuel rest pos' o)
scan_blk-comment fuel ch gap line rest pos o h g s n =
    let text = gap ++ (ch ∷ line ++ newline ∷ rest) in
    let here : Cursor = record { text = codes "//" ++ text; pos = pos } in
    let next = eat_ws_from text (incby 2 here).pos in
    let (pos', run) = scan_blk-line fuel (ch ∷ line) rest next.pos o n in
    let e : length (ch ∷ line) + suc (suc fuel) ≡ suc (length (ch ∷ line) + suc fuel) =
      omega arith in
    let eaten : next.text ≡ ch ∷ line ++ newline ∷ rest =
      eat_ws-gap gap (ch ∷ line ++ newline ∷ rest) (incby 2 here).pos g s in
    let behind : scan_blk (length (ch ∷ line) + suc fuel) next.text next.pos (inside o)
        ≡ scan_blk fuel rest pos' (outside o) =
      then_line (length (ch ∷ line) + suc fuel) next.pos eaten run in
    (
      pos',
      ap (λ k. scan_blk k here.text pos o) e
          ∙ scan_blk_more (length (ch ∷ line) + suc fuel) b'/' (b'/' ∷ text) pos o next (inside o)
              (round-comment text pos o h)
          ∙ behind
          ∙ ap (scan_blk fuel rest pos') (outside_lem o h),
    )
  where
    then_line :
        (k : ℕ) (p : Pos) {t u : List ℕ} {r : Option (Option ℕ × Pos × Output)}
        → t ≡ u
        → scan_blk k u p (inside o) ≡ r
        → scan_blk k t p (inside o) ≡ r
    then_line k p e run = ap (λ t. scan_blk k t p (inside o)) e ∙ run
