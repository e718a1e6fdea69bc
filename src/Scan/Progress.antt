-- ===== src/Scan/Progress.antt =====
-- src/scan.c: the loop of `scan_blk` ends, and what it leaves of the block.
use hvme.Prelude.{
  ℕ, zero, suc, ◌+◌, ◌≤◌, ◌<◌, ◌≡◌, ◌⊎◌, refl, true, false, Option, none, some, List, [], ◌∷◌, ◌==◌,
  Bool-cases, inl, inr, length, length-drop, arith, if-true, if-false, ◌∙◌,
}
use hvme.Inst.{Pos}
use hvme.Console.{newline}
use hvme.Scan.{Statics, Cursor, inc, incl, incby, ScanFn, match_fns, Matched}
use hvme.Scan.Block.{
  eat_ws, num_trailing, Output, Round, more, return, round, scan_blk, in_comment, no_comment,
  completed, is_comment,
}
use hvme.Scan.Match.{Hit, find, taken, matched_at, first_match-find}
use hvme.Scan.Rest.{
  Suffix, Suffix-refl, Suffix-trans, Suffix-drop, Suffix-length, NoBlank, HasBlank,
  num_trailing_cases, eat_ws-Suffix, Takes, HasLetters, taken-Takes,
}

abbrev AllHaveLetters : List ScanFn → Type 0
AllHaveLetters [] = Unit
AllHaveLetters (f ∷ fs) = HasLetters f × AllHaveLetters fs

abbrev pub Counts : List ℕ → Option Hit → Type 0
Counts text none = Unit
Counts text (some h) = (0 < h.count) × (h.count ≤ length text)

find-Counts :
    (fs : List ScanFn) (fn_idx : ℕ) (text : List ℕ) (v : Statics)
    → AllHaveLetters fs
    → Counts text (find fs fn_idx text v)
unfolding find
find-Counts [] fn_idx text v h = tt
find-Counts (f ∷ fs) fn_idx text v (h, hs) =
    by_taken (taken f text v) (find fs (suc fn_idx) text v) (taken-Takes f text v h)
      (find-Counts fs (suc fn_idx) text v hs)
  where
    by_taken :
        (t : Option (ℕ × Statics)) (y : Option Hit)
        → Takes text t
        → Counts text y
        → Counts text (elim t [
          | none ↦ y
          | some (n, v') ↦ some (record { fn_idx = fn_idx; fn = f; count = n; vars = v' })
        ])
    by_taken none y a b = b
    by_taken (some (n, v')) y a b = a

-- The functions of `match_fns` take a character at least, and none that is not there.
pub match_fns-Counts : (text : List ℕ) (v : Statics) → Counts text (find match_fns 0 text v)
match_fns-Counts text v = find-Counts match_fns 0 text v (omega arith)

-- What `num_trailing` answers at the rest of a block.
abbrev pub Trails : Option ℕ → List ℕ → Type 0
Trails r rest = (NoBlank rest × (r ≡ some (length rest))) ⊎ (HasBlank rest × (r ≡ none))

abbrev pub Advances : List ℕ → Round → Type 0
Advances text (more c o) = Suffix c.text text × (length c.text < length text)
Advances text (return r c o) = Suffix c.text text × Trails r c.text

completed-Advances :
    (text : List ℕ) (start : Pos) (m : Matched) (o : Output)
    → Suffix m.after.text text
    → length m.after.text < length text
    → Advances text (completed start m o)
unfolding completed
completed-Advances text start m o s h =
    let e = eat_ws-Suffix m.after.text m.after.pos in
    elim (Bool-cases (is_comment m.fn)) [
      | inl t ↦ rw t (Suffix-trans e s, omega (arith, Suffix-length e))
      | inr t ↦ rw t (Suffix-trans e s, omega (arith, Suffix-length e))
    ]

-- `no_comment` by the text alone.
abbrev pub after_find : Cursor → Output → Option Hit → Round
after_find c o none = return (num_trailing 0 c.text) c o
after_find c o (some h) =
    completed c.pos
      (record { fn_idx = h.fn_idx; fn = h.fn; after = incby h.count c; vars = h.vars }) o

pub no_comment-find :
    (c : Cursor) (o : Output) → no_comment c o ≡ after_find c o (find match_fns 0 c.text o.vars)
unfolding no_comment
no_comment-find c o =
    by_match (find match_fns 0 c.text o.vars) (first_match-find match_fns 0 c o.vars)
  where
    by_match :
        {r : Option Matched} (h : Option Hit)
        → r ≡ matched_at c h
        → (elim r [ none ↦ return (num_trailing 0 c.text) c o | some m ↦ completed c.pos m o ])
          ≡ after_find c o h
    by_match none e = rw e refl
    by_match (some h) e = rw e refl

after_find-Advances :
    (c : Cursor) (o : Output) (h : Option Hit)
    → Counts c.text h
    → Advances c.text (after_find c o h)
unfolding incby
after_find-Advances c o none a =
    let e : 0 + length c.text ≡ length c.text = omega arith in
    (Suffix-refl c.text, rw e at (num_trailing_cases 0 c.text))
after_find-Advances c o (some h) (a, b) =
    completed-Advances c.text c.pos _ o (Suffix-drop h.count c.text)
      (omega (arith, length-drop h.count c.text))

Advances-Suffix : (a b : List ℕ) (r : Round) → Suffix a b → Advances a r → Advances b r
Advances-Suffix a b (more c o) s (t, h) = (Suffix-trans t s, omega (arith, Suffix-length s))
Advances-Suffix a b (return r c o) s (t, h) = (Suffix-trans t s, h)

-- The two kinds of rounds.
pub round_inside :
    (ch : ℕ) (c : Cursor) (o : Output)
    → o.vars.inside_comment ≡ true
    → round ch c o ≡ in_comment ch c o
unfolding round
round_inside ch c o h = if-true (in_comment ch c o) (no_comment (eat_ws c) o) h

pub round_outside :
    (ch : ℕ) (c : Cursor) (o : Output)
    → o.vars.inside_comment ≡ false
    → round ch c o ≡ after_find (eat_ws c) o (find match_fns 0 (eat_ws c).text o.vars)
unfolding round
round_outside ch c o h =
    if-false (in_comment ch c o) (no_comment (eat_ws c) o) h ∙ no_comment-find (eat_ws c) o

in_comment-Advances :
    (ch : ℕ) (text : List ℕ) (pos : Pos) (o : Output)
    → Advances (ch ∷ text) (in_comment ch (record { text = ch ∷ text; pos = pos }) o)
unfolding in_comment inc incl incby
in_comment-Advances ch text pos o = elim (Bool-cases (ch == newline)) [
  | inl n ↦ rw n (Suffix-drop 1 (ch ∷ text), omega arith)
  | inr n ↦ rw n (Suffix-drop 1 (ch ∷ text), omega arith)
]

pub round-Advances :
    (ch : ℕ) (text : List ℕ) (pos : Pos) (o : Output)
    → Advances (ch ∷ text) (round ch (record { text = ch ∷ text; pos = pos }) o)
round-Advances ch text pos o =
    let here : Cursor = record { text = ch ∷ text; pos = pos } in
    let e = eat_ws here in
    elim (Bool-cases o.vars.inside_comment) [
      | inl t ↦ rw (round_inside ch here o t) (in_comment-Advances ch text pos o)
      | inr t ↦
          let found = find match_fns 0 e.text o.vars in
          rw (round_outside ch here o t) (
            Advances-Suffix e.text (ch ∷ text) (after_find e o found)
              (eat_ws-Suffix (ch ∷ text) pos)
              (after_find-Advances e o found (match_fns-Counts e.text o.vars)))
    ]

-- How `scan_blk` ends on a text: with what it leaves of it.
pub record Leaves (text : List ℕ) (r : Option ℕ) : Type 0 where
  pub rest : List ℕ
  pub suffix : Suffix rest text
  pub trails : Trails r rest

after_round-Leaves :
    (fuel : ℕ) (text : List ℕ) (r : Round)
    → length text ≤ suc fuel
    → Advances text r
    → ((c : Cursor) (o : Output)
        → length c.text ≤ fuel
        → (q : Option ℕ × Pos × Output) × (scan_blk fuel c.text c.pos o ≡ some q)
          × Leaves c.text q.0)
    → (q : Option ℕ × Pos × Output) × ((elim r [
      | more c o' ↦ scan_blk fuel c.text c.pos o'
      | return r c o' ↦ some (r, c.pos, o')
    ])
        ≡ some q)
      × Leaves text q.0
after_round-Leaves fuel text (more c o) h (s, a) rest =
    let (q, run, l) = rest c o (omega arith) in
    (q, run, record { rest = l.rest; suffix = Suffix-trans l.suffix s; trails = l.trails })
after_round-Leaves fuel text (return r c o) h (s, a) rest =
    ((r, c.pos, o), refl, record { rest = c.text; suffix = s; trails = a })

scan_blk-Leaves :
    (fuel : ℕ) (text : List ℕ) (pos : Pos) (o : Output)
    → length text ≤ fuel
    → (q : Option ℕ × Pos × Output) × (scan_blk fuel text pos o ≡ some q) × Leaves text q.0
unfolding scan_blk
scan_blk-Leaves fuel [] pos o h =
    ((some 0, pos, o), refl, record { rest = []; suffix = Suffix-refl []; trails = inl (tt, refl) })
scan_blk-Leaves zero (ch ∷ text) pos o h = absurd (omega arith)
scan_blk-Leaves (suc fuel) (ch ∷ text) pos o h =
    after_round-Leaves fuel (ch ∷ text) (round ch (record { text = ch ∷ text; pos = pos }) o) h
      (round-Advances ch text pos o) (λ c o' k. scan_blk-Leaves fuel c.text c.pos o' k)

-- `scan_blk` ends: as many rounds as there are bytes are enough. What it leaves of the block are
-- bytes with no white space, and it returns their number, or bytes with white space, and it
-- returns the error.
pub scan_blk-ends :
    (text : List ℕ) (pos : Pos) (o : Output)
    → (q : Option ℕ × Pos × Output) × (scan_blk (length text) text pos o ≡ some q) × Leaves text q.0
scan_blk-ends text pos o = scan_blk-Leaves (length text) text pos o (omega arith)
