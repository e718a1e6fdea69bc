-- ===== src/Scan/Split.antt =====
-- src/scan.c: a text that is scanned in two blocks is scanned as the whole.
use hvme.Prelude.{
  ℕ, zero, suc, ◌+◌, ◌<◌, ◌≤◌, ◌≡◌, ◌∙◌, refl, ap, true, false, Option, none, some, List, [], ◌∷◌,
  ◌++◌, ◌==◌, Bool-cases, Option-cases, inl, inr, if-true, if-false, length, drop, arith,
  length-drop,
}
use hvme.Inst.{Pos}
use hvme.Console.{newline}
use hvme.Scan.{Cursor, inc, incl, incby, match_fns}
use hvme.Scan.Block.{eat_ws_from, eat_ws, num_trailing, Output, more, round, scan_blk, in_comment}
use hvme.Scan.Match.{Hit, find}
use hvme.Scan.Rest.{
  Suffix, Suffix-refl, Suffix-trans, Suffix-cons, Suffix-drop, Suffix-length, num_trailing_cases,
  eat_ws-Suffix,
}
use hvme.Scan.Progress.{Counts, match_fns-Counts, after_find, round_inside, round_outside}
use hvme.Scan.Comments.{scan_blk_more}
use hvme.Scan.Extend.{find-HasBlank}
use hvme.Scan.Whole.{
  scan_all, by_round, scan_blk-round, scan_all-round, eat_ws-Clear, at_eaten, scan_all-Clear,
  eat_ws-append, scan_all-append,
}
use hvme.Scan.Joined.{
  num_trailing-HasBlank, Clear-append, HasBlank-length, output_of, after_find-some, found-more,
  joined,
}

-- How a block is continued: by what it leaves and the next block, unless it ends within a comment;
-- or by nothing, on an error.
pub record Continued (a b : List ℕ) (pos : Pos) (o : Output) (n : ℕ) (end : Pos) (o' : Output)
    : Type 0 where
  pub rest : List ℕ
  pub suffix : Suffix rest a
  pub size : length rest ≡ n
  pub goes_on :
      scan_all (record { text = a ++ b; pos = pos }) o
      ≡ scan_all (record { text = rest ++ b; pos = end }) o'

abbrev pub Continues : List ℕ → List ℕ → Pos → Output → Option ℕ × Pos × Output → Type 0
Continues a b pos o (none, end, o') =
    scan_all (record { text = a ++ b; pos = pos }) o ≡ some (none, end, o')
Continues a b pos o (some n, end, o') =
    o'.vars.inside_comment ≡ false → Continued a b pos o n end o'

Continues-Suffix :
    (a u b : List ℕ) (pos p : Pos) (o o' : Output) (q : Option ℕ × Pos × Output)
    → Suffix u a
    → scan_all (record { text = a ++ b; pos = pos }) o
      ≡ scan_all (record { text = u ++ b; pos = p }) o'
    → Continues u b p o' q
    → Continues a b pos o q
Continues-Suffix a u b pos p o o' (none, end, out) s e h = e ∙ h
Continues-Suffix a u b pos p o o' (some n, end, out) s e h = λ outside.
    (let k = h outside in
      record {
        rest = k.rest;
        suffix = Suffix-trans k.suffix s;
        size = k.size;
        goes_on = e ∙ k.goes_on;
      })

record Splits (fuel : ℕ) (a b : List ℕ) (pos : Pos) (o : Output) : Type 0 where
  result : Option ℕ × Pos × Output
  run : scan_blk fuel a pos o ≡ some result
  continues : Continues a b pos o result

-- A round that goes on.
Splits-more :
    (fuel ch : ℕ) (t u b : List ℕ) (pos p : Pos) (o o' : Output)
    → round ch (record { text = ch ∷ t; pos = pos }) o ≡ more (record { text = u; pos = p }) o'
    → Suffix u (ch ∷ t)
    → scan_all (record { text = ch ∷ t ++ b; pos = pos }) o
      ≡ scan_all (record { text = u ++ b; pos = p }) o'
    → Splits fuel u b p o'
    → Splits (suc fuel) (ch ∷ t) b pos o
Splits-more fuel ch t u b pos p o o' step s path rest = record {
  result = rest.result;
  run = scan_blk_more fuel ch t pos o (record { text = u; pos = p }) o' step ∙ rest.run;
  continues = Continues-Suffix (ch ∷ t) u b pos p o o' rest.result s path rest.continues;
}

-- Inside a comment.
Splits-inside :
    (fuel ch : ℕ) (t b : List ℕ) (pos : Pos) (o : Output)
    → o.vars.inside_comment ≡ true
    → ((p : Pos) (o' : Output) → Splits fuel t b p o')
    → Splits (suc fuel) (ch ∷ t) b pos o
unfolding in_comment inc incl incby
Splits-inside fuel ch t b pos o inside rest =
    let here : Cursor = record { text = ch ∷ t; pos = pos } in
    let whole : Cursor = record { text = ch ∷ t ++ b; pos = pos } in
    let first = round_inside ch here o inside in
    let second =
      scan_all-round ch (t ++ b) pos o ∙ ap (by_round scan_all) (round_inside ch whole o inside) in
    elim (Bool-cases (ch == newline)) [
      | inl n ↦
          let o' : Output = record o { vars = record (o.vars) { inside_comment = false } } in
          Splits-more fuel ch t t b pos (incl here).pos o o' (first ∙ if-true _ _ n)
            (Suffix-cons ch (Suffix-refl t)) (second ∙ ap (by_round scan_all) (if-true _ _ n))
            (rest (incl here).pos o')
      | inr n ↦
          Splits-more fuel ch t t b pos (inc here).pos o o (first ∙ if-false _ _ n)
            (Suffix-cons ch (Suffix-refl t)) (second ∙ ap (by_round scan_all) (if-false _ _ n))
            (rest (inc here).pos o)
    ]

-- Outside of a comment, where nothing is found.
Splits-none :
    (fuel ch : ℕ) (t b : List ℕ) (pos : Pos) (o : Output)
    → o.vars.inside_comment ≡ false
    → find match_fns 0 (eat_ws_from (ch ∷ t) pos).text o.vars ≡ none
    → Splits (suc fuel) (ch ∷ t) b pos o
unfolding at_eaten
Splits-none fuel ch t b pos o outside nothing =
    let e = eat_ws_from (ch ∷ t) pos in
    let stop : scan_blk (suc fuel) (ch ∷ t) pos o ≡ some (num_trailing 0 e.text, e.pos, o) =
      scan_blk-round fuel ch t pos o
      ∙ ap (by_round (λ c o'. scan_blk fuel c.text c.pos o')) (
          round_outside ch (record { text = ch ∷ t; pos = pos }) o outside
          ∙ ap (after_find e o) nothing) in
    let joins = scan_all-append (ch ∷ t) b pos o outside in
    elim (num_trailing_cases 0 e.text) [
      | inl (solid, n) ↦ record {
        result = (some (0 + length e.text), e.pos, o);
        run = stop ∙ ap (λ r. some (r, e.pos, o)) n;
        continues = λ h. record {
          rest = e.text;
          suffix = eat_ws-Suffix (ch ∷ t) pos;
          size = omega arith;
          goes_on = joins;
        };
      }
      | inr (blank, n) ↦
          let clear =
            Clear-append e.text b (eat_ws-Clear (ch ∷ t) pos) (HasBlank-length e.text blank) in
          let whole : Cursor = record { text = e.text ++ b; pos = e.pos } in
          record {
            result = (none, e.pos, o);
            run = stop ∙ ap (λ r. some (r, e.pos, o)) n;
            continues =
                joins
                ∙ scan_all-Clear (e.text ++ b) e.pos o outside clear
                ∙ ap (λ f. by_round scan_all (after_find whole o f))
                    (find-HasBlank b e.text o.vars blank ∙ nothing)
                ∙ ap (λ r. some (r, e.pos, o)) (num_trailing-HasBlank 0 e.text b blank);
          }
    ]

drop-more : (n : ℕ) (t b : List ℕ) → n ≤ length t → drop n (t ++ b) ≡ drop n t ++ b
drop-more zero t b h = refl
drop-more (suc n) [] b h = absurd (omega arith)
drop-more (suc n) (c ∷ t) b h = drop-more n t b (omega arith)

scan_blk-nil : (fuel : ℕ) (pos : Pos) (o : Output) → scan_blk fuel [] pos o ≡ some (some 0, pos, o)
unfolding scan_blk
scan_blk-nil fuel pos o = refl

-- Outside of a comment, where a function is found.
Splits-some :
    (fuel ch : ℕ) (t b : List ℕ) (pos : Pos) (o : Output) (h : Hit)
    → o.vars.inside_comment ≡ false
    → find match_fns 0 (eat_ws_from (ch ∷ t) pos).text o.vars ≡ some h
    → 0 < h.count
    → h.count ≤ length (eat_ws_from (ch ∷ t) pos).text
    → ((u : List ℕ) (p : Pos) (o' : Output) → length u ≤ length t → Splits fuel u b p o')
    → Splits (suc fuel) (ch ∷ t) b pos o
unfolding at_eaten incby
Splits-some fuel ch t b pos o h outside found least most rest =
    let e = eat_ws_from (ch ∷ t) pos in
    let after = incby h.count e in
    let u = eat_ws after in
    let o' = output_of h e.pos o in
    let whole : Cursor = record { text = e.text ++ b; pos = e.pos } in
    let step : round ch (record { text = ch ∷ t; pos = pos }) o ≡ more u o' =
      round_outside ch (record { text = ch ∷ t; pos = pos }) o outside
      ∙ ap (after_find e o) found
      ∙ after_find-some e o h in
    let suffix : Suffix u.text (ch ∷ t) =
      Suffix-trans (eat_ws-Suffix after.text after.pos)
        (Suffix-trans (Suffix-drop h.count e.text) (eat_ws-Suffix (ch ∷ t) pos)) in
    let clear = Clear-append e.text b (eat_ws-Clear (ch ∷ t) pos) (omega arith) in
    let path : scan_all (record { text = ch ∷ t ++ b; pos = pos }) o
        ≡ scan_all (eat_ws_from (u.text ++ b) u.pos) o' =
      scan_all-append (ch ∷ t) b pos o outside
      ∙ scan_all-Clear (e.text ++ b) e.pos o outside clear
      ∙ ap (λ f. by_round scan_all (after_find whole o f)) (found-more e.text b o.vars h found)
      ∙ ap (by_round scan_all) (after_find-some whole o h)
      ∙ ap (λ d. scan_all (eat_ws_from d after.pos) o') (drop-more h.count e.text b most)
      ∙ ap (λ c. scan_all c o') (eat_ws-append after.text b after.pos) in
    elim (joined u b o' (eat_ws-Clear after.text after.pos)) [
      | inl same ↦ Splits-more fuel ch t u.text b pos u.pos o o' step suffix (path ∙ same) (
          rest u.text u.pos o' (
            omega (
              arith,
              Suffix-length (eat_ws-Suffix after.text after.pos),
              Suffix-length (eat_ws-Suffix (ch ∷ t) pos),
              length-drop h.count e.text,
            )))
      | inr (gone, inside) ↦ record {
        result = (some 0, u.pos, o');
        run =
            scan_blk_more fuel ch t pos o u o' step
            ∙ ap (λ s. scan_blk fuel s u.pos o') gone
            ∙ scan_blk-nil fuel u.pos o';
        continues = λ k. absurd (cc (k, inside));
      }
    ]

scan_blk-Splits :
    (fuel : ℕ) (a b : List ℕ) (pos : Pos) (o : Output) → length a ≤ fuel → Splits fuel a b pos o
scan_blk-Splits fuel [] b pos o h = record {
  result = (some 0, pos, o);
  run = scan_blk-nil fuel pos o;
  continues = λ k. record { rest = []; suffix = Suffix-refl []; size = refl; goes_on = refl };
}
scan_blk-Splits zero (ch ∷ t) b pos o h = absurd (omega arith)
scan_blk-Splits (suc fuel) (ch ∷ t) b pos o h = elim (Bool-cases o.vars.inside_comment) [
  | inl inside ↦
      Splits-inside fuel ch t b pos o inside (λ p o'. scan_blk-Splits fuel t b p o' (omega arith))
  | inr outside ↦
      let e = eat_ws_from (ch ∷ t) pos in
      elim (Option-cases (find match_fns 0 e.text o.vars)) [
        | inl nothing ↦ Splits-none fuel ch t b pos o outside nothing
        | inr (hit, found) ↦
            let (least, most) : Counts e.text (some hit) =
              rw found at (match_fns-Counts e.text o.vars) in
            Splits-some fuel ch t b pos o hit outside found least most
              (λ u p o' less. scan_blk-Splits fuel u b p o' (omega arith))
      ]
]

-- A text `a` that is scanned as a block, and a text `b` behind it. The block has a result. If it
-- leaves a number of bytes and does not end within a comment, then these are the last bytes of `a`,
-- and scanning them in front of `b`, with the position, the tokens and the static variables that
-- the block has left, gives what scanning `a` and `b` in one piece gives. If it has the error, then
-- so has the whole, with the same position and output.
pub scan_blk-Continues :
    (a b : List ℕ) (pos : Pos) (o : Output)
    → (q : Option ℕ × Pos × Output) × (scan_blk (length a) a pos o ≡ some q) × Continues a b pos o q
scan_blk-Continues a b pos o =
    let s = scan_blk-Splits (length a) a b pos o (omega arith) in (s.result, s.run, s.continues)
