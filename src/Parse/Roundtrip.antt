-- ===== src/Parse/Roundtrip.antt =====
-- src/parse.c: `parse` reads back the instructions that are written as tokens.
use hvme.Prelude.{
  ℕ, Bool, Option, sym, if◌then◌else◌, zero, suc, ◌+◌, ◌≤◌, ◌<◌, ◌≡◌, ◌∙◌, refl, ap, true, false,
  none, some, List, [], ◌∷◌, ◌++◌, lt→ltb, le→not_ltb, arith, length, length-append, append_nil,
}
use hvme.Inst.{Inst, InstCode, Pos}
use hvme.Token.{Token}
use hvme.Table.{SymbolTable}
use hvme.Parse.{
  Parsed, parsed, parse_err, parse_fault, Parser, parse_round, parse_loop, count_insts, parse,
}
use hvme.Parse.Rounds.{parser_at, Reads, parse_round-Operands}
use hvme.Parse.Print.{
  IsSource, AllSource, word, number, name, segment_code, head_code, operands, tokens_of, printed,
  at_pos, advance, append_snoc, Operands,
}

-- The rounds over the tokens of a list of instructions.
advance-append : (pre xs ys : List Token) → advance pre (xs ++ ys) ≡ advance (advance pre xs) ys
advance-append pre [] ys = refl
advance-append pre (x ∷ xs) ys = advance-append (pre ++ x ∷ []) xs ys

-- The loop goes on after a round that has succeeded, and stops behind the last token.
parse_loop_more :
    (fuel st_block base : ℕ) (p q : Parser)
    → p.its.idx < p.its.len
    → parse_round st_block base p ≡ parsed q
    → parse_loop (suc fuel) st_block base p ≡ parse_loop fuel st_block base q
unfolding parse_loop
parse_loop_more fuel st_block base p q h run = goes (lt→ltb p.its.idx p.its.len h) run
  where
    goes :
        {c : Bool} {m : Parsed Parser}
        → c ≡ true
        → m ≡ parsed q
        → (if c
            then elim m [
              | parsed q ↦ parse_loop fuel st_block base q
              | parse_err ↦ some parse_err
              | parse_fault u ↦ some (parse_fault u)
            ]
            else some (parsed p))
          ≡ parse_loop fuel st_block base q
    goes e f = rw (e, f) refl

parse_loop_done :
    (fuel st_block base : ℕ) (p : Parser)
    → p.its.len ≤ p.its.idx
    → parse_loop fuel st_block base p ≡ some (parsed p)
unfolding parse_loop
parse_loop_done zero st_block base p h = rw (le→not_ltb p.its.idx p.its.len h) refl
parse_loop_done (suc fuel) st_block base p h = stops _ (le→not_ltb p.its.idx p.its.len h)
  where
    stops :
        {c : Bool} (x : Option (Parsed Parser))
        → c ≡ false
        → (if c then x else some (parsed p)) ≡ some (parsed p)
    stops x e = rw e refl

idx-len : (pre : List Token) → (at_pos pre []).len ≤ (at_pos pre []).idx
unfolding at_pos
idx-len pre = omega (arith, length-append {A = Token} pre [])

idx-lt-len :
    (pre ts : List Token) (t : Token) → (at_pos pre (t ∷ ts)).idx < (at_pos pre (t ∷ ts)).len
unfolding at_pos
idx-lt-len pre ts t = omega (arith, length-append pre (t ∷ ts))

-- The tokens of a list of instructions.
abbrev pub AllRead : List Inst → List Token → Type 0
AllRead [] its = its ≡ []
AllRead (i ∷ is) its =
    (xs : List Token) × (ys : List Token) × (its ≡ xs ++ ys)
    × IsSource i.code
    × Reads i xs
    × AllRead is ys

parse_loop-AllRead :
    (fuel st_block base : ℕ) (is : List Inst) (pre its : List Token) (done : List Inst)
    (st : SymbolTable)
    → AllRead is its
    → length its ≤ fuel
    → parse_loop fuel st_block base (parser_at pre its done st)
      ≡ some (parsed (parser_at (advance pre its) [] (done ++ is) st))
parse_loop-AllRead fuel st_block base [] pre its done st e h = rw e (
    parse_loop_done fuel st_block base (parser_at pre [] done st) (idx-len pre)
    ∙ ap (λ d. some (parsed (parser_at pre [] d st))) (sym (append_nil done)))
parse_loop-AllRead zero st_block base (i ∷ is) pre its done st (xs, ys, e, src, r, a) h =
    let size = ap (λ (l : List Token). length l) e in
    let front = ap (λ (l : List Token). length l) r.tokens in
    absurd (omega (arith, size, front, length-append xs ys))
parse_loop-AllRead (suc fuel) st_block base (i ∷ is) pre its done st (xs, ys, e, src, r, a) h =
    let size = ap (λ (l : List Token). length l) e in
    let front = ap (λ (l : List Token). length l) r.tokens in
    let step =
      parse_round-Operands st_block base pre ys done st r.head i.code r.ops src r.starts
        r.operands in
    let made : record { code = i.code; pos = r.head.pos } ≡ i =
      ap (λ p. record i { pos = p }) r.pos in
    let whole : its ≡ (r.head ∷ r.ops) ++ ys = e ∙ ap (λ l. l ++ ys) r.tokens in
    let new : Inst = record { code = i.code; pos = r.head.pos } in
    let loop =
      λ (its : List Token). parse_loop (suc fuel) st_block base (parser_at pre its done st) in
    ap loop whole
    ∙ parse_loop_more fuel st_block base (parser_at pre (r.head ∷ r.ops ++ ys) done st) _
        (idx-lt-len pre (r.ops ++ ys) r.head) step
    ∙ parse_loop-AllRead fuel st_block base is (advance pre (r.head ∷ r.ops)) ys (done ++ new ∷ [])
        st a (omega (arith, size, front, length-append xs ys))
    ∙ ap (λ l. some (parsed (parser_at l [] ((done ++ new ∷ []) ++ is) st)))
        (sym (advance-append pre (r.head ∷ r.ops) ys) ∙ ap (advance pre) (sym whole))
    ∙ ap (λ d. some (parsed (parser_at (advance pre its) [] d st)))
        (append_snoc done is new ∙ ap (λ j. done ++ j ∷ is) made)

-- `parse` reads the instructions that the tokens stand for, wherever these stand in the file; it
-- counts them, and leaves the rest of the symbol table as it is.
pub parse-AllRead :
    (st_block : ℕ) (is : List Inst) (its : List Token) (st : SymbolTable)
    → AllRead is its
    → parse st_block its [] st
      ≡ some (parsed (is, record st { num_inst = st.num_inst + length is }))
unfolding parse count_insts at_pos
parse-AllRead st_block is its st a =
    counted (parse_loop-AllRead (length its) st_block st.num_inst is [] its [] st a (omega arith))
  where
    counted :
        {m : Option (Parsed Parser)} {r : Parsed Parser}
        → m ≡ some r
        → (elim m [ none ↦ none | some r ↦ some (count_insts r) ]) ≡ some (count_insts r)
    counted e = rw e refl

operands-Operands :
    (pos : Pos) (code : InstCode) → IsSource code → Operands code (operands pos code)
operands-Operands pos (InstCode.push s n) h =
    (word pos (segment_code s), number pos n, refl, refl, refl, refl)
operands-Operands pos (InstCode.pop s n) h =
    (word pos (segment_code s), number pos n, refl, refl, refl, refl)
operands-Operands pos (InstCode.goto s) h = (name pos s, refl, refl, refl)
operands-Operands pos (InstCode.if_goto s) h = (name pos s, refl, refl, refl)
operands-Operands pos (InstCode.call s n) h =
    (name pos s, number pos n, refl, refl, refl, refl, refl)
operands-Operands pos _ h = refl

printed-AllRead : (is : List Inst) → AllSource is → AllRead is (printed is)
printed-AllRead [] a = refl
printed-AllRead (i ∷ is) (h, a) = (
  tokens_of i,
  printed is,
  refl,
  h,
  record {
    head = word i.pos (head_code i.code);
    ops = operands i.pos i.code;
    tokens = refl;
    starts = refl;
    pos = refl;
    operands = operands-Operands i.pos i.code h;
  },
  printed-AllRead is a,
)

-- Instructions that a source file can hold, written as tokens, are what `parse` reads from these
-- tokens; it counts them, and leaves the rest of the symbol table as it is.
pub parse-printed :
    (st_block : ℕ) (is : List Inst) (st : SymbolTable)
    → AllSource is
    → parse st_block (printed is) [] st
      ≡ some (parsed (is, record st { num_inst = st.num_inst + length is }))
parse-printed st_block is st a = parse-AllRead st_block is (printed is) st (printed-AllRead is a)
