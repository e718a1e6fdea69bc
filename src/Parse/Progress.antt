-- ===== src/Parse/Progress.antt =====
-- src/parse.c: every round of the loop of `parse` takes a token, so the loop ends.
use hvme.Prelude.{
  ℕ, zero, suc, ◌+◌, ◌≤◌, ◌<◌, ◌≡◌, refl, Bool, true, false, Option, none, some, List, inl, inr,
  ltb, if◌then◌else◌, lt→ltb, ltb→lt, Bool-cases, arith, length, ◌++◌, ◌∷◌, [],
}
use hvme.Inst.{Inst}
use hvme.Token.{TokenCode, Token}
use hvme.Table.{SymbolTable}
use hvme.Parse.{
  Parsed, parsed, parse_err, parse_fault, ◌>>=◌, TokenStream, its_lh, its_next, is_code, map_inst,
  memory_inst, goto_inst, if_goto_inst, label_meta, function_inst, call_inst, parse_fn, cell_nargs,
  is_inst_token, Parser, parse_case, parse_round, parse_loop, parse, is_segment, count_insts,
}

-- A result that is there satisfies `P`.
abbrev pub Yields : {A : Type 0} → (A → Type 0) → Parsed A → Type 0
Yields P (parsed a) = P a
Yields P parse_err = Unit
Yields P (parse_fault u) = Unit

Yields-bind :
    {A B : Type 0} (P : A → Type 0) (Q : B → Type 0) (m : Parsed A) (f : A → Parsed B)
    → Yields P m
    → ((a : A) → P a → Yields Q (f a))
    → Yields Q (m >>= f)
Yields-bind P Q (parsed a) f h k = k a h
Yields-bind P Q parse_err f h k = tt
Yields-bind P Q (parse_fault u) f h k = tt

Yields-if :
    {A : Type 0} (P : A → Type 0) (c : Bool) (m n : Parsed A)
    → Yields P m
    → Yields P n
    → Yields P (if c then m else n)
Yields-if P true m n h k = h
Yields-if P false m n h k = k

-- The stream `t` comes behind `s`.
pub record Behind (s t : TokenStream) : Type 0 where
  pub same : t.len ≡ s.len
  pub further : s.idx < t.idx

next_takes : (s : TokenStream) → s.idx < s.len → Behind s (its_next s).1
unfolding its_next
next_takes s h = rw (lt→ltb s.idx s.len h) (record { same = refl; further = omega arith })

next_keeps : {s t : TokenStream} → Behind s t → Behind s (its_next t).1
unfolding its_next
next_keeps {s} {t} b = elim (Bool-cases (ltb t.idx t.len)) [
  | inl h ↦ rw h (record { same = b.same; further = omega (arith, b.further) })
  | inr h ↦ rw h b
]

module _ (its : TokenStream) (h : its.idx < its.len) where
  first : Behind its (its_next its).1
  first = next_takes its h

  second : Behind its (its_next (its_next its).1).1
  second = next_keeps first

  third : Behind its (its_next (its_next (its_next its).1).1).1
  third = next_keeps second

  memory_inst-Yields : Yields (λ r. Behind its r.1) (memory_inst its)
  unfolding memory_inst
  memory_inst-Yields =
      Yields-if _ (is_segment (its_lh (its_next its).1)) _ _
        (Yields-if _ (is_code (its_lh (its_next (its_next its).1).1) TokenCode.uint) _ _ third tt)
        tt

  call_inst-Yields : (old : Option ℕ) → Yields (λ r. Behind its r.1) (call_inst old its)
  unfolding call_inst
  call_inst-Yields none =
      Yields-if _ (is_code (its_lh (its_next its).1) TokenCode.ident) _ _
        (Yields-if _ (is_code (its_lh (its_next (its_next its).1).1) TokenCode.uint) _ _ third tt)
        tt
  call_inst-Yields (some n) =
      Yields-if _ (is_code (its_lh (its_next its).1) TokenCode.ident) _ _
        (Yields-if _ (is_code (its_lh (its_next (its_next its).1).1) TokenCode.uint) _ _ third
          second)
        tt

  goto_inst-Yields : Yields (λ r. Behind its r.1) (goto_inst its)
  unfolding goto_inst
  goto_inst-Yields = Yields-if _ (is_code (its_lh (its_next its).1) TokenCode.ident) _ _ second tt

  if_goto_inst-Yields : Yields (λ r. Behind its r.1) (if_goto_inst its)
  unfolding if_goto_inst
  if_goto_inst-Yields =
      Yields-if _ (is_code (its_lh (its_next its).1) TokenCode.ident) _ _ second tt

  parse_fn-Yields :
      (t : TokenCode) (old : Option ℕ) → Yields (λ r. Behind its r.1) (parse_fn t old its)
  unfolding parse_fn map_inst
  parse_fn-Yields TokenCode.call old = call_inst-Yields old
  parse_fn-Yields TokenCode.goto old = goto_inst-Yields
  parse_fn-Yields TokenCode.if_goto old = if_goto_inst-Yields
  parse_fn-Yields TokenCode.push old = memory_inst-Yields
  parse_fn-Yields TokenCode.pop old = memory_inst-Yields
  parse_fn-Yields _ old = first

  -- The result of `insert_st` does not move the stream.
  entering :
      (r : Parsed SymbolTable) (t : TokenStream)
      → Behind its t
      → Yields {A = SymbolTable × TokenStream} (λ q. Behind its q.1) (r >>= λ st. parsed (st, t))
  entering (parsed st) t b = b
  entering parse_err t b = tt
  entering (parse_fault u) t b = tt

  label_meta-Yields :
      (block n : ℕ) (st : SymbolTable) → Yields (λ r. Behind its r.1) (label_meta block its st n)
  unfolding label_meta
  label_meta-Yields block n st =
      Yields-if _ (is_code (its_lh (its_next its).1) TokenCode.ident) _ _ (entering _ _ second) tt

  function_inst-Yields :
      (block n : ℕ) (st : SymbolTable) → Yields (λ r. Behind its r.1) (function_inst block its st n)
  unfolding function_inst
  function_inst-Yields block n st =
      Yields-if _ (is_code (its_lh (its_next its).1) TokenCode.ident) _ _
        (entering _ _ (either (is_code (its_lh (its_next (its_next its).1).1) TokenCode.uint))) tt
    where
      either :
          (c : Bool)
          → Behind its (
              if c
              then (its_next (its_next (its_next its).1).1).1
              else (its_next (its_next its).1).1)
      either true = third
      either false = second

module _ (st_block base : ℕ) (p : Parser) (h : p.its.idx < p.its.len) where
  -- An instruction is added to the array.
  adding :
      (m : Parsed (Inst × TokenStream))
      → Yields (λ r. Behind p.its r.1) m
      → Yields {A = Parser}
          (λ q. Behind p.its q.its)
          (m >>= λ r. parsed (record p { its = r.1; insts = p.insts ++ r.0 ∷ [] }))
  adding (parsed r) b = b
  adding parse_err b = tt
  adding (parse_fault u) b = tt

  parse_case-Yields :
      (t : TokenCode) → Yields (λ q. Behind p.its q.its) (parse_case st_block base t p)
  unfolding parse_case
  parse_case-Yields TokenCode.label =
      Yields-bind _ _ (label_meta st_block p.its p.st (length p.insts + base)) _
        (label_meta-Yields p.its h st_block (length p.insts + base) p.st) (λ r b. b)
  parse_case-Yields TokenCode.func =
      Yields-bind _ _ (function_inst st_block p.its p.st (length p.insts + base)) _
        (function_inst-Yields p.its h st_block (length p.insts + base) p.st) (λ r b. b)
  parse_case-Yields t =
      adding (parse_fn t (cell_nargs (length p.insts)) p.its)
        (parse_fn-Yields p.its h t (cell_nargs (length p.insts)))

  parse_round-Yields : Yields (λ q. Behind p.its q.its) (parse_round st_block base p)
  unfolding parse_round
  parse_round-Yields =
      let t = (its_lh p.its).t in
      Yields-if (λ q. Behind p.its q.its) (is_inst_token t) _ _ (parse_case-Yields t) tt

-- The rest of a round of the loop, whose next rounds end.
after_round :
    (fuel st_block base : ℕ) (s : TokenStream) (m : Parsed Parser)
    → Yields (λ q. Behind s q.its) m
    → ((q : Parser)
        → Behind s q.its
        → (r : Parsed Parser) × (parse_loop fuel st_block base q ≡ some r))
    → (r : Parsed Parser) × ((elim m [
      | parsed q ↦ parse_loop fuel st_block base q
      | parse_err ↦ some parse_err
      | parse_fault u ↦ some (parse_fault u)
    ])
        ≡ some r)
after_round fuel st_block base s (parsed q) b rest = rest q b
after_round fuel st_block base s parse_err b rest = (parse_err, refl)
after_round fuel st_block base s (parse_fault u) b rest = (parse_fault u, refl)

while_more :
    {A : Type 0} (c : Bool) (x y : Option A)
    → (c ≡ true → (r : A) × (x ≡ some r))
    → (r : A) × (y ≡ some r)
    → (r : A) × ((if c then x else y) ≡ some r)
while_more true x y h k = h refl
while_more false x y h k = k

-- As many rounds as there are tokens left are enough.
parse_loop-ends :
    (fuel st_block base : ℕ) (p : Parser)
    → p.its.len ≤ p.its.idx + fuel
    → (r : Parsed Parser) × (parse_loop fuel st_block base p ≡ some r)
unfolding parse_loop
parse_loop-ends zero st_block base p h =
    let done : ltb p.its.idx p.its.len ≡ false = ground arith in (parsed p, rw done refl)
parse_loop-ends (suc fuel) st_block base p h =
    let rest = λ (q : Parser) (b : Behind p.its q.its).
      parse_loop-ends fuel st_block base q (omega (arith, b.same, b.further)) in
    while_more (ltb p.its.idx p.its.len) _ _
      (λ more.
        after_round fuel st_block base p.its (parse_round st_block base p)
          (parse_round-Yields st_block base p (ltb→lt _ _ more)) rest)
      (parsed p, refl)

counting :
    (m : Option (Parsed Parser))
    → (r : Parsed Parser) × (m ≡ some r)
    → (r : Parsed (List Inst × SymbolTable)) × ((elim m [
      | none ↦ none
      | some r ↦ some (count_insts r)
    ])
        ≡ some r)
counting none (r, h) = cc
counting (some q) (r, h) = (count_insts q, refl)

-- `parse` ends on every list of tokens: the number of tokens is enough fuel for its loop.
pub parse-ends :
    (st_block : ℕ) (tokens : List Token) (insts : List Inst) (st : SymbolTable)
    → (r : Parsed (List Inst × SymbolTable)) × (parse st_block tokens insts st ≡ some r)
unfolding parse
parse-ends st_block tokens insts st =
    let its : TokenStream = record { tokens = tokens; idx = 0; len = length tokens } in
    let start : Parser = record { its = its; insts = insts; st = st } in
    counting (parse_loop (length tokens) st_block st.num_inst start)
      (parse_loop-ends (length tokens) st_block st.num_inst start (omega arith))
