-- ===== src/Parse/Rounds.antt =====
-- src/parse.c: a round of the loop of `parse` at the tokens of an instruction.
use hvme.Prelude.{
  ℕ, ◌⊎◌, inl, inr, sym, if◌then◌else◌, ◌≡◌, ◌∙◌, refl, ap, true, List, [], ◌∷◌, ◌++◌, if-true,
  length,
}
use hvme.Inst.{Inst, InstCode, Segment}
use hvme.Token.{TokenCode, Token}
use hvme.Table.{SymbolTable}
use hvme.Parse.{
  Parsed, parsed, parse_err, memory_code, is_inst_token, Parser, parse_case, parse_fn, parse_round,
  cell_nargs,
}
use hvme.Parse.Print.{
  IsSource, segment_code, head_code, at_pos, advance, its_lh-at_pos, its_next-at_pos,
  memory_inst-at_pos, goto_inst-at_pos, if_goto_inst-at_pos, call_inst-at_pos, Operands,
}

-- A parser that has read `pre` into `done`.
abbrev pub parser_at : List Token → List Token → List Inst → SymbolTable → Parser
parser_at pre ts done st = record { its = at_pos pre ts; insts = done; st = st }

-- The tokens of an instruction, with the positions of their operands left open.
pub record Reads (i : Inst) (its : List Token) : Type 0 where
  pub head : Token
  pub ops : List Token
  pub tokens : its ≡ head ∷ ops
  pub starts : head.t ≡ head_code i.code
  pub pos : head.pos ≡ i.pos
  pub operands : Operands i.code ops

module _ (st_block base : ℕ) (pre ts : List Token) (done : List Inst) (st : SymbolTable)
    (c : Token) where
  -- A round whose token starts an instruction.
  taking :
      (t : TokenCode) (more : List Token) (r : Parsed Parser)
      → c.t ≡ t
      → is_inst_token t ≡ true
      → parse_case st_block base t (parser_at pre (c ∷ more) done st) ≡ r
      → parse_round st_block base (parser_at pre (c ∷ more) done st) ≡ r
  unfolding parse_round
  taking t more r e h run =
      let p = parser_at pre (c ∷ more) done st in
      ap (λ t. if is_inst_token t then parse_case st_block base t p else parse_err)
        (ap (λ (tk : Token). tk.t) (its_lh-at_pos pre more c) ∙ e)
      ∙ if-true _ _ h
      ∙ run

  -- What such a round makes of an instruction.
  abbrev pub after : InstCode → List Token → Parser
  after code ops =
      parser_at (advance pre (c ∷ ops)) ts (done ++ record { code = code; pos = c.pos } ∷ []) st

  taking_memory :
      (a b : Token) (s : Segment) (t : TokenCode)
      → (t ≡ TokenCode.push) ⊎ (t ≡ TokenCode.pop)
      → c.t ≡ t
      → a.t ≡ segment_code s
      → b.t ≡ TokenCode.uint
      → parse_round st_block base (parser_at pre (c ∷ a ∷ b ∷ ts) done st)
        ≡ parsed (after (memory_code t s b.uilit) (a ∷ b ∷ []))
  unfolding parse_case parse_fn is_inst_token
  taking_memory a b s t (inl p) e h k = rw p (
      taking TokenCode.push (a ∷ b ∷ ts) _ (e ∙ p) refl
        (rw (memory_inst-at_pos pre ts c a b s h k, e, p) refl))
  taking_memory a b s t (inr p) e h k = rw p (
      taking TokenCode.pop (a ∷ b ∷ ts) _ (e ∙ p) refl
        (rw (memory_inst-at_pos pre ts c a b s h k, e, p) refl))

  pub parse_round-Operands :
      (code : InstCode) (ops : List Token)
      → IsSource code
      → c.t ≡ head_code code
      → Operands code ops
      → parse_round st_block base (parser_at pre (c ∷ ops ++ ts) done st) ≡ parsed (after code ops)
  unfolding parse_case parse_fn is_inst_token memory_code
  parse_round-Operands (InstCode.push s n) ops h e (a, b, o, k, u, v) =
      rw (o, sym v) (taking_memory a b s TokenCode.push (inl refl) e k u)
  parse_round-Operands (InstCode.pop s n) ops h e (a, b, o, k, u, v) =
      rw (o, sym v) (taking_memory a b s TokenCode.pop (inr refl) e k u)
  parse_round-Operands (InstCode.goto s) ops h e (a, o, k, v) =
      rw (o, sym v)
        (taking TokenCode.goto (a ∷ ts) _ e refl (rw (goto_inst-at_pos pre ts c a a k) refl))
  parse_round-Operands (InstCode.if_goto s) ops h e (a, o, k, v) =
      rw (o, sym v)
        (taking TokenCode.if_goto (a ∷ ts) _ e refl (rw (if_goto_inst-at_pos pre ts c a a k) refl))
  parse_round-Operands (InstCode.call s n) ops h e (a, b, o, k, v, u, w) =
      rw (o, sym v, sym w)
        (taking TokenCode.call (a ∷ b ∷ ts) _ e refl
          (rw (call_inst-at_pos pre ts c a b (cell_nargs (length done)) k u) refl))
  parse_round-Operands InstCode.add ops h e o =
      rw o (taking TokenCode.add ts _ e refl (rw (its_next-at_pos pre ts c, e) refl))
  parse_round-Operands InstCode.sub ops h e o =
      rw o (taking TokenCode.sub ts _ e refl (rw (its_next-at_pos pre ts c, e) refl))
  parse_round-Operands InstCode.neg ops h e o =
      rw o (taking TokenCode.neg ts _ e refl (rw (its_next-at_pos pre ts c, e) refl))
  parse_round-Operands InstCode.and ops h e o =
      rw o (taking TokenCode.and ts _ e refl (rw (its_next-at_pos pre ts c, e) refl))
  parse_round-Operands InstCode.or ops h e o =
      rw o (taking TokenCode.or ts _ e refl (rw (its_next-at_pos pre ts c, e) refl))
  parse_round-Operands InstCode.not ops h e o =
      rw o (taking TokenCode.not ts _ e refl (rw (its_next-at_pos pre ts c, e) refl))
  parse_round-Operands InstCode.eq ops h e o =
      rw o (taking TokenCode.eq ts _ e refl (rw (its_next-at_pos pre ts c, e) refl))
  parse_round-Operands InstCode.gt ops h e o =
      rw o (taking TokenCode.gt ts _ e refl (rw (its_next-at_pos pre ts c, e) refl))
  parse_round-Operands InstCode.lt ops h e o =
      rw o (taking TokenCode.lt ts _ e refl (rw (its_next-at_pos pre ts c, e) refl))
  parse_round-Operands InstCode.ret ops h e o =
      rw o (taking TokenCode.ret ts _ e refl (rw (its_next-at_pos pre ts c, e) refl))
  parse_round-Operands InstCode.ic_none ops h e o = absurd h
  parse_round-Operands InstCode.builtin_print_char ops h e o = absurd h
  parse_round-Operands InstCode.builtin_print_num ops h e o = absurd h
  parse_round-Operands InstCode.builtin_print_str ops h e o = absurd h
  parse_round-Operands InstCode.builtin_read_char ops h e o = absurd h
  parse_round-Operands InstCode.builtin_read_num ops h e o = absurd h
  parse_round-Operands InstCode.builtin_read_str ops h e o = absurd h
