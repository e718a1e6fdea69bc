-- ===== src/Parse/Print.antt =====
-- src/parse.c: instructions written as tokens, and read back by `parse`.
use hvme.Prelude.{
  ℕ, suc, ◌≡◌, ◌∙◌, refl, ap, true, Option, List, [], ◌∷◌, ◌++◌, ltb, lt→ltb, arith, length,
  length-append,
}
use hvme.Inst.{Inst, InstCode, Segment, Pos, Ident}
use hvme.Token.{TokenCode, Token}
use hvme.Parse.{
  parsed, TokenStream, token_at, its_lh, its_next, memory_inst, goto_inst, if_goto_inst, call_inst,
  is_segment, memory_code, segment,
}

-- The instructions that a source file can hold.
abbrev pub IsSource : InstCode → Type 0
IsSource InstCode.ic_none = ⊥
IsSource InstCode.builtin_print_char = ⊥
IsSource InstCode.builtin_print_num = ⊥
IsSource InstCode.builtin_print_str = ⊥
IsSource InstCode.builtin_read_char = ⊥
IsSource InstCode.builtin_read_num = ⊥
IsSource InstCode.builtin_read_str = ⊥
IsSource _ = Unit

abbrev pub word : Pos → TokenCode → Token
word pos t = record { t = t; pos = pos; uilit = 0; ident = [] }

abbrev pub number : Pos → ℕ → Token
number pos n = record { t = TokenCode.uint; pos = pos; uilit = n; ident = [] }

abbrev pub name : Pos → Ident → Token
name pos s = record { t = TokenCode.ident; pos = pos; uilit = 0; ident = s }

abbrev pub segment_code : Segment → TokenCode
segment_code Segment.arg = TokenCode.arg
segment_code Segment.loc = TokenCode.loc
segment_code Segment.stat = TokenCode.stat
segment_code Segment.const = TokenCode.const
segment_code Segment.this = TokenCode.this
segment_code Segment.that = TokenCode.that
segment_code Segment.ptr = TokenCode.ptr
segment_code Segment.tmp = TokenCode.tmp

-- The first token of an instruction, and the ones behind it.
abbrev pub head_code : InstCode → TokenCode
head_code (InstCode.push s n) = TokenCode.push
head_code (InstCode.pop s n) = TokenCode.pop
head_code InstCode.add = TokenCode.add
head_code InstCode.sub = TokenCode.sub
head_code InstCode.neg = TokenCode.neg
head_code InstCode.and = TokenCode.and
head_code InstCode.or = TokenCode.or
head_code InstCode.not = TokenCode.not
head_code InstCode.eq = TokenCode.eq
head_code InstCode.gt = TokenCode.gt
head_code InstCode.lt = TokenCode.lt
head_code (InstCode.goto s) = TokenCode.goto
head_code (InstCode.if_goto s) = TokenCode.if_goto
head_code (InstCode.call s n) = TokenCode.call
head_code InstCode.ret = TokenCode.ret
head_code _ = TokenCode.none

abbrev pub operands : Pos → InstCode → List Token
operands pos (InstCode.push s n) = word pos (segment_code s) ∷ number pos n ∷ []
operands pos (InstCode.pop s n) = word pos (segment_code s) ∷ number pos n ∷ []
operands pos (InstCode.goto s) = name pos s ∷ []
operands pos (InstCode.if_goto s) = name pos s ∷ []
operands pos (InstCode.call s n) = name pos s ∷ number pos n ∷ []
operands pos _ = []

abbrev pub tokens_of : Inst → List Token
tokens_of i = word i.pos (head_code i.code) ∷ operands i.pos i.code

abbrev pub printed : List Inst → List Token
printed [] = []
printed (i ∷ is) = tokens_of i ++ printed is

abbrev pub AllSource : List Inst → Type 0
AllSource [] = Unit
AllSource (i ∷ is) = IsSource i.code × AllSource is

-- The stream that has read `pre` and has `ts` before it.
unfoldable pub at_pos : List Token → List Token → TokenStream
at_pos pre ts = record { tokens = pre ++ ts; idx = length pre; len = length (pre ++ ts) }

-- The tokens read, with more behind them, one at a time.
abbrev pub advance : List Token → List Token → List Token
advance pre [] = pre
advance pre (t ∷ ts) = advance (pre ++ t ∷ []) ts

token_at-append : (pre ts : List Token) (t : Token) → token_at (pre ++ t ∷ ts) (length pre) ≡ t
token_at-append [] ts t = refl
token_at-append (a ∷ pre) ts t = token_at-append pre ts t

pub append_snoc : {A : Type 0} (xs ys : List A) (y : A) → (xs ++ y ∷ []) ++ ys ≡ xs ++ y ∷ ys
append_snoc [] ys y = refl
append_snoc (x ∷ xs) ys y = ap (λ zs. x ∷ zs) (append_snoc xs ys y)

more_left : (pre ts : List Token) (t : Token) → ltb (length pre) (length (pre ++ t ∷ ts)) ≡ true
more_left pre ts t = lt→ltb _ _ (omega (arith, length-append pre (t ∷ ts)))

pub its_next-at_pos :
    (pre ts : List Token) (t : Token)
    → its_next (at_pos pre (t ∷ ts)) ≡ (t, at_pos (pre ++ t ∷ []) ts)
unfolding its_next at_pos
its_next-at_pos pre ts t =
    let one : length (pre ++ t ∷ []) ≡ suc (length pre) =
      omega (arith, length-append pre (t ∷ [])) in
    rw (more_left pre ts t, token_at-append pre ts t, one, append_snoc pre ts t) refl

pub its_lh-at_pos : (pre ts : List Token) (t : Token) → its_lh (at_pos pre (t ∷ ts)) ≡ t
unfolding its_lh at_pos
its_lh-at_pos pre ts t = rw (more_left pre ts t) (token_at-append pre ts t)

segment-segment_code : (s : Segment) → segment (segment_code s) ≡ s
segment-segment_code Segment.arg = refl
segment-segment_code Segment.loc = refl
segment-segment_code Segment.stat = refl
segment-segment_code Segment.const = refl
segment-segment_code Segment.this = refl
segment-segment_code Segment.that = refl
segment-segment_code Segment.ptr = refl
segment-segment_code Segment.tmp = refl

is_segment-code : (tk : Token) (s : Segment) → tk.t ≡ segment_code s → is_segment tk ≡ true
unfolding is_segment
is_segment-code tk Segment.arg h = rw h refl
is_segment-code tk Segment.loc h = rw h refl
is_segment-code tk Segment.stat h = rw h refl
is_segment-code tk Segment.const h = rw h refl
is_segment-code tk Segment.this h = rw h refl
is_segment-code tk Segment.that h = rw h refl
is_segment-code tk Segment.ptr h = rw h refl
is_segment-code tk Segment.tmp h = rw h refl

-- The tokens behind the first one of an instruction, with any positions.
abbrev pub Operands : InstCode → List Token → Type 0
Operands (InstCode.push s n) its =
    (a : Token) × (b : Token) × (its ≡ a ∷ b ∷ [])
    × (a.t ≡ segment_code s)
    × (b.t ≡ TokenCode.uint)
    × (b.uilit ≡ n)
Operands (InstCode.pop s n) its =
    (a : Token) × (b : Token) × (its ≡ a ∷ b ∷ [])
    × (a.t ≡ segment_code s)
    × (b.t ≡ TokenCode.uint)
    × (b.uilit ≡ n)
Operands (InstCode.goto s) its =
    (a : Token) × (its ≡ a ∷ []) × (a.t ≡ TokenCode.ident) × (a.ident ≡ s)
Operands (InstCode.if_goto s) its =
    (a : Token) × (its ≡ a ∷ []) × (a.t ≡ TokenCode.ident) × (a.ident ≡ s)
Operands (InstCode.call s n) its =
    (a : Token) × (b : Token) × (its ≡ a ∷ b ∷ [])
    × (a.t ≡ TokenCode.ident)
    × (a.ident ≡ s)
    × (b.t ≡ TokenCode.uint)
    × (b.uilit ≡ n)
Operands _ its = its ≡ []

-- The functions of the parser on an instruction's tokens, with others behind them.
module _ (pre ts : List Token) (c a b : Token) where
  pub memory_inst-at_pos :
      (s : Segment)
      → a.t ≡ segment_code s
      → b.t ≡ TokenCode.uint
      → memory_inst (at_pos pre (c ∷ a ∷ b ∷ ts))
        ≡ parsed (
          record { code = memory_code c.t s b.uilit; pos = c.pos },
          at_pos (advance pre (c ∷ a ∷ b ∷ [])) ts,
        )
  unfolding memory_inst
  memory_inst-at_pos s h k =
      let first = pre ++ c ∷ [] in
      let second = first ++ a ∷ [] in
      let seg : segment a.t ≡ s = ap segment h ∙ segment-segment_code s in
      rw
        (
          its_next-at_pos pre (a ∷ b ∷ ts) c,
          its_next-at_pos first (b ∷ ts) a,
          its_next-at_pos second ts b,
          its_lh-at_pos first (b ∷ ts) a,
          its_lh-at_pos second ts b,
          is_segment-code a s h,
          seg,
          k,
        )
        refl

  pub goto_inst-at_pos :
      a.t ≡ TokenCode.ident
      → goto_inst (at_pos pre (c ∷ a ∷ ts))
        ≡ parsed (
          record { code = InstCode.goto a.ident; pos = c.pos },
          at_pos (advance pre (c ∷ a ∷ [])) ts,
        )
  unfolding goto_inst
  goto_inst-at_pos h =
      let first = pre ++ c ∷ [] in
      rw (its_next-at_pos pre (a ∷ ts) c, its_next-at_pos first ts a, its_lh-at_pos first ts a, h)
        refl

  pub if_goto_inst-at_pos :
      a.t ≡ TokenCode.ident
      → if_goto_inst (at_pos pre (c ∷ a ∷ ts))
        ≡ parsed (
          record { code = InstCode.if_goto a.ident; pos = c.pos },
          at_pos (advance pre (c ∷ a ∷ [])) ts,
        )
  unfolding if_goto_inst
  if_goto_inst-at_pos h =
      let first = pre ++ c ∷ [] in
      rw (its_next-at_pos pre (a ∷ ts) c, its_next-at_pos first ts a, its_lh-at_pos first ts a, h)
        refl

  pub call_inst-at_pos :
      (old : Option ℕ)
      → a.t ≡ TokenCode.ident
      → b.t ≡ TokenCode.uint
      → call_inst old (at_pos pre (c ∷ a ∷ b ∷ ts))
        ≡ parsed (
          record { code = InstCode.call a.ident b.uilit; pos = c.pos },
          at_pos (advance pre (c ∷ a ∷ b ∷ [])) ts,
        )
  unfolding call_inst
  call_inst-at_pos old h k =
      let first = pre ++ c ∷ [] in
      let second = first ++ a ∷ [] in
      rw
        (
          its_next-at_pos pre (a ∷ b ∷ ts) c,
          its_next-at_pos first (b ∷ ts) a,
          its_next-at_pos second ts b,
          its_lh-at_pos first (b ∷ ts) a,
          its_lh-at_pos second ts b,
          h,
          k,
        )
        refl
