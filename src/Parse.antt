-- ===== src/Parse.antt =====
-- src/parse.c: the parser, from tokens to instructions and symbols. The functions of
-- Parse/Errors print its messages; a missing symbol table is not modelled.
pub mod Progress
pub mod Print
pub mod Rounds
pub mod Roundtrip
pub mod Errors
pub mod Slice
pub mod Marked
pub mod Reported
use hvme.Prelude.{
  ℕ, zero, suc, ◌+◌, Bool, ◌&&◌, ◌||◌, Option, none, some, List, [], ◌∷◌, ◌++◌, leb, ltb, ◌==◌,
  if◌then◌else◌, length,
}
use hvme.Exec.{Run, ok, err, fault, Fault, uninitialised}
use hvme.Inst.{Inst, InstCode, Segment}
use hvme.Token.{TokenCode, Token, code}
use hvme.Table.{
  SymbolTable, func, label, mk_key, mk_lbval, mk_fnval, insert_st, InsertResult, inres_exists,
  inres_ok,
}

-- `parse_err` is `PARSE_ERR`.
pub data Parsed (A : Type 0) : Type 0 where
  parsed : A → Parsed A
  parse_err : Parsed A
  parse_fault : Fault → Parsed A

infixl 5 ◌>>=◌
abbrev pub ◌>>=◌ : {A B : Type 0} → Parsed A → (A → Parsed B) → Parsed B
parsed a >>= f = f a
parse_err >>= f = parse_err
parse_fault u >>= f = parse_fault u

-- `Tokens` up to `idx`, and the position in it
pub record TokenStream : Type 0 where
  pub tokens : List Token
  pub idx : ℕ
  pub len : ℕ

abbrev pub none_token : Token
none_token = record { t = TokenCode.none; pos = record { ln = 0; cl = 0 }; uilit = 0; ident = [] }

abbrev pub token_at : List Token → ℕ → Token
token_at [] i = none_token
token_at (t ∷ ts) zero = t
token_at (t ∷ ts) (suc i) = token_at ts i

-- The current token.
unfoldable pub its_lh : TokenStream → Token
its_lh its = if ltb its.idx its.len then token_at its.tokens its.idx else none_token

-- The current token, and the stream behind it.
unfoldable pub its_next : TokenStream → Token × TokenStream
its_next its =
    if ltb its.idx its.len
    then (token_at its.tokens its.idx, record its { idx = suc its.idx })
    else (none_token, its)

abbrev pub is_code : Token → TokenCode → Bool
is_code tk c = code tk.t == code c

-- The codes of `map_inst` map one to one.
abbrev pub inst_code : TokenCode → InstCode
inst_code TokenCode.add = InstCode.add
inst_code TokenCode.sub = InstCode.sub
inst_code TokenCode.neg = InstCode.neg
inst_code TokenCode.and = InstCode.and
inst_code TokenCode.or = InstCode.or
inst_code TokenCode.not = InstCode.not
inst_code TokenCode.eq = InstCode.eq
inst_code TokenCode.gt = InstCode.gt
inst_code TokenCode.lt = InstCode.lt
inst_code TokenCode.ret = InstCode.ret
inst_code _ = InstCode.ic_none

-- So do the segments.
abbrev pub segment : TokenCode → Segment
segment TokenCode.arg = Segment.arg
segment TokenCode.loc = Segment.loc
segment TokenCode.stat = Segment.stat
segment TokenCode.const = Segment.const
segment TokenCode.this = Segment.this
segment TokenCode.that = Segment.that
segment TokenCode.ptr = Segment.ptr
segment _ = Segment.tmp

unfoldable pub map_inst : TokenStream → Parsed (Inst × TokenStream)
unfolding its_next
map_inst its =
    let (it, rest) = its_next its in parsed (record { code = inst_code it.t; pos = it.pos }, rest)

-- `push` and `pop`
pub memory_code : TokenCode → Segment → ℕ → InstCode
memory_code TokenCode.pop s n = InstCode.pop s n
memory_code _ s n = InstCode.push s n

pub is_segment : Token → Bool
is_segment tk = leb (code TokenCode.arg) (code tk.t) && leb (code tk.t) (code TokenCode.tmp)

unfoldable pub memory_inst : TokenStream → Parsed (Inst × TokenStream)
unfolding its_next its_lh memory_code is_segment
memory_inst its₀ =
    let (mem_it, its₁) = its_next its₀ in
    let (seg_it, its₂) = its_next its₁ in
    let (off_it, its₃) = its_next its₂ in
    if is_segment (its_lh its₁)
    then if is_code (its_lh its₂) TokenCode.uint
      then parsed (
        record { code = memory_code mem_it.t (segment seg_it.t) off_it.uilit; pos = mem_it.pos },
        its₃,
      )
      else parse_err
    else parse_err

unfoldable pub goto_inst : TokenStream → Parsed (Inst × TokenStream)
unfolding its_next its_lh
goto_inst its₀ =
    let (goto_it, its₁) = its_next its₀ in
    let (ident_it, its₂) = its_next its₁ in
    if is_code (its_lh its₁) TokenCode.ident
    then parsed (record { code = InstCode.goto ident_it.ident; pos = goto_it.pos }, its₂)
    else parse_err

unfoldable pub if_goto_inst : TokenStream → Parsed (Inst × TokenStream)
unfolding its_next its_lh
if_goto_inst its₀ =
    let (if_goto_it, its₁) = its_next its₀ in
    let (ident_it, its₂) = its_next its₁ in
    if is_code (its_lh its₁) TokenCode.ident
    then parsed (record { code = InstCode.if_goto ident_it.ident; pos = if_goto_it.pos }, its₂)
    else parse_err

-- The result of `insert_st` in the parser.
abbrev pub entered : Run SymbolTable (InsertResult × SymbolTable) → Parsed SymbolTable
entered (ok (inres_ok, st)) = parsed st
entered (ok (inres_exists, st)) = parse_err
entered (err e st) = parse_err
entered (fault u) = parse_fault u

unfoldable pub label_meta : ℕ → TokenStream → SymbolTable → ℕ → Parsed (SymbolTable × TokenStream)
unfolding its_next its_lh
label_meta st_block its₀ st num_inst =
    let (_, its₁) = its_next its₀ in
    let (ident_it, its₂) = its_next its₁ in
    if is_code (its_lh its₁) TokenCode.ident
    then (entered (insert_st st_block st (mk_key ident_it.ident label) (mk_lbval num_inst))
        >>= λ st'. parsed (st', its₂))
    else parse_err

-- A missing number of locals is reported, and counts as 0.
unfoldable pub function_inst :
    ℕ → TokenStream → SymbolTable → ℕ → Parsed (SymbolTable × TokenStream)
unfolding its_next its_lh
function_inst st_block its₀ st num_inst =
    let (_, its₁) = its_next its₀ in
    let (ident_it, its₂) = its_next its₁ in
    let (num_it, its₃) = its_next its₂ in
    let has_num = is_code (its_lh its₂) TokenCode.uint in
    let nlocals = if has_num then num_it.uilit else 0 in
    let its = if has_num then its₃ else its₂ in
    if is_code (its_lh its₁) TokenCode.ident
    then (entered (insert_st st_block st (mk_key ident_it.ident func) (mk_fnval num_inst nlocals))
        >>= λ st'. parsed (st', its))
    else parse_err

-- A missing number of arguments is reported, and `nargs` stays what it is in the array's cell.
unfoldable pub call_inst : Option ℕ → TokenStream → Parsed (Inst × TokenStream)
unfolding its_next its_lh
call_inst old_nargs its₀ =
    let (call_it, its₁) = its_next its₀ in
    let (ident_it, its₂) = its_next its₁ in
    let (num_it, its₃) = its_next its₂ in
    if is_code (its_lh its₁) TokenCode.ident
    then if is_code (its_lh its₂) TokenCode.uint
      then parsed
          (record { code = InstCode.call ident_it.ident num_it.uilit; pos = call_it.pos }, its₃)
      else elim old_nargs [
        | none ↦ parse_fault uninitialised
        | some n ↦
            parsed (record { code = InstCode.call ident_it.ident n; pos = call_it.pos }, its₂)
      ]
    else parse_err

unfoldable pub is_inst_token : TokenCode → Bool
is_inst_token t =
    let n = code t in
    leb (code TokenCode.push) n && leb n (code TokenCode.pop)
    || leb (code TokenCode.add) n && leb n (code TokenCode.not)
    || leb (code TokenCode.label) n && leb n (code TokenCode.if_goto)
    || leb (code TokenCode.func) n && leb n (code TokenCode.ret)

-- `parse_fns`
parse_fn : TokenCode → Option ℕ → TokenStream → Parsed (Inst × TokenStream)
unfolding map_inst memory_inst goto_inst if_goto_inst call_inst
parse_fn TokenCode.call old its = call_inst old its
parse_fn TokenCode.goto old its = goto_inst its
parse_fn TokenCode.if_goto old its = if_goto_inst its
parse_fn TokenCode.push old its = memory_inst its
parse_fn TokenCode.pop old its = memory_inst its
parse_fn _ old its = map_inst its

abbrev pub inst_block_size : ℕ
inst_block_size = 0x1000

-- The cells of the first block are cleared, those that `realloc` adds are not.
abbrev pub cell_nargs : ℕ → Option ℕ
cell_nargs idx = if ltb idx inst_block_size then some 0 else none

-- What the loop changes.
pub record Parser : Type 0 where
  pub its : TokenStream
  pub insts : List Inst
  pub st : SymbolTable

-- The `switch` of the loop.
parse_case : ℕ → ℕ → TokenCode → Parser → Parsed Parser
unfolding label_meta function_inst parse_fn
parse_case st_block base TokenCode.label p = do
  (st, its) ← label_meta st_block p.its p.st (length p.insts + base)
  parsed (record p { its = its; st = st })
parse_case st_block base TokenCode.func p = do
  (st, its) ← function_inst st_block p.its p.st (length p.insts + base)
  parsed (record p { its = its; st = st })
parse_case st_block base t p = do
  (inst, its) ← parse_fn t (cell_nargs (length p.insts)) p.its
  parsed (record p { its = its; insts = p.insts ++ inst ∷ [] })

-- One round of the loop.
unfoldable pub parse_round : ℕ → ℕ → Parser → Parsed Parser
unfolding parse_case is_inst_token its_lh
parse_round st_block base p =
    let t = (its_lh p.its).t in if is_inst_token t then parse_case st_block base t p else parse_err

-- The loop. A round takes a token at least, so the number of tokens is enough fuel.
unfoldable pub parse_loop : ℕ → ℕ → ℕ → Parser → Option (Parsed Parser)
unfolding parse_round
parse_loop zero st_block base p = if ltb p.its.idx p.its.len then none else some (parsed p)
parse_loop (suc fuel) st_block base p =
    if ltb p.its.idx p.its.len
    then elim (parse_round st_block base p) [
      | parsed q ↦ parse_loop fuel st_block base q
      | parse_err ↦ some parse_err
      | parse_fault u ↦ some (parse_fault u)
    ]
    else some (parsed p)

-- `st->num_inst += insts->idx;`
count_insts : Parsed Parser → Parsed (List Inst × SymbolTable)
count_insts r = do
  p ← r
  parsed (p.insts, record (p.st) { num_inst = p.st.num_inst + length p.insts })

unfoldable pub parse :
    ℕ → List Token → List Inst → SymbolTable → Option (Parsed (List Inst × SymbolTable))
unfolding parse_loop count_insts
parse st_block tokens insts st =
    let its : TokenStream = record { tokens = tokens; idx = 0; len = length tokens } in
    let start : Parser = record { its = its; insts = insts; st = st } in
    elim (parse_loop (length tokens) st_block st.num_inst start) [
      | none ↦ none
      | some r ↦ some (count_insts r)
    ]
