-- ===== src/Stack.antt =====
-- src/prog.c, src/prog.h: the operand stack.
-- `ops` holds `len` cells; a cell that no one has written since `realloc` made it is `none`.
-- Every function takes `STACK_BLOCK_SIZE`, which the two builds define differently.
pub mod Valid
pub mod Contents
pub mod Confined
use hvme.Prelude.{ℕ, ◌+◌, ◌-◌, Option, none, some, ◌&&◌, ltb, ◌==◌, if◌then◌else◌, size_sub, update}
use hvme.Exec.{Run, ok, err, fault, ◌>>=◌, out_of_bounds, uninitialised, stack_underflow}

pub record Stack : Type 0 where
  pub ops : ℕ → Option ℕ
  pub sp : ℕ
  pub arg : ℕ
  pub arg_len : ℕ
  pub lcl : ℕ
  pub lcl_len : ℕ
  pub len : ℕ

-- `calloc` of `n` cells.
abbrev pub calloc_ops : ℕ → ℕ → Option ℕ
calloc_ops n i = if ltb i n then some 0 else none

-- `realloc` keeps the cells below both lengths.
abbrev pub realloc_ops : (ℕ → Option ℕ) → ℕ → ℕ → ℕ → Option ℕ
realloc_ops ops old new i = if ltb i old && ltb i new then ops i else none

unfoldable pub new_stack : ℕ → Stack
new_stack block = record {
  ops = calloc_ops block;
  sp = 0;
  arg = 0;
  arg_len = 0;
  lcl = 0;
  lcl_len = 0;
  len = block;
}

-- `stack->ops[i]`
unfoldable pub load : ℕ → Stack → Run Stack ℕ
load i s =
    if ltb i s.len
    then elim (s.ops i) [ none ↦ fault uninitialised | some v ↦ ok v ]
    else fault out_of_bounds

-- `stack->ops[i] = v`
unfoldable pub store : ℕ → ℕ → Stack → Run Stack Stack
store i v s =
    if ltb i s.len then ok (record s { ops = update s.ops i (some v) }) else fault out_of_bounds

unfoldable pub grow : ℕ → Stack → Stack
grow block s =
    if s.sp == s.len
    then record s { ops = realloc_ops s.ops s.len (s.len + block); len = s.len + block }
    else s

unfoldable pub spush : ℕ → ℕ → Stack → Run Stack Stack
unfolding grow store
spush block v s = do let t = grow block s; u ← store t.sp v t; ok (record u { sp = u.sp + 1 })

unfoldable pub shrink : ℕ → Stack → Stack
shrink block s =
    if ltb s.sp (size_sub s.len block)
    then record s { ops = realloc_ops s.ops s.len (s.len - block); len = s.len - block }
    else s

-- `none` is `SPOP_UF`.
unfoldable pub spop : ℕ → Stack → Run Stack (Option ℕ × Stack)
unfolding shrink load
spop block s =
    let t = shrink block (record s { sp = s.sp - 1 }) in
    if ltb (s.lcl + s.lcl_len) s.sp then (load t.sp t >>= λ v. ok (some v, t)) else ok (none, s)

-- The result of `if (!spop(stack, &v)) STACK_UNDERFLOW_ERROR(pos)`
abbrev pub or_underflow : Option ℕ × Stack → Run Stack (ℕ × Stack)
or_underflow (none, s) = err stack_underflow s
or_underflow (some v, s) = ok (v, s)

unfoldable pub pop_word : ℕ → Stack → Run Stack (ℕ × Stack)
unfolding spop
pop_word block s = spop block s >>= or_underflow
