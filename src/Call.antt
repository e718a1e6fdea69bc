-- ===== src/Call.antt =====
-- src/exec.c: `call` and `return`.
pub mod Frame
pub mod Chain
pub mod Nested
pub mod Keeps
pub mod Return
pub mod Balance
use hvme.Prelude.{ℕ, zero, suc, ◌+◌, ◌-◌, List, [], ◌∷◌, ltb, if◌then◌else◌, to_word}
use hvme.Exec.{Run, ok, err, fault, ◌>>=◌, within, out_of_bounds, nargs_error}
use hvme.Inst.{Ident}
use hvme.Heap.{Heap}
use hvme.Stack.{Stack, load, store, spush, pop_word}
use hvme.Table.{func, mk_key}
use hvme.Program.{Program, active_file, set_ei}
use hvme.Jump.{before, jump_to, arrive}

-- A row of calls of `spush`.
unfoldable pub spush_all : ℕ → List ℕ → Stack → Run Stack Stack
spush_all block [] s = ok s
spush_all block (v ∷ vs) s = spush block v s >>= spush_all block vs

-- `for (size_t i = 0; i < stack->lcl_len; i++) spush(stack, 0);`
unfoldable pub push_locals : ℕ → ℕ → Stack → Run Stack Stack
push_locals block zero s = ok s
push_locals block (suc n) s = spush block 0 s >>= push_locals block n

-- What `exec_call` pushes, in this order.
abbrev pub saved_words : ℕ → ℕ → Stack → Heap → List ℕ
saved_words ret_ei ret_fi s h =
    ret_ei
    ∷ ret_fi
    ∷ to_word s.lcl
    ∷ to_word s.lcl_len
    ∷ to_word s.arg
    ∷ to_word s.arg_len
    ∷ to_word h.this
    ∷ to_word h.that
    ∷ []

-- The frame of the callee. The check of `nargs` rules out that the subtraction wraps.
unfoldable pub enter_frame : ℕ → ℕ → ℕ → ℕ → ℕ → Heap → Stack → Run Stack Stack
enter_frame block ret_ei ret_fi nargs nlocals h s = do
  t ← spush_all block (saved_words ret_ei ret_fi s h) s
  push_locals block nlocals
      (record t { arg = t.sp - 8 - nargs; arg_len = nargs; lcl = t.sp; lcl_len = nlocals })

unfoldable pub exec_call : ℕ → Ident → ℕ → Program → Run Program Program
unfolding enter_frame spush_all push_locals
exec_call block ident nargs p = do
  f ← active_file p
  let ret_ei = to_word f.ei
  let ret_fi = to_word p.fi
  if ltb p.stack.sp nargs then err (nargs_error nargs p.stack.sp) p else (do
    j ← jump_to p (mk_key ident func)
    (val, q) ← arrive ident (λ p. p) p j
    s ←
        within (λ s. record q { stack = s })
          (enter_frame block ret_ei ret_fi nargs val.nlocals q.heap q.stack)
    set_ei (before val.inst_addr) (record q { stack = s }))

-- `stack->ops[frame - k]`; a negative index is out of bounds.
unfoldable pub load_below : ℕ → ℕ → Stack → Run Stack ℕ
load_below frame k s = if ltb frame k then fault out_of_bounds else load (frame - k) s

-- The registers that `exec_ret` sets.
pub record Restored : Type 0 where
  pub stack : Stack
  pub this : ℕ
  pub that : ℕ
  pub ret_ei : ℕ
  pub ret_fi : ℕ

-- `exec_ret` up to the jump
unfoldable pub leave_frame : ℕ → Stack → Run Stack Restored
unfolding load_below
leave_frame block s₀ = do
  let frame = to_word s₀.lcl
  ret_ei ← load_below frame 8 s₀
  ret_fi ← load_below frame 7 s₀
  (ret_val, s₁) ← pop_word block s₀
  s ← store s₁.arg ret_val s₁
  that ← load_below frame 1 s
  this ← load_below frame 2 s
  arg_len ← load_below frame 3 s
  arg ← load_below frame 4 s
  lcl_len ← load_below frame 5 s
  lcl ← load_below frame 6 s
  ok (record {
    stack = record s { sp = s.arg + 1; arg = arg; arg_len = arg_len; lcl = lcl; lcl_len = lcl_len };
    this = this;
    that = that;
    ret_ei = ret_ei;
    ret_fi = ret_fi;
  })

unfoldable pub exec_ret : ℕ → Program → Run Program Program
unfolding leave_frame
exec_ret block p = do
  r ← within (λ s. record p { stack = s }) (leave_frame block p.stack)
  set_ei r.ret_ei (record p {
    stack = r.stack;
    heap = record (p.heap) { this = r.this; that = r.that };
    fi = r.ret_fi;
  })
