-- ===== src/Machine.antt =====
-- src/exec.c: `exec_prog`, one instruction at a time and as a loop on fuel.
pub mod Sound
pub mod Lifted
pub mod Jumps
pub mod Calls
pub mod Careful
pub mod Advanced
pub mod Steps
pub mod Straight
pub mod Rounds
pub mod Halts
pub mod Listing
pub mod Listed
pub mod Crossed
pub mod Nesting
pub mod Matched
pub mod Resumed
use hvme.Prelude.{ℕ, zero, suc, ◌+◌, ◌%◌, ◌^◌, Option, none, some, get_elem?, set}
use hvme.Exec.{Run, ok, err, fault, ◌>>=◌, within, invalid_inst}
use hvme.Inst.{InstCode}
use hvme.Stack.{Stack}
use hvme.Segments.{Banks, exec_pop, exec_push}
use hvme.Arith.{
  exec_add, exec_sub, exec_neg, exec_and, exec_or, exec_not, exec_eq, exec_lt, exec_gt,
}
use hvme.Console.{clean_stdout}
use hvme.Program.{File, Program, active_file, set_ei}
use hvme.Jump.{exec_goto, exec_if_goto}
use hvme.Call.{exec_call, exec_ret}
use hvme.Builtins.{
  exec_builtin_print_char, exec_builtin_print_num, exec_builtin_print_str, exec_builtin_read_char,
  exec_builtin_read_num, exec_builtin_read_str,
}

-- An instruction that is handed `&prog->stack`.
unfoldable pub with_stack : (Stack → Run Stack Stack) → Program → Run Program Program
with_stack f p = do
  s ← within (λ s. record p { stack = s }) (f p.stack)
  ok (record p { stack = s })

-- The memory of the active file, written back with the stack and the heap.
put_banks : Program → File → Banks → Program
put_banks p f b = record p {
  files = set p.files p.fi (record f { mem = b.mem });
  stack = b.stack;
  heap = b.heap;
}

-- An instruction that is handed the stack, the heap and the active file's memory.
unfoldable pub with_banks : (Banks → Run Banks Banks) → Program → Run Program Program
unfolding put_banks
with_banks g p = do
  f ← active_file p
  b ← within (put_banks p f) (g (record { stack = p.stack; heap = p.heap; mem = f.mem }))
  ok (put_banks p f b)

-- The `switch` in the loop.
unfoldable pub exec_inst : ℕ → InstCode → Program → Run Program Program
unfolding with_stack with_banks
exec_inst block (InstCode.pop seg offset) p = with_banks (exec_pop block seg offset) p
exec_inst block (InstCode.push seg offset) p = with_banks (exec_push block seg offset) p
exec_inst block InstCode.add p = with_stack (exec_add block) p
exec_inst block InstCode.sub p = with_stack (exec_sub block) p
exec_inst block InstCode.neg p = with_stack (exec_neg block) p
exec_inst block InstCode.and p = with_stack (exec_and block) p
exec_inst block InstCode.or p = with_stack (exec_or block) p
exec_inst block InstCode.not p = with_stack (exec_not block) p
exec_inst block InstCode.eq p = with_stack (exec_eq block) p
exec_inst block InstCode.lt p = with_stack (exec_lt block) p
exec_inst block InstCode.gt p = with_stack (exec_gt block) p
exec_inst block (InstCode.goto ident) p = exec_goto ident p
exec_inst block (InstCode.if_goto ident) p = exec_if_goto block ident p
exec_inst block (InstCode.call ident nargs) p = exec_call block ident nargs p
exec_inst block InstCode.ret p = exec_ret block p
exec_inst block InstCode.builtin_print_char p = exec_builtin_print_char block p
exec_inst block InstCode.builtin_print_num p = exec_builtin_print_num block p
exec_inst block InstCode.builtin_print_str p = exec_builtin_print_str block p
exec_inst block InstCode.builtin_read_char p = exec_builtin_read_char block p
exec_inst block InstCode.builtin_read_num p = exec_builtin_read_num block p
exec_inst block InstCode.builtin_read_str p = exec_builtin_read_str block p
exec_inst block InstCode.ic_none p = err invalid_inst p

-- `active_file(prog).ei ++` on `unsigned int`
unfoldable pub next_ei : Program → Run Program Program
next_ei p = do f ← active_file p; set_ei ((f.ei + 1) % 2 ^ 32) p

-- One round of the loop; `none` says that its test has failed.
unfoldable pub exec_step : ℕ → Program → Run Program (Option Program)
unfolding exec_inst next_ei
exec_step block p = do
  f ← active_file p
  elim (get_elem? f.insts f.ei) [
    | none ↦ ok none
    | some inst ↦ do q ← exec_inst block inst.code p; r ← next_ei q; ok (some r)
  ]

-- The loop, and the messages' flush of the standard output. `none` says that the fuel ran out.
unfoldable pub exec_prog : ℕ → ℕ → Program → Option (Run Program Program)
unfolding exec_step
exec_prog zero block p = none
exec_prog (suc fuel) block p = elim (exec_step block p) [
  | ok none ↦ some (ok p)
  | ok (some q) ↦ exec_prog fuel block q
  | err e q ↦ some (err e (record q { io = clean_stdout q.io }))
  | fault u ↦ some (fault u)
]
