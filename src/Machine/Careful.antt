-- ===== src/Machine/Careful.antt =====
-- src/exec.c: what the code relies on at an instruction, and the instructions that stay in their
-- function.
use hvme.Prelude.{ℕ, ◌+◌, ◌≤◌, ◌<◌, ◌≢◌}
use hvme.Exec.{Ends}
use hvme.Inst.{InstCode}
use hvme.Stack.Valid.{IsValid}
use hvme.Arith.{
  exec_add, exec_sub, exec_neg, exec_and, exec_or, exec_not, exec_eq, exec_lt, exec_gt,
}
use hvme.Arith.Safe.{arith-Ends}
use hvme.Segments.{exec_pop, exec_push}
use hvme.Segments.Kept.{AvoidsEnd, PointsInside}
use hvme.Segments.Pop.{exec_pop-Ends}
use hvme.Segments.Push.{exec_push-Ends}
use hvme.Builtins.{scanf_u}
use hvme.Builtins.Left.{CanScan}
use hvme.Builtins.Served.{
  print_char-Ends, print_num-Ends, read_char-Ends, read_str-Quiet, PrintsInside, read_num-Quiet,
  print_str-Quiet,
}
use hvme.Program.{File, Program}
use hvme.Machine.Sound.{WideProgram, Quiet}
use hvme.Machine.Lifted.{banks_of, with_stack-Ends, with_banks-Ends}
use hvme.Machine.Jumps.{exec_goto-Ends, exec_if_goto-Ends}
use hvme.Machine.{exec_inst}

-- What the code relies on at an instruction, where C would leave its behaviour undefined: no
-- access hits the word behind the heap, no pushed pointer lies behind it, a call takes its arguments
-- from above the caller's locals and on a stack of 16-bit addresses, `return` stands in a function
-- that has been called, a printed text lies within the heap, and a number can be scanned.
abbrev pub IsCareful : InstCode → Program → Type 0
IsCareful (InstCode.pop seg offset) p = (f : File) → AvoidsEnd seg offset (banks_of p f)
IsCareful (InstCode.push seg offset) p =
    (f : File) → AvoidsEnd seg offset (banks_of p f) × PointsInside seg (banks_of p f)
IsCareful (InstCode.call ident nargs) p =
    (p.stack.lcl + p.stack.lcl_len + nargs ≤ p.stack.sp) × (p.stack.sp + 8 < 65536)
IsCareful InstCode.ret p = p.stack.lcl ≢ 0
IsCareful InstCode.builtin_print_str p = PrintsInside p.stack
IsCareful InstCode.builtin_read_num p = CanScan (scanf_u p.io.stdin)
IsCareful _ p = Unit

-- An instruction that neither calls a function nor returns from one.
abbrev pub StaysIn : InstCode → Type 0
StaysIn (InstCode.call ident nargs) = ⊥
StaysIn InstCode.ret = ⊥
StaysIn _ = Unit

module _ (block : ℕ) (p : Program) (valid : IsValid block p.stack) (wide : WideProgram p) where
  -- Such an instruction changes the frame on top alone.
  pub exec_inst-Quiet :
      (code : InstCode)
      → StaysIn code
      → IsCareful code p
      → Ends (Quiet block p) (exec_inst block code p)
  unfolding exec_inst
  exec_inst-Quiet (InstCode.pop seg offset) stays a =
      (with_banks-Ends block (exec_pop block seg offset) p wide
        (λ f w. exec_pop-Ends block (banks_of p f) valid w seg offset (a f)))
  exec_inst-Quiet (InstCode.push seg offset) stays a =
      (with_banks-Ends block (exec_push block seg offset) p wide
        (λ f w. exec_push-Ends block (banks_of p f) valid w seg offset (a f).0 (a f).1))
  exec_inst-Quiet InstCode.add stays a =
      (with_stack-Ends block (exec_add block) p wide (arith-Ends block p.stack valid).0)
  exec_inst-Quiet InstCode.sub stays a =
      (with_stack-Ends block (exec_sub block) p wide (arith-Ends block p.stack valid).1)
  exec_inst-Quiet InstCode.neg stays a =
      (with_stack-Ends block (exec_neg block) p wide (arith-Ends block p.stack valid).2)
  exec_inst-Quiet InstCode.and stays a =
      (with_stack-Ends block (exec_and block) p wide (arith-Ends block p.stack valid).3)
  exec_inst-Quiet InstCode.or stays a =
      (with_stack-Ends block (exec_or block) p wide (arith-Ends block p.stack valid).4)
  exec_inst-Quiet InstCode.not stays a =
      (with_stack-Ends block (exec_not block) p wide (arith-Ends block p.stack valid).5)
  exec_inst-Quiet InstCode.eq stays a =
      (with_stack-Ends block (exec_eq block) p wide (arith-Ends block p.stack valid).6)
  exec_inst-Quiet InstCode.lt stays a =
      (with_stack-Ends block (exec_lt block) p wide (arith-Ends block p.stack valid).7)
  exec_inst-Quiet InstCode.gt stays a =
      (with_stack-Ends block (exec_gt block) p wide (arith-Ends block p.stack valid).8)
  exec_inst-Quiet (InstCode.goto ident) stays a = (exec_goto-Ends block p valid wide ident)
  exec_inst-Quiet (InstCode.if_goto ident) stays a = (exec_if_goto-Ends block p valid wide ident)
  exec_inst-Quiet (InstCode.call ident nargs) stays a = absurd stays
  exec_inst-Quiet InstCode.ret stays a = absurd stays
  exec_inst-Quiet InstCode.builtin_print_char stays a = (print_char-Ends block p valid wide)
  exec_inst-Quiet InstCode.builtin_print_num stays a = (print_num-Ends block p valid wide)
  exec_inst-Quiet InstCode.builtin_print_str stays a = (print_str-Quiet block p valid wide a)
  exec_inst-Quiet InstCode.builtin_read_char stays a = (read_char-Ends block p valid wide)
  exec_inst-Quiet InstCode.builtin_read_num stays a = (read_num-Quiet block p valid wide a)
  exec_inst-Quiet InstCode.builtin_read_str stays a = (read_str-Quiet block p valid wide)
  exec_inst-Quiet InstCode.ic_none stays a = tt
