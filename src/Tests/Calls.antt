-- ===== src/Tests/Calls.antt =====
-- The theorems on `call` and `return`, at a function that returns 9.
use hvme.Prelude.{ℕ, ◌+◌, ◌-◌, ◌<◌, ◌≡◌, some, arith}
use hvme.Exec.{ok}
use hvme.Heap.{new_heap}
use hvme.Stack.{Stack, spush}
use hvme.Stack.Valid.{Pushed, spush-Pushed}
use hvme.Stack.Confined.{Confined, Pushed-Confined}
use hvme.Call.Frame.{Framed, enter_frame-Framed}
use hvme.Call.Keeps.{Fits, Returned}
use hvme.Call.Balance.{call-return}
use hvme.Call.{enter_frame, leave_frame, Restored}
use hvme.Tests.Stacks.{two_words, two_words-IsValid}

entered :
    (t : Stack) × (enter_frame 2 3 0 1 1 new_heap two_words ≡ ok t)
    × Framed 2 3 0 1 1 new_heap two_words t
entered =
    enter_frame-Framed 2 3 0 1 1 new_heap two_words two_words-IsValid (omega arith) (omega arith)
      (omega arith)

abbrev entry_stack : Stack
entry_stack = entered.0

entry_run : enter_frame 2 3 0 1 1 new_heap two_words ≡ ok entry_stack
entry_run = entered.1

entry_frame : Framed 2 3 0 1 1 new_heap two_words entry_stack
entry_frame = entered.2

nine-Pushed : (u : Stack) × (spush 2 9 entry_stack ≡ ok u) × Pushed 2 9 entry_stack u
nine-Pushed = spush-Pushed 2 9 entry_stack entry_frame.valid (omega arith)

abbrev exit_stack : Stack
exit_stack = nine-Pushed.0

body : Confined 2 entry_stack exit_stack
body = Pushed-Confined entry_frame.valid nine-Pushed.2

has_value : exit_stack.lcl + exit_stack.lcl_len < exit_stack.sp
has_value = let p = nine-Pushed.2 in omega (arith, p.height, p.regs, entry_frame.valid.base)

caller-Fits : Fits two_words new_heap
unfolding new_heap
caller-Fits = record {
  sp = omega arith;
  lcl = omega arith;
  lcl_len = omega arith;
  arg = omega arith;
  arg_len = omega arith;
  this = omega arith;
  that = omega arith;
}

call-return_example :
    (v : ℕ) × (r : Restored) × (exit_stack.ops (exit_stack.sp - 1) ≡ some v)
    × (leave_frame 2 exit_stack ≡ ok r)
    × Returned 2 3 0 1 v new_heap two_words r
call-return_example =
    call-return 2 3 0 1 1 new_heap two_words entry_stack exit_stack two_words-IsValid caller-Fits
      (omega arith) (omega arith) (omega arith) entry_run body has_value
