-- ===== src/Call/Balance.antt =====
-- src/exec.c: `exec_call` and `exec_ret` around the body of a function.
use hvme.Prelude.{ℕ, ◌+◌, ◌-◌, ◌≤◌, ◌<◌, ◌≡◌, some, arith}
use hvme.Exec.{ok}
use hvme.Heap.{Heap}
use hvme.Stack.{Stack}
use hvme.Stack.Valid.{IsValid}
use hvme.Stack.Confined.{Confined}
use hvme.Call.Frame.{enter_frame-Framed}
use hvme.Call.Keeps.{Fits, Returned, Framed-Keeps, Keeps-Confined}
use hvme.Call.Return.{leave_frame-Returned}
use hvme.Call.{enter_frame, leave_frame, Restored}

-- A function is entered from a valid stack whose registers fit 16 bits and whose words above the
-- locals are at least the arguments, with a return position of 16 bits; its body changes the frame
-- on top alone and leaves a word above the locals. Then `exec_ret` gives its caller that word in
-- the place of the arguments, all cells below the arguments, the segment registers, the heap
-- pointers and the position.
pub call-return :
    (block ret_ei ret_fi nargs nlocals : ℕ) (h : Heap) (s t u : Stack)
    → IsValid block s
    → Fits s h
    → s.lcl + s.lcl_len + nargs ≤ s.sp
    → ret_ei < 65536
    → ret_fi < 65536
    → enter_frame block ret_ei ret_fi nargs nlocals h s ≡ ok t
    → Confined block t u
    → u.lcl + u.lcl_len < u.sp
    → (v : ℕ) × (r : Restored) × (u.ops (u.sp - 1) ≡ some v)
      × (leave_frame block u ≡ ok r)
      × Returned block ret_ei ret_fi nargs v h s r
call-return block ret_ei ret_fi nargs nlocals h s t u w fits enough he hf run body value =
    let room : nargs ≤ s.sp = omega arith in
    let (t', run', framed) =
      enter_frame-Framed block ret_ei ret_fi nargs nlocals h s w room he hf in
    let same : t' ≡ t = cc in
    let keeps = Keeps-Confined room (Framed-Keeps (rw (← same) framed)) body in
    leave_frame-Returned block ret_ei ret_fi nargs nlocals h s u w fits enough keeps value
