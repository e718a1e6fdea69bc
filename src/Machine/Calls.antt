-- ===== src/Machine/Calls.antt =====
-- src/exec.c: `call` and `return` keep the invariant of the program, and keep account of the calls.
use hvme.Prelude.{
  ℕ, ◌+◌, ◌≤◌, ◌<◌, ◌≡◌, ◌∙◌, ap, sym, subst, List, ◌∷◌, ltb, length, to_word, arith,
}
use hvme.Exec.{ok, ◌>>=◌, within, Ends, Ends-bind, Ends-if, Ends-within, Ends-weaken}
use hvme.Inst.{Ident}
use hvme.Stack.{Stack}
use hvme.Table.{SymVal, func, mk_key}
use hvme.Program.{Program, active_file, set_ei}
use hvme.Jump.{before, Jump, jmp_ok, jmp_err, jmp_mult_def, jump_to, arrive}
use hvme.Call.Frame.{Framed, enter_frame-Framed}
use hvme.Call.Chain.{Frame, frame_of, IsChain}
use hvme.Call.Nested.{Framed-IsChain, BackIn, leave_frame-BackIn}
use hvme.Call.{enter_frame, leave_frame, exec_call, exec_ret, Restored}
use hvme.Machine.Sound.{WideProgram, IsSound, Quiet, IsSound-Quiet}
use hvme.Machine.Lifted.{active_file-Ends, set_ei-Ends}
use hvme.Machine.Jumps.{Jumped, JumpEnds, jump_to-Ends}

module _ (block : ℕ) (cs : List Frame) (p : Program) (h : IsSound block cs p) where
  -- The program is in the function that `call` names.
  abbrev Entered : Program → Type 0
  Entered q = IsSound block (frame_of p.stack ∷ cs) q

  module _ (nargs ret_ei ret_fi : ℕ) (room : p.stack.lcl + p.stack.lcl_len + nargs ≤ p.stack.sp)
      (fit : p.stack.sp + 8 < 65536) (ei_word : ret_ei < 65536) (fi_word : ret_fi < 65536)
      (back : ret_fi < length p.files) where
    built :
        (val : SymVal) (q : Program)
        → Quiet block p q
        → q.stack ≡ p.stack
        → (t : Stack) → enter_frame block ret_ei ret_fi nargs val.nlocals q.heap q.stack ≡ ok t
        → Framed block ret_ei ret_fi nargs val.nlocals q.heap q.stack t
        → Ends Entered (
            within
              (λ s. record q { stack = s })
              (enter_frame block ret_ei ret_fi nargs val.nlocals q.heap q.stack)
            >>= λ s. set_ei (before val.inst_addr) (record q { stack = s }))
    built val q quiet same t run framed =
        let framed' : Framed block ret_ei ret_fi nargs val.nlocals q.heap p.stack t =
          subst (λ s. Framed block ret_ei ret_fi nargs val.nlocals q.heap s t) same framed in
        let wide : WideProgram (record q { stack = t }) = record {
          running = quiet.wide.running;
          memory = quiet.wide.memory;
          heap = quiet.wide.heap;
          bytes = quiet.wide.bytes;
        } in
        let sound : Entered (record q { stack = t }) = record {
          valid = framed.valid;
          chain =
              subst (λ n. IsChain n t.ops (frame_of t) (frame_of p.stack ∷ cs)) (sym quiet.nfiles)
                (Framed-IsChain block (length p.files) ret_ei ret_fi nargs val.nlocals q.heap
                  p.stack t cs room fit back quiet.wide.heap.this quiet.wide.heap.that h.chain
                  framed');
          wide = wide;
        } in
        rw run (
          Ends-weaken _ Entered (set_ei (before val.inst_addr) (record q { stack = t }))
            (set_ei-Ends block (before val.inst_addr) (record q { stack = t }) framed.valid wide)
            (λ r a. IsSound-Quiet sound a.0))

    -- The frame is built on a program that stands at the function's first instruction.
    entering :
        (val : SymVal) (q : Program)
        → Jumped block p q
        → Ends Entered (
            within
              (λ s. record q { stack = s })
              (enter_frame block ret_ei ret_fi nargs val.nlocals q.heap q.stack)
            >>= λ s. set_ei (before val.inst_addr) (record q { stack = s }))
    entering val q (quiet, same) =
        let (t, run, framed) =
          enter_frame-Framed block ret_ei ret_fi nargs val.nlocals q.heap q.stack (rw same h.valid)
            (rw same (omega arith)) ei_word fi_word in
        built val q quiet same t run framed

    arriving :
        (ident : Ident) (j : Jump)
        → JumpEnds block p j
        → Ends Entered (do
          (val, q) ← arrive ident (λ p. p) p j
          s ←
              within
                (λ s. record q { stack = s })
                (enter_frame block ret_ei ret_fi nargs val.nlocals q.heap q.stack)
          set_ei (before val.inst_addr) (record q { stack = s }))
    arriving ident (jmp_ok v q) a = entering v q a
    arriving ident jmp_err a = tt
    arriving ident jmp_mult_def a = tt

  pub exec_call-Ends :
      (ident : Ident) (nargs : ℕ)
      → p.stack.lcl + p.stack.lcl_len + nargs ≤ p.stack.sp
      → p.stack.sp + 8 < 65536
      → Ends Entered (exec_call block ident nargs p)
  unfolding exec_call
  exec_call-Ends ident nargs room fit =
      Ends-bind _ Entered (active_file p) _ (active_file-Ends p h.wide) (λ f a.
        Ends-if Entered (ltb p.stack.sp nargs) _ _ (λ _. tt)
          (λ _.
            Ends-bind _ Entered (jump_to p (mk_key ident func)) _
              (jump_to-Ends block p h.valid h.wide (mk_key ident func))
              (arriving nargs (to_word f.ei) (to_word p.fi) room fit (omega arith) (omega arith)
                (omega (arith, h.wide.running)) ident)))

module _ (block : ℕ) (c : Frame) (cs : List Frame) (p : Program)
    (h : IsSound block (c ∷ cs) p) where
  -- The program is back in the caller.
  abbrev pub Left : Program → Type 0
  Left q = IsSound block cs q × (frame_of q.stack ≡ c)

  returning :
      (r : Restored)
      → BackIn block (length p.files) c cs r
      → Ends Left (
          set_ei r.ret_ei (record p {
            stack = r.stack;
            heap = record (p.heap) { this = r.this; that = r.that };
            fi = r.ret_fi;
          }))
  returning r b =
      let q : Program = record p {
        stack = r.stack;
        heap = record (p.heap) { this = r.this; that = r.that };
        fi = r.ret_fi;
      } in
      let wide : WideProgram q = record {
        running = b.back;
        memory = h.wide.memory;
        heap = record { words = h.wide.heap.words; this = b.this_word; that = b.that_word };
        bytes = h.wide.bytes;
      } in
      let sound : IsSound block cs q = record { valid = b.valid; chain = b.chain; wide = wide } in
      Ends-weaken _ Left (set_ei r.ret_ei q) (set_ei-Ends block r.ret_ei q b.valid wide)
        (λ t a. (IsSound-Quiet sound a.0, ap frame_of a.1 ∙ b.frame))

  pub exec_ret-Ends : Ends Left (exec_ret block p)
  unfolding exec_ret
  exec_ret-Ends =
      Ends-bind (BackIn block (length p.files) c cs) Left _ _
        (Ends-within _ _ (leave_frame block p.stack)
          (leave_frame-BackIn block (length p.files) p.stack c cs h.valid h.chain.0 h.chain.1))
        returning
