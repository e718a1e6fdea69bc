-- ===== src/Machine/Matched.antt =====
-- src/exec.c: a `return` answers the last call that is open.
use hvme.Prelude.{
  ℕ, ◌+◌, ◌-◌, ◌%◌, ◌^◌, ◌<◌, ◌≡◌, ◌∙◌, ap, sym, subst, some, List, [], ◌∷◌, to_word, arith,
}
use hvme.Exec.{ok, Gives-ok}
use hvme.Inst.{Inst, InstCode}
use hvme.Stack.Valid.{SameRegs}
use hvme.Stack.Confined.{Confined, Confined-refl}
use hvme.Call.Chain.{Frame}
use hvme.Program.{Program}
use hvme.Machine.Sound.{IsSound}
use hvme.Machine.Rounds.{next_inst}
use hvme.Machine.Listing.{Moved, next_ei-Moved}
use hvme.Machine.Crossed.{IsAt, next_ei-IsAt, BackAt, exec_ret-BackAt}
use hvme.Machine.Steps.{StaysCareful}
use hvme.Machine.Nesting.{
  OpenCall, Calls, Calls-Reach, exec_step-Known, InCall, AllKept, AllKept-Confined, stays-Confined,
  calls-InCall,
}
use hvme.Machine.{exec_inst, exec_step}

-- `q` stands at a `return` that leads to `r`, and answers the call `c`: the caller has the word on
-- top of the callee's stack in the place of the arguments, and all else as it was at the call.
pub record Answers (c : OpenCall) (q r : Program) : Type 0 where
  pub value : ℕ
  pub top : q.stack.ops (q.stack.sp - 1) ≡ some value
  pub placed : r.stack.ops (c.caller.stack.sp - c.nargs) ≡ some value
  pub height : r.stack.sp ≡ c.caller.stack.sp - c.nargs + 1
  pub below : (i : ℕ) → i < c.caller.stack.sp - c.nargs → r.stack.ops i ≡ c.caller.stack.ops i
  pub regs : SameRegs c.caller.stack r.stack
  pub this : r.heap.this ≡ c.caller.heap.this
  pub that : r.heap.that ≡ c.caller.heap.that

module _ (block : ℕ) (fs : List Frame) (p : Program) (h : IsSound block fs p)
    (careful : StaysCareful block p) where
  -- It is only the frame on top of the caller that has changed.
  pub returned :
      (inst : Inst) (c : OpenCall) (q r : Program) (a : InCall block fs p h careful c q)
      → next_inst q ≡ some inst
      → inst.code ≡ InstCode.ret
      → exec_step block q ≡ ok (some r)
      → Answers c q r
        × IsAt (to_word c.caller.fi) ((to_word a.file.ei + 1) % 2 ^ 32) r
        × Confined block c.caller.stack r.stack
  unfolding exec_inst
  returned inst c q r a at is run =
      let k = exec_step-Known block InstCode.ret inst q r at is run in
      let moved = Gives-ok (Moved k.after) k.counts (next_ei-Moved k.after) in
      let b =
        Gives-ok
          (BackAt block (to_word a.file.ei) (to_word c.caller.fi) c.nargs c.caller.heap
            c.caller.stack q.stack)
          k.execs
          (exec_ret-BackAt block (to_word a.file.ei) (to_word c.caller.fi) c.nargs a.nlocals
            c.caller.heap c.caller.stack q a.valid a.fits a.enough a.keeps) in
      let same = moved.1 ∙ b.stack in
      (
        record {
          value = b.value;
          top = b.top;
          placed = ap (λ s. s.ops (c.caller.stack.sp - c.nargs)) same ∙ b.returned.value;
          height = ap (λ s. s.sp) same ∙ b.returned.height;
          below = λ i x. ap (λ s. s.ops i) same ∙ b.returned.below i x;
          regs = subst (SameRegs c.caller.stack) (sym same) b.returned.regs;
          this = ap (λ h. h.this) moved.2 ∙ b.this;
          that = ap (λ h. h.that) moved.2 ∙ b.that;
        },
        Gives-ok (IsAt (to_word c.caller.fi) ((to_word a.file.ei + 1) % 2 ^ 32)) k.counts
            (next_ei-IsAt (to_word c.caller.fi) (to_word a.file.ei) k.after b.position),
        subst (Confined block c.caller.stack) (sym same) (record {
          regs = b.returned.regs;
          outside = λ i x y. b.returned.below i (omega (arith, a.enough));
          valid = b.returned.valid;
        }),
      )

  pub Calls-AllKept :
      (cs : List OpenCall) (q : Program) → Calls block p cs q → AllKept block fs p h careful cs q
  Calls-AllKept cs q Calls.here = Confined-refl h.valid
  Calls-AllKept cs q (Calls.stays {q = q'} inst way at inside run) =
      AllKept-Confined block fs p h careful cs q' q (Calls-AllKept cs q' way) (
        stays-Confined block fs p h careful inst q' q (Calls-Reach block p cs q' way) at inside run)
  Calls-AllKept _ q (Calls.calls {cs = cs} {q = q'} inst ident nargs way at is run) = (
    calls-InCall block fs p h careful inst ident nargs q' q (Calls-Reach block p cs q' way) at is
        run,
    Calls-AllKept cs q' way,
  )
  Calls-AllKept cs q (Calls.returns {c = c} {q = q'} inst way at is run) =
      let (a, rest) = Calls-AllKept (c ∷ cs) q' way in
      AllKept-Confined block fs p h careful cs c.caller q rest (returned inst c q' q a at is run).2

  -- When every call that was made from a program has returned, the run has changed the frame on top
  -- alone: the arguments, the locals and the words above them; the segment registers are as they
  -- were. The program satisfies the invariant, and the instructions on the way are careful.
  pub Calls-Confined : (q : Program) → Calls block p [] q → Confined block p.stack q.stack
  Calls-Confined q way = Calls-AllKept [] q way
