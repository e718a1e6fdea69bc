-- ===== src/Machine/Advanced.antt =====
-- src/exec.c: every instruction keeps the invariant of the program.
use hvme.Prelude.{ℕ, ◌≡◌, ◌≢◌, refl, ap, sym, List, [], ◌∷◌}
use hvme.Exec.{Ends, Ends-weaken}
use hvme.Inst.{InstCode}
use hvme.Call.{exec_ret}
use hvme.Call.Chain.{Frame, frame_of, frame_of-eq}
use hvme.Program.{Program}
use hvme.Machine.Sound.{IsSound, Quiet, IsSound-Quiet}
use hvme.Machine.Calls.{exec_call-Ends, exec_ret-Ends}
use hvme.Machine.{exec_inst}
use hvme.Machine.Careful.{IsCareful, StaysIn, exec_inst-Quiet}

-- How an instruction changes the frames of the callers. `call` puts the running function's frame
-- before them, `return` makes the first of them the running function's, and no other instruction
-- changes any.
abbrev pub Advances : InstCode → Frame → List Frame → Frame → List Frame → Type 0
Advances (InstCode.call ident nargs) f cs f' cs' = cs' ≡ f ∷ cs
Advances InstCode.ret f cs f' cs' = cs ≡ f' ∷ cs'
Advances _ f cs f' cs' = (f' ≡ f) × (cs' ≡ cs)

-- The program after an instruction.
pub record Advanced (block : ℕ) (code : InstCode) (cs : List Frame) (p q : Program) : Type 0 where
  pub callers : List Frame
  pub sound : IsSound block callers q
  pub frames : Advances code (frame_of p.stack) cs (frame_of q.stack) callers

exec_ret-Advanced :
    (block : ℕ) (cs : List Frame) (p : Program)
    → IsSound block cs p
    → p.stack.lcl ≢ 0
    → Ends (Advanced block InstCode.ret cs p) (exec_ret block p)
exec_ret-Advanced block [] p h a = absurd (a h.chain.2)
exec_ret-Advanced block (c ∷ cs) p h a =
    Ends-weaken _ (Advanced block InstCode.ret (c ∷ cs) p) (exec_ret block p)
      (exec_ret-Ends block c cs p h)
      (λ q s. record { callers = cs; sound = s.0; frames = ap (λ f. f ∷ cs) (sym s.1) })

module _ (block : ℕ) (cs : List Frame) (p : Program) (h : IsSound block cs p) where
  quietly :
      (code : InstCode)
      → StaysIn code
      → ((q : Program)
          → frame_of q.stack ≡ frame_of p.stack
          → Advances code (frame_of p.stack) cs (frame_of q.stack) cs)
      → IsCareful code p
      → Ends (Advanced block code cs p) (exec_inst block code p)
  quietly code stays k careful =
      Ends-weaken (Quiet block p) (Advanced block code cs p) (exec_inst block code p)
        (exec_inst-Quiet block p h.valid h.wide code stays careful)
        (λ q a. record {
          callers = cs;
          sound = IsSound-Quiet h a;
          frames = k q (frame_of-eq p.stack q.stack a.stack.regs);
        })

  pub exec_inst-Advanced :
      (code : InstCode)
      → IsCareful code p
      → Ends (Advanced block code cs p) (exec_inst block code p)
  unfolding exec_inst
  exec_inst-Advanced (InstCode.pop seg offset) a =
      quietly (InstCode.pop seg offset) tt (λ q e. (e, refl)) a
  exec_inst-Advanced (InstCode.push seg offset) a =
      quietly (InstCode.push seg offset) tt (λ q e. (e, refl)) a
  exec_inst-Advanced InstCode.add a = quietly InstCode.add tt (λ q e. (e, refl)) a
  exec_inst-Advanced InstCode.sub a = quietly InstCode.sub tt (λ q e. (e, refl)) a
  exec_inst-Advanced InstCode.neg a = quietly InstCode.neg tt (λ q e. (e, refl)) a
  exec_inst-Advanced InstCode.and a = quietly InstCode.and tt (λ q e. (e, refl)) a
  exec_inst-Advanced InstCode.or a = quietly InstCode.or tt (λ q e. (e, refl)) a
  exec_inst-Advanced InstCode.not a = quietly InstCode.not tt (λ q e. (e, refl)) a
  exec_inst-Advanced InstCode.eq a = quietly InstCode.eq tt (λ q e. (e, refl)) a
  exec_inst-Advanced InstCode.lt a = quietly InstCode.lt tt (λ q e. (e, refl)) a
  exec_inst-Advanced InstCode.gt a = quietly InstCode.gt tt (λ q e. (e, refl)) a
  exec_inst-Advanced (InstCode.goto ident) a = quietly (InstCode.goto ident) tt (λ q e. (e, refl)) a
  exec_inst-Advanced (InstCode.if_goto ident) a =
      quietly (InstCode.if_goto ident) tt (λ q e. (e, refl)) a
  exec_inst-Advanced (InstCode.call ident nargs) (a, b) =
      Ends-weaken _ (Advanced block _ cs p) _ (exec_call-Ends block cs p h ident nargs a b)
        (λ q s. record { callers = frame_of p.stack ∷ cs; sound = s; frames = refl })
  exec_inst-Advanced InstCode.ret a = exec_ret-Advanced block cs p h a
  exec_inst-Advanced InstCode.builtin_print_char a =
      quietly InstCode.builtin_print_char tt (λ q e. (e, refl)) a
  exec_inst-Advanced InstCode.builtin_print_num a =
      quietly InstCode.builtin_print_num tt (λ q e. (e, refl)) a
  exec_inst-Advanced InstCode.builtin_print_str a =
      quietly InstCode.builtin_print_str tt (λ q e. (e, refl)) a
  exec_inst-Advanced InstCode.builtin_read_char a =
      quietly InstCode.builtin_read_char tt (λ q e. (e, refl)) a
  exec_inst-Advanced InstCode.builtin_read_num a =
      quietly InstCode.builtin_read_num tt (λ q e. (e, refl)) a
  exec_inst-Advanced InstCode.builtin_read_str a =
      quietly InstCode.builtin_read_str tt (λ q e. (e, refl)) a
  exec_inst-Advanced InstCode.ic_none a = quietly InstCode.ic_none tt (λ q e. (e, refl)) a
