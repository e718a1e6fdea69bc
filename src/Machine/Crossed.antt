-- ===== src/Machine/Crossed.antt =====
-- src/exec.c: what `call` and `return` leave of the program.
use hvme.Prelude.{
  ◌<◌, ℕ, ◌+◌, ◌-◌, ◌%◌, ◌^◌, ◌≤◌, ◌≡◌, ◌∙◌, refl, ap, sym, subst, some, dec_lt, ltb, arith,
  get_elem?, to_word,
}
use hvme.Exec.{
  err, stack_underflow, ok, ◌>>=◌, within, Gives, Gives-bind, Gives-weaken, Gives-within,
  Gives-both, Errless, Errless-bind,
}
use hvme.Inst.{Ident}
use hvme.Heap.{Heap}
use hvme.Stack.{Stack}
use hvme.Stack.Valid.{IsValid, pop_word-underflow}
use hvme.Table.{SymVal, func, mk_key}
use hvme.Builtins.Local.{Gives-if, after}
use hvme.Program.{File, Program, active_file, set_ei}
use hvme.Jump.Branch.{active_file-Errless, set_ei-Errless}
use hvme.Jump.{before, jump_to, arrive}
use hvme.Call.Frame.{Framed, enter_frame-Framed}
use hvme.Call.Keeps.{Keeps, Fits, Returned}
use hvme.Call.Return.{leave_frame-Returned, load_below-some}
use hvme.Call.{load_below, enter_frame, leave_frame, exec_call, exec_ret, Restored}
use hvme.Machine.Lifted.{active_file-some}
use hvme.Machine.Straight.{get_elem?-set}
use hvme.Machine.Listing.{Moved, active_file-Gives, set_ei-Moved, jump_to-Moved, arrive-Moved}
use hvme.Machine.{next_ei}

-- The active file stands at `ei`.
pub record IsAt (fi ei : ℕ) (q : Program) : Type 0 where
  pub fi_same : q.fi ≡ fi
  pub file : File
  pub active : get_elem? q.files q.fi ≡ some file
  pub at : file.ei ≡ ei

set_ei-IsAt : (ei : ℕ) (p : Program) → Gives (IsAt p.fi ei) (set_ei ei p)
unfolding set_ei
set_ei-IsAt ei p = Gives-bind _ (IsAt p.fi ei) (active_file p) _ (active_file-Gives p) (λ f e.
    record {
      fi_same = refl;
      file = record f { ei = ei };
      active = get_elem?-set p.files p.fi f (record f { ei = ei }) e;
      at = refl;
    })

pub next_ei-Errless : (p : Program) → Errless (next_ei p)
unfolding next_ei
next_ei-Errless p = Errless-bind (active_file p) _ (active_file-Errless p) (λ f. set_ei-Errless _ p)

pub next_ei-IsAt :
    (fi ei : ℕ) (p : Program) → IsAt fi ei p → Gives (IsAt fi ((ei + 1) % 2 ^ 32)) (next_ei p)
unfolding next_ei
next_ei-IsAt fi ei p h = rw (active_file-some p h.file h.active) (
    Gives-weaken _ (IsAt fi ((ei + 1) % 2 ^ 32)) (set_ei ((h.file.ei + 1) % 2 ^ 32) p)
      (set_ei-IsAt ((h.file.ei + 1) % 2 ^ 32) p)
      (λ q a. record {
        fi_same = a.fi_same ∙ h.fi_same;
        file = a.file;
        active = a.active;
        at = a.at ∙ ap (λ n. (n + 1) % 2 ^ 32) h.at;
      }))

-- The frame of the callee, on the program that `exec_call` leaves.
pub record Entered (block nargs : ℕ) (p : Program) (f : File) (q : Program) : Type 0 where
  pub nlocals : ℕ
  pub framed : Framed block (to_word f.ei) (to_word p.fi) nargs nlocals p.heap p.stack q.stack

module _ (block nargs : ℕ) (p : Program) (f : File) (valid : IsValid block p.stack)
    (enough : nargs ≤ p.stack.sp) where
  built :
      (val : SymVal) (q : Program)
      → Moved p q
      → Gives (Entered block nargs p f) (
          within
            (λ s. record q { stack = s })
            (enter_frame block (to_word f.ei) (to_word p.fi) nargs val.nlocals q.heap q.stack)
          >>= λ s. set_ei (before val.inst_addr) (record q { stack = s }))
  built val q a =
      let (t, run, framed) =
        enter_frame-Framed block (to_word f.ei) (to_word p.fi) nargs val.nlocals p.heap p.stack
          valid enough (omega arith) (omega arith) in
      let run' : enter_frame block (to_word f.ei) (to_word p.fi) nargs val.nlocals q.heap q.stack
          ≡ ok t =
        ap (λ h. enter_frame block (to_word f.ei) (to_word p.fi) nargs val.nlocals h q.stack) a.2
        ∙ ap (enter_frame block (to_word f.ei) (to_word p.fi) nargs val.nlocals p.heap) a.1
        ∙ run in
      rw run' (
        Gives-weaken _ (Entered block nargs p f)
          (set_ei (before val.inst_addr) (record q { stack = t }))
          (set_ei-Moved (before val.inst_addr) (record q { stack = t }))
          (λ r b. record {
            nlocals = val.nlocals;
            framed =
                subst (Framed block (to_word f.ei) (to_word p.fi) nargs val.nlocals p.heap p.stack)
                  (sym b.1) framed;
          }))

  pub exec_call-Entered :
      (ident : Ident)
      → get_elem? p.files p.fi ≡ some f
      → Gives (Entered block nargs p f) (exec_call block ident nargs p)
  unfolding exec_call
  exec_call-Entered ident e = rw (active_file-some p f e) (
      Gives-if (Entered block nargs p f) (ltb p.stack.sp nargs) _ _ tt (
        Gives-bind _ (Entered block nargs p f) (jump_to p (mk_key ident func)) _
          (jump_to-Moved p (mk_key ident func))
          (λ j a.
            Gives-bind _ (Entered block nargs p f) (arrive ident (λ p. p) p j) _
              (arrive-Moved p ident (λ p. p) p j a) (λ r b. built r.0 r.1 b))))

-- The program that `exec_ret` leaves, when the callee's stack is `u` and the caller's was `s`.
pub record BackAt (block ret_ei ret_fi nargs : ℕ) (h : Heap) (s u : Stack) (q : Program)
    : Type 0 where
  pub value : ℕ
  pub top : u.ops (u.sp - 1) ≡ some value
  pub restored : Restored
  pub returned : Returned block ret_ei ret_fi nargs value h s restored
  pub stack : q.stack ≡ restored.stack
  pub this : q.heap.this ≡ h.this
  pub that : q.heap.that ≡ h.that
  pub position : IsAt ret_fi ret_ei q

-- Without a word above the locals, `exec_ret` gives nothing back.
leave_frame-value :
    (block : ℕ) (u : Stack) → u.sp ≤ u.lcl + u.lcl_len → Gives (λ r. ⊥) (leave_frame block u)
unfolding leave_frame
leave_frame-value block u low =
    after (λ r. ⊥) (load_below (to_word u.lcl) 8 u) _
      (λ ret_ei.
        after (λ r. ⊥) (load_below (to_word u.lcl) 7 u) _
          (λ ret_fi. rw (pop_word-underflow block u low) tt))

module _ (block ret_ei ret_fi nargs nlocals : ℕ) (h : Heap) (s : Stack) (p : Program)
    (caller : IsValid block s) (fits : Fits s h) (enough : s.lcl + s.lcl_len + nargs ≤ s.sp)
    (keeps : Keeps block ret_ei ret_fi nargs nlocals h s p.stack) where
  going_back :
      (v : ℕ) (r : Restored)
      → p.stack.ops (p.stack.sp - 1) ≡ some v
      → Returned block ret_ei ret_fi nargs v h s r
      → Gives (BackAt block ret_ei ret_fi nargs h s p.stack) (
          set_ei r.ret_ei (record p {
            stack = r.stack;
            heap = record (p.heap) { this = r.this; that = r.that };
            fi = r.ret_fi;
          }))
  going_back v r top back =
      let q : Program = record p {
        stack = r.stack;
        heap = record (p.heap) { this = r.this; that = r.that };
        fi = r.ret_fi;
      } in
      Gives-both _ _ (BackAt block ret_ei ret_fi nargs h s p.stack) (set_ei r.ret_ei q)
        (set_ei-Moved r.ret_ei q) (set_ei-IsAt r.ret_ei q)
        (λ t a b. record {
          value = v;
          top = top;
          restored = r;
          returned = back;
          stack = a.1;
          this = ap (λ h. h.this) a.2 ∙ back.this;
          that = ap (λ h. h.that) a.2 ∙ back.that;
          position = record {
            fi_same = b.fi_same ∙ back.back_fi;
            file = b.file;
            active = b.active;
            at = b.at ∙ back.back_ei;
          };
        })

  -- With a word above the locals, it reports no error.
  pub exec_ret-Errless : p.stack.lcl + p.stack.lcl_len < p.stack.sp → Errless (exec_ret block p)
  unfolding exec_ret
  exec_ret-Errless value =
      let (v, r, top, run, back) =
        leave_frame-Returned block ret_ei ret_fi nargs nlocals h s p.stack caller fits enough keeps
          value in
      rw run (set_ei-Errless _ _)

  -- Without one, it reports the underflow and changes nothing.
  pub exec_ret-underflow :
      p.stack.sp ≤ p.stack.lcl + p.stack.lcl_len → exec_ret block p ≡ err stack_underflow p
  unfolding exec_ret leave_frame
  exec_ret-underflow low =
      let k = keeps in
      let frame : to_word p.stack.lcl ≡ s.sp + 8 = omega (arith, k.lcl, fits.sp) in
      let inside : s.sp + 8 ≤ p.stack.len = omega (arith, k.lcl, k.valid.base, k.valid.within) in
      rw
        (
          frame,
          load_below-some s.sp 8 0 ret_ei p.stack (omega arith) (omega arith)
              (k.saved 0 (omega arith)),
          load_below-some s.sp 7 1 ret_fi p.stack (omega arith) (omega arith)
              (k.saved 1 (omega arith)),
          pop_word-underflow block p.stack low,
        )
        refl

  pub exec_ret-BackAt : Gives (BackAt block ret_ei ret_fi nargs h s p.stack) (exec_ret block p)
  unfolding exec_ret
  exec_ret-BackAt = elim (dec_lt (p.stack.lcl + p.stack.lcl_len) p.stack.sp) [
    | yes value ↦
        let (v, r, top, run, back) =
          leave_frame-Returned block ret_ei ret_fi nargs nlocals h s p.stack caller fits enough
            keeps value in
        rw run (going_back v r top back)
    | no low ↦
        Gives-bind (λ r. ⊥) (BackAt block ret_ei ret_fi nargs h s p.stack) _ _
          (Gives-within (λ r. ⊥) (λ s. record p { stack = s }) (leave_frame block p.stack)
            (leave_frame-value block p.stack (omega arith)))
          (λ r a. absurd a)
  ]
