-- ===== src/Machine/Listed.antt =====
-- src/exec.c: no instruction changes the name, the symbols or the instructions of a file.
use hvme.Prelude.{ℕ, ◌≡◌, ◌∙◌, refl, ap, some, ltb, ◌==◌, to_word}
use hvme.Exec.{Run, ok, ◌>>=◌, within, Gives, Gives-bind, Gives-weaken, Gives-ok}
use hvme.Inst.{Ident, InstCode}
use hvme.Stack.{Stack, pop_word}
use hvme.Segments.{Banks, exec_pop, exec_push}
use hvme.Arith.{
  exec_add, exec_sub, exec_neg, exec_and, exec_or, exec_not, exec_eq, exec_lt, exec_gt,
}
use hvme.Table.{SymVal, label, func, mk_key}
use hvme.Builtins.{
  exec_builtin_print_char, exec_builtin_print_num, exec_builtin_print_str, exec_builtin_read_char,
  exec_builtin_read_num, exec_builtin_read_str,
}
use hvme.Builtins.Local.{SameFiles, Gives-if, after, builtins-SameFiles}
use hvme.Program.{File, Program, active_file, set_ei}
use hvme.Jump.{before, jump_to, arrive, unpop, exec_if_goto}
use hvme.Call.{enter_frame, leave_frame, exec_call, exec_ret}
use hvme.Machine.Rounds.{exec_step-Round}
use hvme.Machine.{with_stack, put_banks, with_banks, exec_inst, exec_step}
use hvme.Machine.Listing.{
  listings, SameListings, set-listings, Moved, active_file-Gives, set_ei-Moved, next_ei-Moved,
  jump_to-Moved, arrive-Moved, exec_goto-SameListings,
}

module _ (block : ℕ) (p : Program) where
  exec_if_goto-SameListings : (ident : Ident) → Gives (SameListings p) (exec_if_goto block ident p)
  unfolding exec_if_goto
  exec_if_goto-SameListings ident =
      after (SameListings p) (within (λ s. record p { stack = s }) (pop_word block p.stack)) _ (λ r.
        let q : Program = record p { stack = r.1 } in
        Gives-if (SameListings p) (r.0 == 0) _ _ refl (
          Gives-bind _ (SameListings p) (jump_to q (mk_key ident label)) _
            (jump_to-Moved q (mk_key ident label))
            (λ j a.
              Gives-bind _ (SameListings p) (arrive ident unpop q j) _
                (arrive-Moved q ident unpop q j a) (λ r b. b.0))))

  exec_call-SameListings :
      (ident : Ident) (nargs : ℕ) → Gives (SameListings p) (exec_call block ident nargs p)
  unfolding exec_call
  exec_call-SameListings ident nargs = after (SameListings p) (active_file p) _ (λ f.
      Gives-if (SameListings p) (ltb p.stack.sp nargs) _ _ tt (
        Gives-bind _ (SameListings p) (jump_to p (mk_key ident func)) _
          (jump_to-Moved p (mk_key ident func))
          (λ j a.
            Gives-bind _ (SameListings p) (arrive ident (λ p. p) p j) _
              (arrive-Moved p ident (λ p. p) p j a) (λ r b. built f nargs r.0 r.1 b))))
    where
      built :
          (f : File) (nargs : ℕ) (val : SymVal) (q : Program)
          → Moved p q
          → Gives (SameListings p) (
              within
                (λ s. record q { stack = s })
                (enter_frame block (to_word f.ei) (to_word p.fi) nargs val.nlocals q.heap q.stack)
              >>= λ s. set_ei (before val.inst_addr) (record q { stack = s }))
      built f nargs val q a =
          after (SameListings p)
            (within (λ s. record q { stack = s })
              (enter_frame block (to_word f.ei) (to_word p.fi) nargs val.nlocals q.heap q.stack))
            _
            (λ s.
              Gives-weaken _ (SameListings p)
                (set_ei (before val.inst_addr) (record q { stack = s }))
                (set_ei-Moved _ (record q { stack = s })) (λ r b. b.0 ∙ a.0))

  exec_ret-SameListings : Gives (SameListings p) (exec_ret block p)
  unfolding exec_ret
  exec_ret-SameListings =
      after (SameListings p) (within (λ s. record p { stack = s }) (leave_frame block p.stack)) _
        (λ r.
          Gives-weaken _ (SameListings p) _
            (set_ei-Moved r.ret_ei (record p {
              stack = r.stack;
              heap = record (p.heap) { this = r.this; that = r.that };
              fi = r.ret_fi;
            }))
            (λ q b. b.0))

  with_stack-SameListings : (f : Stack → Run Stack Stack) → Gives (SameListings p) (with_stack f p)
  unfolding with_stack
  with_stack-SameListings f =
      after (SameListings p) (within (λ s. record p { stack = s }) (f p.stack)) _ (λ s. refl)

  with_banks-SameListings : (g : Banks → Run Banks Banks) → Gives (SameListings p) (with_banks g p)
  unfolding with_banks put_banks
  with_banks-SameListings g =
      Gives-bind _ (SameListings p) (active_file p) _ (active_file-Gives p) (λ f e.
        after (SameListings p)
          (within (put_banks p f) (g (record { stack = p.stack; heap = p.heap; mem = f.mem }))) _
          (λ b. set-listings p.files p.fi f _ e refl))

  builtin : (m : Run Program Program) → Gives (SameFiles p) m → Gives (SameListings p) m
  builtin m a = Gives-weaken _ (SameListings p) m a (λ q b. ap listings b.0)

  pub exec_inst-SameListings : (code : InstCode) → Gives (SameListings p) (exec_inst block code p)
  unfolding exec_inst
  exec_inst-SameListings (InstCode.pop seg offset) =
      with_banks-SameListings (exec_pop block seg offset)
  exec_inst-SameListings (InstCode.push seg offset) =
      with_banks-SameListings (exec_push block seg offset)
  exec_inst-SameListings InstCode.add = with_stack-SameListings (exec_add block)
  exec_inst-SameListings InstCode.sub = with_stack-SameListings (exec_sub block)
  exec_inst-SameListings InstCode.neg = with_stack-SameListings (exec_neg block)
  exec_inst-SameListings InstCode.and = with_stack-SameListings (exec_and block)
  exec_inst-SameListings InstCode.or = with_stack-SameListings (exec_or block)
  exec_inst-SameListings InstCode.not = with_stack-SameListings (exec_not block)
  exec_inst-SameListings InstCode.eq = with_stack-SameListings (exec_eq block)
  exec_inst-SameListings InstCode.lt = with_stack-SameListings (exec_lt block)
  exec_inst-SameListings InstCode.gt = with_stack-SameListings (exec_gt block)
  exec_inst-SameListings (InstCode.goto ident) = exec_goto-SameListings p ident
  exec_inst-SameListings (InstCode.if_goto ident) = exec_if_goto-SameListings ident
  exec_inst-SameListings (InstCode.call ident nargs) = exec_call-SameListings ident nargs
  exec_inst-SameListings InstCode.ret = exec_ret-SameListings
  exec_inst-SameListings InstCode.builtin_print_char =
      builtin (exec_builtin_print_char block p) (builtins-SameFiles block p).0
  exec_inst-SameListings InstCode.builtin_print_num =
      builtin (exec_builtin_print_num block p) (builtins-SameFiles block p).1
  exec_inst-SameListings InstCode.builtin_print_str =
      builtin (exec_builtin_print_str block p) (builtins-SameFiles block p).2
  exec_inst-SameListings InstCode.builtin_read_char =
      builtin (exec_builtin_read_char block p) (builtins-SameFiles block p).3
  exec_inst-SameListings InstCode.builtin_read_num =
      builtin (exec_builtin_read_num block p) (builtins-SameFiles block p).4
  exec_inst-SameListings InstCode.builtin_read_str =
      builtin (exec_builtin_read_str block p) (builtins-SameFiles block p).5
  exec_inst-SameListings InstCode.ic_none = tt

  pub exec_step-SameListings : (q : Program) → exec_step block p ≡ ok (some q) → SameListings p q
  exec_step-SameListings q run =
      let r = exec_step-Round block p q run in
      let a = Gives-ok (SameListings p) r.execs (exec_inst-SameListings r.inst.code) in
      let b = Gives-ok (Moved r.after) r.counts (next_ei-Moved r.after) in b.0 ∙ a
