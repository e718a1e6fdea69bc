-- ===== src/Machine/Jumps.antt =====
-- src/exec.c: the instructions that jump keep the invariant of the program.
use hvme.Prelude.{ℕ, ◌<◌, ◌≡◌, refl, ◌==◌, if◌then◌else◌, length, arith, ap, sym, ◌∙◌}
use hvme.Exec.{ok, ◌>>=◌, within, Ends, Ends-bind, Ends-if, Ends-within, Ends-option}
use hvme.Inst.{Ident}
use hvme.Stack.{Stack, pop_word}
use hvme.Stack.Valid.{IsValid}
use hvme.Stack.Confined.{PopConfined, pop_word-Ends}
use hvme.Table.{SymKey, SymVal, label, mk_key, mk_lbval, get_st}
use hvme.Program.{Program, active_file, set_ei}
use hvme.Jump.Search.{find_defs-Counted}
use hvme.Jump.{
  before, Defs, find_defs, Jump, jmp_ok, jmp_err, jmp_mult_def, jump_to, arrive, exec_goto, unpop,
  exec_if_goto,
}
use hvme.Machine.Sound.{WideProgram, Quiet, Quiet-refl, Quiet-trans, get_elem?-some}
use hvme.Machine.Lifted.{active_file-Ends, set_ei-Ends}

-- The file that the loop has noted is one of the program's.
find_defs-lt :
    (key : SymKey) (p : Program) (d e : Defs)
    → d ≡ record { ndefs = 0; next_fi = 0; val = mk_lbval 0 }
    → e ≡ find_defs key p.fi 0 p.files d
    → e.ndefs ≡ 1
    → e.next_fi < length p.files
find_defs-lt key p d e start end one =
    let zero : d.ndefs ≡ 0 = ap (λ d. d.ndefs) start in
    let n =
      (find_defs-Counted key p.fi 0 p.files d (omega arith)).noted zero
        (ap (λ e. e.ndefs) (sym end) ∙ one) in
    let at : e.next_fi ≡ n.offset = ap (λ e. e.next_fi) end ∙ n.next ∙ omega arith in
    rw at (get_elem?-some p.files n.offset n.file n.there)

-- A jump leaves the stack as it is.
abbrev pub Jumped : ℕ → Program → Program → Type 0
Jumped block p q = Quiet block p q × (q.stack ≡ p.stack)

abbrev pub JumpEnds : ℕ → Program → Jump → Type 0
JumpEnds block p (jmp_ok v q) = Jumped block p q
JumpEnds block p jmp_err = Unit
JumpEnds block p jmp_mult_def = Unit

module _ (block : ℕ) (p : Program) (w : IsValid block p.stack) (h : WideProgram p) where
  moved : (ei : ℕ) (v : SymVal) → Ends (JumpEnds block p) (set_ei ei p >>= λ q. ok (jmp_ok v q))
  moved ei v = Ends-bind _ _ (set_ei ei p) _ (set_ei-Ends block ei p w h) (λ q a. a)

-- The active file may change first.
module _ (block : ℕ) (p : Program) (w : IsValid block p.stack) (h : WideProgram p) where
  moved_file :
      (ei fi : ℕ) (v : SymVal)
      → fi < length p.files
      → Ends (JumpEnds block p) (set_ei ei (record p { fi = fi }) >>= λ q. ok (jmp_ok v q))
  moved_file ei fi v inside =
      let there : WideProgram (record p { fi = fi }) = record {
        running = inside;
        memory = h.memory;
        heap = h.heap;
        bytes = h.bytes;
      } in
      Ends-bind _ _ (set_ei ei (record p { fi = fi })) _
        (set_ei-Ends block ei (record p { fi = fi }) w there)
        (λ q a. (record { stack = a.0.stack; nfiles = a.0.nfiles; wide = a.0.wide }, a.1))

  found :
      (d : Defs)
      → (d.ndefs ≡ 1 → d.next_fi < length p.files)
      → Ends (JumpEnds block p) (
          if d.ndefs == 0
          then ok jmp_err
          else if d.ndefs == 1
          then (set_ei (before d.val.inst_addr) (record p { fi = d.next_fi }) >>= λ q.
              ok (jmp_ok d.val q))
          else ok jmp_mult_def)
  found d inside =
      Ends-if (JumpEnds block p) (d.ndefs == 0) _ _ (λ _. tt)
        (λ some.
          Ends-if (JumpEnds block p) (d.ndefs == 1) _ _
            (λ one. moved_file _ _ _ (inside (ground arith))) (λ _. tt))

  pub jump_to-Ends : (key : SymKey) → Ends (JumpEnds block p) (jump_to p key)
  unfolding jump_to
  jump_to-Ends key = Ends-bind _ _ (active_file p) _ (active_file-Ends p h) (λ f a.
      Ends-option (JumpEnds block p) (get_st f.st key) _ _
        (λ e. found _ (find_defs-lt key p _ _ refl refl))
        (λ v e. moved block p w h (before v.inst_addr) v))

  -- The position is the label's, or there is an error.
  arriving :
      (ident : Ident) (undo : Program → Program) (q : Program)
      → Quiet block q p
      → (j : Jump) → JumpEnds block p j
      → Ends (Quiet block q) (arrive ident undo p j >>= λ r. ok r.1)
  arriving ident undo q quiet (jmp_ok v r) a = Quiet-trans quiet a.0
  arriving ident undo q quiet jmp_err a = tt
  arriving ident undo q quiet jmp_mult_def a = tt

  pub exec_goto-Ends : (ident : Ident) → Ends (Quiet block p) (exec_goto ident p)
  unfolding exec_goto
  exec_goto-Ends ident =
      Ends-bind _ _ (jump_to p (mk_key ident label)) _ (jump_to-Ends (mk_key ident label))
        (arriving ident (λ p. p) p (Quiet-refl w h))

module _ (block : ℕ) (p : Program) (w : IsValid block p.stack) (h : WideProgram p) where
  -- The condition has been popped.
  tested :
      (ident : Ident) (r : ℕ × Stack)
      → PopConfined block p.stack r
      → Ends (Quiet block p) (
          if r.0 == 0 then ok (record p { stack = r.1 }) else (do
            j ← jump_to (record p { stack = r.1 }) (mk_key ident label)
            (_, q) ← arrive ident unpop (record p { stack = r.1 }) j
            ok q))
  tested ident r c =
      let wide : WideProgram (record p { stack = r.1 }) = record {
        running = h.running;
        memory = h.memory;
        heap = h.heap;
        bytes = h.bytes;
      } in
      let quiet : Quiet block p (record p { stack = r.1 }) = record {
        stack = c.confined;
        nfiles = refl;
        wide = wide;
      } in
      Ends-if (Quiet block p) (r.0 == 0) _ _ (λ _. quiet)
        (λ _.
          Ends-bind _ _ (jump_to (record p { stack = r.1 }) (mk_key ident label)) _
            (jump_to-Ends block (record p { stack = r.1 }) c.confined.valid wide _)
            (arriving block (record p { stack = r.1 }) c.confined.valid wide ident unpop p quiet))

  pub exec_if_goto-Ends : (ident : Ident) → Ends (Quiet block p) (exec_if_goto block ident p)
  unfolding exec_if_goto
  exec_if_goto-Ends ident =
      Ends-bind (PopConfined block p.stack) (Quiet block p)
        (within (λ s. record p { stack = s }) (pop_word block p.stack)) _
        (Ends-within _ _ (pop_word block p.stack) (pop_word-Ends block p.stack w)) (tested ident)
