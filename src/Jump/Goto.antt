-- ===== src/Jump/Goto.antt =====
-- src/exec.c: `goto` to a label of another file.
use hvme.Prelude.{
  ℕ, ◌≤◌, ◌≡◌, ◌∙◌, refl, true, false, inl, inr, none, some, ◌==◌, arith, ◌≢◌, ◌⊎◌, get_elem?,
  dec_lt, set,
}
use hvme.Exec.{Run, ok, err, ◌>>=◌, ctrl_flow, mult_def}
use hvme.Inst.{Ident}
use hvme.Table.{SymKey, SymVal, get_st, label, mk_key, mk_lbval}
use hvme.Program.{File, Program, active_file, set_ei}
use hvme.Jump.Search.{Counted, count_defs, find_defs-Counted}
use hvme.Jump.{Defs, find_defs, jump_by, jump_to, exec_goto, before, arrive}

-- The program `q` stands before the symbol's address in the one other file that defines it.
pub record Reached (key : SymKey) (p q : Program) : Type 0 where
  pub file : File
  pub val : SymVal
  pub there : get_elem? p.files q.fi ≡ some file
  pub defines : get_st file.st key ≡ some val
  pub other : p.fi ≢ q.fi
  pub files : q.files ≡ set p.files q.fi (record file { ei = before val.inst_addr })
  pub stack : q.stack ≡ p.stack
  pub heap : q.heap ≡ p.heap
  pub io : q.io ≡ p.io

-- A call that is known to succeed, and what follows it.
ok_then :
    {A B : Type 0} {m : Run Program A} {a : A} (g : A → Run Program B) → m ≡ ok a → (m >>= g) ≡ g a
ok_then g e = rw e refl

active_file-there :
    (q : Program) (f : File) → get_elem? q.files q.fi ≡ some f → active_file q ≡ ok f
unfolding active_file
active_file-there q f h = rw (active_file, h) refl

set_ei-there :
    (ei : ℕ) (q : Program) (f : File)
    → get_elem? q.files q.fi ≡ some f
    → set_ei ei q ≡ ok (record q { files = set q.files q.fi (record f { ei = ei }) })
unfolding set_ei
set_ei-there ei q f h = ok_then _ (active_file-there q f h)

jump_to-missing :
    (p : Program) (key : SymKey) (f : File)
    → active_file p ≡ ok f
    → get_st f.st key ≡ none
    → jump_to p key
      ≡ jump_by
          (find_defs key p.fi 0 p.files (record { ndefs = 0; next_fi = 0; val = mk_lbval 0 }))
          p
unfolding jump_to
jump_to-missing p key f here missing = ok_then _ here ∙ rw missing refl

module _ (ident : Ident) (p : Program) where
  -- What `goto` does when the active file does not define the label.
  abbrev pub GotoOutcome : ℕ → Run Program Program → Type 0
  GotoOutcome n run =
      ((n ≡ 0) × (run ≡ err (ctrl_flow ident) p))
      ⊎ ((n ≡ 1) × ((q : Program) × (run ≡ ok q) × Reached (mk_key ident label) p q))
      ⊎ ((2 ≤ n) × (run ≡ err (mult_def ident) p))

  by_defs :
      (n : ℕ) (e : Defs)
      → Counted
          (mk_key ident label)
          p.fi
          0
          p.files
          (record { ndefs = 0; next_fi = 0; val = mk_lbval 0 })
          e
          n
      → GotoOutcome n (jump_by e p >>= λ j. arrive ident (λ p. p) p j >>= λ r. ok r.1)
  unfolding jump_by
  by_defs n e c = elim (dec_lt 1 n) [
    | yes h ↦
        let two = c.many (omega arith) in
        let a : (e.ndefs == 0) ≡ false = ground arith in
        let b : (e.ndefs == 1) ≡ false = ground arith in inr (inr (omega arith, rw (a, b) refl))
    | no h ↦ elim (dec_lt 0 n) [
      | no z ↦
          let none_found = c.exact (omega arith) in
          let a : (e.ndefs == 0) ≡ true = ground arith in inl (omega arith, rw a refl)
      | yes one ↦
          let found = c.exact (omega arith) in
          let a : (e.ndefs == 0) ≡ false = ground arith in
          let b : (e.ndefs == 1) ≡ true = ground arith in
          let it = c.noted refl (omega arith) in
          let at : it.offset ≡ e.next_fi = omega (arith, it.next) in
          let there : get_elem? p.files e.next_fi ≡ some it.file = rw (← at) it.there in
          inr (
            inl (
              omega arith,
              (
                record p {
                  fi = e.next_fi;
                  files = set p.files e.next_fi (record (it.file) { ei = before e.val.inst_addr });
                },
                rw
                    (
                      a,
                      b,
                      set_ei-there (before e.val.inst_addr) (record p { fi = e.next_fi }) it.file
                          there,
                    )
                    refl,
                record {
                  file = it.file;
                  val = e.val;
                  there = there;
                  defines = it.defines;
                  other = λ q. it.other (omega arith);
                  files = refl;
                  stack = refl;
                  heap = refl;
                  io = refl;
                },
              ),
            ))
    ]
  ]

  -- `goto` to a label that the active file does not define: if no other file defines it, it stops
  -- with the control flow error; if one does, it goes there, before the label's address in that
  -- file, and leaves the stack, the heap and the streams as they are; if several do, it stops with
  -- the error of multiple definitions.
  pub exec_goto_cases :
      (f : File)
      → active_file p ≡ ok f
      → get_st f.st (mk_key ident label) ≡ none
      → GotoOutcome (count_defs (mk_key ident label) p.fi 0 p.files) (exec_goto ident p)
  unfolding exec_goto
  exec_goto_cases f here missing =
      rw (jump_to-missing p (mk_key ident label) f here missing)
        (by_defs _ _ (find_defs-Counted (mk_key ident label) p.fi 0 p.files _ (omega arith)))
