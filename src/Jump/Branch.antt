-- ===== src/Jump/Branch.antt =====
-- src/exec.c: `if-goto` is `goto` after a test.
use hvme.Prelude.{ℕ, ◌+◌, ◌≤◌, ◌≡◌, ◌≢◌, none, some, Option, get_elem?}
use hvme.Exec.{Run, ok, err, fault, out_of_bounds, stack_underflow, Errless, Errless-bind}
use hvme.Inst.{Ident}
use hvme.Stack.{Stack}
use hvme.Stack.Valid.{Popped}
use hvme.Program.{File, Program, active_file, set_ei}
use hvme.Jump.{Jump, exec_goto, unpop}

-- No jump reports an error by itself.
pub active_file-Errless : (p : Program) → Errless (active_file p)
unfolding active_file
active_file-Errless p = goes (get_elem? p.files p.fi)
  where
    goes :
        (o : Option File)
        → Errless {S = Program} (elim o [ none ↦ fault out_of_bounds | some f ↦ ok f ])
    goes none = tt
    goes (some f) = tt

pub set_ei-Errless : (ei : ℕ) (p : Program) → Errless (set_ei ei p)
unfolding set_ei
set_ei-Errless ei p = Errless-bind (active_file p) _ (active_file-Errless p) (λ f. tt)

-- A run that changes the state once more when it reports an error.
abbrev pub on_err : (Program → Program) → Run Program Program → Run Program Program
on_err undo (ok q) = ok q
on_err undo (err e q) = err e (undo q)
on_err undo (fault u) = fault u

-- How `if-goto` ends.
pub data Branches (block : ℕ) (ident : Ident) (p : Program) (run : Run Program Program)
    : Type 0 where
  empty :
      p.stack.sp ≤ p.stack.lcl + p.stack.lcl_len
      → run ≡ err stack_underflow p
      → Branches block ident p run
  falls :
      (t : Stack)
      → Popped block 0 p.stack t
      → run ≡ ok (record p { stack = t })
      → Branches block ident p run
  jumps :
      (v : ℕ) (t : Stack)
      → v ≢ 0
      → Popped block v p.stack t
      → run ≡ on_err unpop (exec_goto ident (record p { stack = t }))
      → Branches block ident p run
