-- ===== src/Tests.antt =====
-- Runs of small programs.
mod Stacks
mod Calls
mod Tables
mod Texts
mod Jumps
mod Scans
mod Machines
mod Returns
mod Messages
use hvme.Prelude.{ℕ, Option, some, List, [], ◌∷◌}
use hvme.Exec.{Run, ok, err, fault, ◌>>=◌}
use hvme.Inst.{InstCode}
use hvme.Heap.{new_heap}
use hvme.Stack.{new_stack}
use hvme.Program.{File, Program}
use hvme.Text.{codes}
use hvme.System.{enter_builtin, add_all, empty_file, init_system_file, push_constant}
use hvme.Machine.{exec_prog}

abbrev user_file : Run File File
user_file =
    enter_builtin 4 (codes "Sys.init") 0 (record (empty_file 4) { filename = codes "a.vm" })
    >>= λ f. ok (
        add_all
          (push_constant 40
            ∷ push_constant 2
            ∷ InstCode.add
            ∷ InstCode.call (codes "Sys.print_num") 1
            ∷ InstCode.ret
            ∷ [])
          f)

abbrev program : Run File Program
program = do
  s ← init_system_file 4
  u ← user_file
  ok (record {
    files = s ∷ u ∷ [];
    fi = 0;
    heap = new_heap;
    stack = new_stack 2;
    io = record { stdin = []; stdout = []; last_stdout = 0 };
  })

printed : Option (Run Program Program) → List ℕ
printed (some (ok p)) = p.io.stdout
printed _ = []

result : List ℕ
unfolding printed exec_prog
result = elim program [ ok p ↦ printed (exec_prog 40 2 p) | err e f ↦ [] | fault u ↦ [] ]
