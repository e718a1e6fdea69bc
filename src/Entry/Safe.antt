-- ===== src/Entry/Safe.antt =====
-- src/hvme.c: a run of the command, from the names of the files to the returned status.
use hvme.Prelude.{
  ℕ, ◌<◌, ◌≡◌, ◌⊎◌, inl, inr, refl, Option, none, some, List, leb, length, drop, arith, false, [],
}
use hvme.Exec.{Run, ok, err, Ends}
use hvme.Inst.{Ident}
use hvme.Console.{Io}
use hvme.Program.{Program}
use hvme.Builtins.Strings.{AllBytes}
use hvme.Machine.{exec_prog}
use hvme.Machine.Steps.{StaysCareful, Finishes, exec_prog-Finishes}
use hvme.Assembly.{Sizes, make_prog}
use hvme.Assembly.Wide.{make_prog-IsSound}
use hvme.Entry.{Ret, exec_err, Ended, finish, execute, run_hvme}

-- The status of a run that has started to execute a program.
abbrev pub HasRun : Option Ended → Type 0
HasRun none = Unit
HasRun (some m) = Ends (λ r. (r.0 ≡ Ret.zero) ⊎ (r.0 ≡ exec_err)) m

finish-HasRun :
    (block : ℕ) (p : Program) (r : Run Program Program)
    → Finishes block p (some r)
    → HasRun (some (finish r))
unfolding finish
finish-HasRun block p (ok q) a = inl refl
finish-HasRun block p (err e q) a = inr refl
finish-HasRun block p (Run.fault u) a = absurd a

exec_prog-HasRun :
    (block : ℕ) (p : Program) (o : Option (Run Program Program))
    → Finishes block p o
    → HasRun (elim o [ none ↦ none | some r ↦ some (finish r) ])
exec_prog-HasRun block p none a = tt
exec_prog-HasRun block p (some r) a = finish-HasRun block p r a

module _ {Fd : Type 0} (read : Fd → ℕ → Option (List ℕ × Fd)) (open_file : List ℕ → Option Fd)
    (z : Sizes) (exec_fuel : ℕ) where
  -- If `make_prog` makes a program of the named files, with bytes in the standard input and blocks
  -- of the operand stack that are not empty, and every instruction that the program executes is
  -- careful, then `run_hvme` never runs into undefined behaviour: unless the fuel runs out, it
  -- returns the status 0 or `EXEC_ERR`.
  pub run_hvme-HasRun :
      (argv : List Ident) (io : Io) (p : Program)
      → 0 < z.stack_block
      → AllBytes io.stdin
      → 1 < length argv
      → make_prog read open_file z (drop 1 argv) io ≡ some (ok (some p))
      → StaysCareful z.stack_block p
      → HasRun (run_hvme read open_file z exec_fuel argv io)
  unfolding run_hvme execute
  run_hvme-HasRun argv io p h b files run careful =
      let sound = make_prog-IsSound read open_file z (drop 1 argv) io p h b run in
      let named : leb (length argv) 1 ≡ false = ground arith in
      rw (named, run)
        (exec_prog-HasRun z.stack_block p (exec_prog exec_fuel z.stack_block p)
          (exec_prog-Finishes z.stack_block [] p sound careful exec_fuel))
