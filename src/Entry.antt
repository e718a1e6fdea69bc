-- ===== src/Entry.antt =====
-- src/hvme.c, src/main.c: a run of the command on its arguments.
pub mod Safe
use hvme.Prelude.{ℕ, Option, none, some, List, leb, length, drop, if◌then◌else◌}
use hvme.Exec.{Run, ok, err, fault}
use hvme.Inst.{Ident}
use hvme.Console.{Io, clean_stdout}
use hvme.Program.{Program}
use hvme.Machine.{exec_prog}
use hvme.Scan.{Statics}
use hvme.Assembly.{Sizes, make_prog}

-- The values that `run_hvme` returns: 0, 1 and `EXEC_ERR`, which is -1.
pub data Ret : Type 0 where
  zero one exec_err : Ret

-- The status, and the streams at the end.
abbrev pub Ended : Type 0
Ended = Run Statics (Ret × Io)

-- After `exec_prog`.
pub finish : Run Program Program → Ended
unfolding clean_stdout
finish (ok p) = ok (zero, clean_stdout p.io)
finish (err e p) = ok (exec_err, p.io)
finish (fault u) = fault u

-- After `make_prog`. `exec_fuel` is for the rounds of `exec_prog`.
pub execute : ℕ → Sizes → Io → Run Statics (Option Program) → Option Ended
unfolding finish exec_prog
execute exec_fuel z io (err e v) = some (err e v)
execute exec_fuel z io (fault u) = some (fault u)
execute exec_fuel z io (ok none) = some (ok (one, io))
execute exec_fuel z io (ok (some p)) = elim (exec_prog exec_fuel z.stack_block p) [
  | none ↦ none
  | some r ↦ some (finish r)
]

module _ {Fd : Type 0} (read : Fd → ℕ → Option (List ℕ × Fd)) (open_file : List ℕ → Option Fd)
    (z : Sizes) (exec_fuel : ℕ) where
  -- `argv` starts with the name of the command.
  unfoldable pub run_hvme : List Ident → Io → Option Ended
  unfolding execute make_prog clean_stdout
  run_hvme argv io =
      let run : Option Ended = elim (make_prog read open_file z (drop 1 argv) io) [
        | none ↦ none
        | some r ↦ execute exec_fuel z io r
      ] in
      if leb (length argv) 1 then some (ok (one, clean_stdout io)) else run
