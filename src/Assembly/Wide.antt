-- ===== src/Assembly/Wide.antt =====
-- src/prog.c: a program that has been put together satisfies the invariant of a running program.
use hvme.Prelude.{ℕ, ◌<◌, ◌≡◌, refl, subst, Option, none, some, List, [], ◌∷◌, arith}
use hvme.Exec.{Run, ok, err, fault, Gives}
use hvme.Inst.{Ident, Inst}
use hvme.Stack.Valid.{new_stack-IsValid}
use hvme.Stack.{new_stack}
use hvme.Heap.{new_heap}
use hvme.Console.{Io}
use hvme.Table.{SymbolTable, new_st}
use hvme.Builtins.Strings.{AllBytes}
use hvme.Program.{File, Program}
use hvme.Parse.{Parsed, parsed, parse_err, parse_fault, parse}
use hvme.Scan.{Statics}
use hvme.Scan.File.{Scanned, scan_err, scan_ok, scan_fault, scan}
use hvme.Message.{file_ext}
use hvme.System.Wide.{HasWideMemory, new_mem-WideMemory, init_system_file-mem}
use hvme.System.{init_system_file}
use hvme.Machine.Sound.{WideFiles, IsSound}
use hvme.Assembly.{
  Sizes, Processed, Files, new_file, parse_file, with_file, after_file, new_prog, new_statics,
  proc_file, proc_files, make_prog,
}

-- A file that is read starts with cleared memory.
abbrev FileWide : Option Processed → Type 0
FileWide (some (ok (some (f, v)))) = HasWideMemory f
FileWide _ = Unit

new_file-FileWide :
    (fn : Ident) (r : Parsed (List Inst × SymbolTable)) (v : Statics)
    → FileWide (some (new_file fn r v))
new_file-FileWide fn (parsed (insts, st)) v = new_mem-WideMemory
new_file-FileWide fn parse_err v = tt
new_file-FileWide fn (parse_fault u) v = tt

parse_file-FileWide :
    (st_block : ℕ) (fn : Ident) (s : Scanned) → FileWide (parse_file st_block fn s)
unfolding parse_file
parse_file-FileWide st_block fn (scan_err v) = tt
parse_file-FileWide st_block fn (scan_fault u) = tt
parse_file-FileWide st_block fn (scan_ok pos o) = goes (parse st_block o.cells [] (new_st st_block))
  where
    goes :
        (p : Option (Parsed (List Inst × SymbolTable)))
        → FileWide (elim p [ none ↦ none | some r ↦ some (new_file fn r o.vars) ])
    goes none = tt
    goes (some r) = new_file-FileWide fn r o.vars

abbrev AllWide : Option Files → Type 0
AllWide (some (ok (some fs))) = WideFiles fs
AllWide _ = Unit

after_file-AllWide :
    (o : Option Processed) (next : Statics → Option Files)
    → FileWide o
    → ((v : Statics) → AllWide (next v))
    → AllWide (after_file o next)
after_file-AllWide none next h k = tt
after_file-AllWide (some (err e v)) next h k = tt
after_file-AllWide (some (Run.fault u)) next h k = tt
after_file-AllWide (some (ok none)) next h k = tt
after_file-AllWide (some (ok (some (f, v)))) next h k = goes (next v) (k v)
  where
    goes :
        (o : Option Files)
        → AllWide o
        → AllWide (elim o [ none ↦ none | some r ↦ some (with_file f r) ])
    goes none a = tt
    goes (some (ok none)) a = tt
    goes (some (ok (some fs))) a = (h, a)
    goes (some (err e w)) a = tt
    goes (some (Run.fault u)) a = tt

module _ {Fd : Type 0} (read : Fd → ℕ → Option (List ℕ × Fd)) (open_file : List ℕ → Option Fd)
    (z : Sizes) where
  proc_file-FileWide : (fn : Ident) (v : Statics) → FileWide (proc_file read open_file z fn v)
  unfolding proc_file
  proc_file-FileWide fn v = goes (scan read z.fuel z.scan_block open_file fn v)
    where
      goes :
          (o : Option Scanned)
          → FileWide (elim o [ none ↦ none | some r ↦ parse_file z.st_block fn r ])
      goes none = tt
      goes (some r) = parse_file-FileWide z.st_block fn r

  proc_files-AllWide :
      (fns : List Ident) (v : Statics) → AllWide (proc_files read open_file z fns v)
  unfolding proc_files
  proc_files-AllWide [] v = tt
  proc_files-AllWide (fn ∷ fns) v = goes (file_ext {S = Statics} fn) (proc_files-AllWide fns)
    where
      goes :
          (m : Run Statics (List ℕ))
          → ((w : Statics) → AllWide (proc_files read open_file z fns w))
          → AllWide (elim m [
            | fault u ↦ some (fault u)
            | err e w ↦ some (err e w)
            | ok compare ↦
                after_file
                  (proc_file read open_file z fn v)
                  (λ w. proc_files read open_file z fns w)
          ])
      goes (ok compare) k = after_file-AllWide _ _ (proc_file-FileWide fn v) k
      goes (err e w) k = tt
      goes (Run.fault u) k = tt

  pub new_prog-IsSound :
      (sys : File) (fs : List File) (io : Io)
      → 0 < z.stack_block
      → AllBytes io.stdin
      → HasWideMemory sys
      → WideFiles fs
      → IsSound z.stack_block [] (record {
        files = sys ∷ fs;
        fi = 0;
        heap = new_heap;
        stack = new_stack z.stack_block;
        io = io;
      })
  unfolding new_heap new_stack
  new_prog-IsSound sys fs io h b a w = record {
    valid = new_stack-IsValid z.stack_block h;
    chain = (refl, refl, refl, refl);
    wide = record {
      running = omega arith;
      memory = (a, w);
      heap = record { words = λ i. omega arith; this = omega arith; that = omega arith };
      bytes = b;
    };
  }

  -- Every program that `make_prog` puts together, with blocks of the operand stack that are not
  -- empty and bytes in the standard input, satisfies the invariant of a running program, outside of
  -- every call.
  pub make_prog-IsSound :
      (fns : List Ident) (io : Io) (p : Program)
      → 0 < z.stack_block
      → AllBytes io.stdin
      → make_prog read open_file z fns io ≡ some (ok (some p))
      → IsSound z.stack_block [] p
  unfolding make_prog
  make_prog-IsSound fns io p h b e =
      with_system (init_system_file z.st_block) (init_system_file-mem z.st_block) e
    where
      -- The program that is made of a list of files.
      made :
          (sys : File) (r : Files)
          → HasWideMemory sys
          → AllWide (some r)
          → new_prog z io sys r ≡ ok (some p)
          → IsSound z.stack_block [] p
      made sys (ok none) a w run = cc
      made sys (ok (some fs)) a w run =
          let q : Program = record {
            files = sys ∷ fs;
            fi = 0;
            heap = new_heap;
            stack = new_stack z.stack_block;
            io = io;
          } in
          let same : q ≡ p = cc in
          subst (IsSound z.stack_block []) same (new_prog-IsSound sys fs io h b a w)
      made sys (err x v) a w run = cc
      made sys (Run.fault u) a w run = cc

      with_files :
          (sys : File) (o : Option Files)
          → HasWideMemory sys
          → AllWide o
          → elim o [ none ↦ none | some r ↦ some (new_prog z io sys r) ] ≡ some (ok (some p))
          → IsSound z.stack_block [] p
      with_files sys none a w run = cc
      with_files sys (some r) a w run = made sys r a w cc

      with_system :
          (m : Run File File)
          → Gives HasWideMemory m
          → elim m [
            | err e f ↦ some (err e new_statics)
            | fault u ↦ some (fault u)
            | ok sys ↦ elim (proc_files read open_file z fns new_statics) [
              | none ↦ none
              | some r ↦ some (new_prog z io sys r)
            ]
          ]
            ≡ some (ok (some p))
          → IsSound z.stack_block [] p
      with_system (ok sys) a run =
          with_files sys (proc_files read open_file z fns new_statics) a
            (proc_files-AllWide fns new_statics) run
      with_system (err x f) a run = cc
      with_system (Run.fault u) a run = cc
