-- ===== src/Assembly.antt =====
-- src/prog.c: a program is put together from source files. The parameters `read` and `open_file`
-- are the C library's. Freeing memory is not modelled; the texts of warnings are in Message.
pub mod Files
pub mod Wide
use hvme.Prelude.{
  false, ℕ, zero, suc, ◌-◌, Option, none, some, List, [], ◌∷◌, ◌++◌, ltb, if◌then◌else◌, length,
}
use hvme.Exec.{Run, ok, err, fault, out_of_bounds}
use hvme.Inst.{Ident, Inst}
use hvme.Stack.{new_stack}
use hvme.Heap.{new_heap, new_mem}
use hvme.Table.{SymbolTable, new_st}
use hvme.Console.{Io}
use hvme.Program.{File, Program}
use hvme.Parse.{Parsed, parsed, parse_err, parse_fault, parse}
use hvme.Scan.{Statics}
use hvme.Scan.File.{Scanned, scan_err, scan_ok, scan_fault, scan}
use hvme.Message.{file_ext}
use hvme.System.{init_system_file}

-- The sizes of blocks, and the fuel for the rounds of `scan`.
pub record Sizes : Type 0 where
  pub fuel : ℕ
  pub scan_block : ℕ
  pub st_block : ℕ
  pub stack_block : ℕ

-- `none` is `PROC_ERR`; the static variables of the scanner are kept from file to file.
abbrev pub Processed : Type 0
Processed = Run Statics (Option (File × Statics))

-- The third step: the rest of the file. Its `ei` is 0 from `calloc`.
abbrev pub new_file : Ident → Parsed (List Inst × SymbolTable) → Statics → Processed
new_file fn (parsed (insts, st)) v =
    ok (some (record { filename = fn; st = st; insts = insts; mem = new_mem; ei = 0 }, v))
new_file fn parse_err v = ok none
new_file fn (parse_fault u) v = fault u

-- The second step.
unfoldable pub parse_file : ℕ → Ident → Scanned → Option Processed
unfolding parse new_st
parse_file st_block fn (scan_err v) = some (ok none)
parse_file st_block fn (scan_fault u) = some (fault u)
parse_file st_block fn (scan_ok pos o) = elim (parse st_block o.cells [] (new_st st_block)) [
  | none ↦ none
  | some r ↦ some (new_file fn r o.vars)
]

-- The calls of `proc_file` on the names; `none` is `NULL`.
abbrev pub Files : Type 0
Files = Run Statics (Option (List File))

abbrev pub with_file : File → Files → Files
with_file f (ok none) = ok none
with_file f (ok (some fs)) = ok (some (f ∷ fs))
with_file f (err e v) = err e v
with_file f (fault u) = fault u

-- The next call, if this one has made a file.
abbrev pub after_file : Option Processed → (Statics → Option Files) → Option Files
after_file none next = none
after_file (some (err e v)) next = some (err e v)
after_file (some (fault u)) next = some (fault u)
after_file (some (ok none)) next = some (ok none)
after_file (some (ok (some (f, v)))) next = elim (next v) [
  | none ↦ none
  | some r ↦ some (with_file f r)
]

abbrev pub new_prog : Sizes → Io → File → Files → Run Statics (Option Program)
new_prog z io sys (ok none) = ok none
new_prog z io sys (ok (some fs)) = ok (
    some (record {
      files = sys ∷ fs;
      fi = 0;
      heap = new_heap;
      stack = new_stack z.stack_block;
      io = io;
    }))
new_prog z io sys (err e v) = err e v
new_prog z io sys (fault u) = fault u

-- The static variables of the scanner when the process starts.
abbrev pub new_statics : Statics
new_statics = record { uilit = 0; ident_buf = []; inside_comment = false }

module _ {Fd : Type 0} (read : Fd → ℕ → Option (List ℕ × Fd)) (open_file : List ℕ → Option Fd)
    (z : Sizes) where
  unfoldable pub proc_file : Ident → Statics → Option Processed
  unfolding parse_file scan
  proc_file fn v = elim (scan read z.fuel z.scan_block open_file fn v) [
    | none ↦ none
    | some r ↦ parse_file z.st_block fn r
  ]

  -- Of `warn_file_ext`, only the characters it looks at matter here.
  unfoldable pub proc_files : List Ident → Statics → Option Files
  unfolding proc_file
  proc_files [] v = some (ok (some []))
  proc_files (fn ∷ fns) v = elim (file_ext {S = Statics} fn) [
    | fault u ↦ some (fault u)
    | err e w ↦ some (err e w)
    | ok compare ↦ after_file (proc_file fn v) (λ w. proc_files fns w)
  ]

  unfoldable pub make_prog : List Ident → Io → Option (Run Statics (Option Program))
  unfolding proc_files init_system_file
  make_prog fns io = elim (init_system_file z.st_block) [
    | err e f ↦ some (err e new_statics)
    | fault u ↦ some (fault u)
    | ok sys ↦ elim (proc_files fns new_statics) [
      | none ↦ none
      | some r ↦ some (new_prog z io sys r)
    ]
  ]
