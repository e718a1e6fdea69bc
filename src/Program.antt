-- ===== src/Program.antt =====
-- src/prog.h: a program, its files and their parts. The arrays of files and of instructions are
-- lists; `insts.idx` and `nfiles` are their lengths. `io` stands for the process's streams.
use hvme.Prelude.{ℕ, none, some, List, get_elem?, set}
use hvme.Exec.{Run, ok, fault, ◌>>=◌, out_of_bounds}
use hvme.Stack.{Stack}
use hvme.Heap.{Heap, Memory}
use hvme.Inst.{Ident, Inst}
use hvme.Table.{SymbolTable}
use hvme.Console.{Io}

pub record File : Type 0 where
  pub filename : Ident
  pub st : SymbolTable
  pub insts : List Inst
  pub mem : Memory
  pub ei : ℕ

pub record Program : Type 0 where
  pub files : List File
  pub fi : ℕ
  pub heap : Heap
  pub stack : Stack
  pub io : Io

-- `active_file(prog)`
unfoldable pub active_file : Program → Run Program File
active_file p = elim (get_elem? p.files p.fi) [ none ↦ fault out_of_bounds | some f ↦ ok f ]

-- `active_file(prog).ei = ei`
unfoldable pub set_ei : ℕ → Program → Run Program Program
unfolding active_file
set_ei ei p = do
  f ← active_file p
  ok (record p { files = set p.files p.fi (record f { ei = ei }) })
