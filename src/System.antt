-- ===== src/System.antt =====
-- src/prog.c: the system file with the builtin functions and the startup code.
pub mod Wide
use hvme.Text.{codes}
use hvme.Prelude.{ℕ, List, [], ◌∷◌, ◌++◌, length}
use hvme.Exec.{Run, ok, ◌>>=◌, within}
use hvme.Inst.{Ident, InstCode, Segment}
use hvme.Heap.{new_mem}
use hvme.Table.{func, mk_key, mk_fnval, new_st, insert_st}
use hvme.Program.{File}

unfoldable pub add_bii : InstCode → File → File
add_bii inst file = record file {
  insts =
      file.insts ++ record { code = inst; pos = record { ln = length file.insts; cl = 0 } } ∷ [];
}

-- A row of calls of `add_bii`.
abbrev pub add_all : List InstCode → File → File
add_all [] file = file
add_all (i ∷ is) file = add_all is (add_bii i file)

-- The call of `insert_st` with which each builtin starts; its result is not looked at.
unfoldable pub enter_builtin : ℕ → Ident → ℕ → File → Run File File
enter_builtin st_block name nlocals file = do
  (_, st) ←
      within (λ st. record file { st = st })
        (insert_st st_block file.st (mk_key name func) (mk_fnval (length file.insts) nlocals))
  ok (record file { st = st })

abbrev pub push_argument : ℕ → InstCode
push_argument = InstCode.push Segment.arg

abbrev pub push_constant : ℕ → InstCode
push_constant = InstCode.push Segment.const

builtin_print_char : ℕ → File → Run File File
builtin_print_char st_block file = enter_builtin st_block (codes "Sys.print_char") 0 file >>= λ f.
    ok (
      add_all (push_argument 0 ∷ InstCode.builtin_print_char ∷ push_constant 0 ∷ InstCode.ret ∷ [])
        f)

builtin_print_num : ℕ → File → Run File File
builtin_print_num st_block file = enter_builtin st_block (codes "Sys.print_num") 0 file >>= λ f.
    ok (
      add_all (push_argument 0 ∷ InstCode.builtin_print_num ∷ push_constant 0 ∷ InstCode.ret ∷ [])
        f)

builtin_print_str : ℕ → File → Run File File
builtin_print_str st_block file = enter_builtin st_block (codes "Sys.print_str") 0 file >>= λ f.
    ok (
      add_all
        (push_argument 0
          ∷ push_argument 1
          ∷ InstCode.builtin_print_str
          ∷ push_constant 0
          ∷ InstCode.ret
          ∷ [])
        f)

builtin_read_char : ℕ → File → Run File File
builtin_read_char st_block file = enter_builtin st_block (codes "Sys.read_char") 0 file >>= λ f.
    ok (add_all (InstCode.builtin_read_char ∷ InstCode.ret ∷ []) f)

builtin_read_num : ℕ → File → Run File File
builtin_read_num st_block file = enter_builtin st_block (codes "Sys.read_num") 0 file >>= λ f.
    ok (add_all (InstCode.builtin_read_num ∷ InstCode.ret ∷ []) f)

builtin_read_str : ℕ → File → Run File File
builtin_read_str st_block file = enter_builtin st_block (codes "Sys.read_str") 1 file >>= λ f.
    ok (add_all (push_argument 0 ∷ InstCode.builtin_read_str ∷ InstCode.ret ∷ []) f)

-- The array of files is cleared before.
abbrev pub empty_file : ℕ → File
empty_file st_block = record {
  filename = codes "<system>";
  st = new_st st_block;
  insts = [];
  mem = new_mem;
  ei = 0;
}

unfoldable pub init_system_file : ℕ → Run File File
unfolding builtin_print_char builtin_print_num builtin_print_str builtin_read_char builtin_read_num
    builtin_read_str
init_system_file st_block = do
  f₁ ← builtin_print_char st_block (empty_file st_block)
  f₂ ← builtin_print_num st_block f₁
  f₃ ← builtin_print_str st_block f₂
  f₄ ← builtin_read_char st_block f₃
  f₅ ← builtin_read_num st_block f₄
  f₆ ← builtin_read_str st_block f₅
  ok (
      add_all (push_constant 0 ∷ InstCode.call (codes "Sys.init") 1 ∷ [])
        (record f₆ { ei = length f₆.insts }))
