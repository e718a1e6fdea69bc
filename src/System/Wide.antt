-- ===== src/System/Wide.antt =====
-- src/prog.c: the memory of the system file.
use hvme.Prelude.{ℕ, List, [], ◌∷◌, length, arith}
use hvme.Text.{codes}
use hvme.Exec.{Run, ok, err, ◌>>=◌, within, Gives, Gives-bind}
use hvme.Inst.{Ident, InstCode}
use hvme.Heap.{new_mem}
use hvme.Table.{SymbolTable, InsertResult, insert_st, mk_key, mk_fnval, func}
use hvme.Program.{File}
use hvme.Machine.Sound.{WideMemory}
use hvme.System.{
  add_bii, add_all, enter_builtin, empty_file, push_argument, push_constant, builtin_print_char,
  builtin_print_num, builtin_print_str, builtin_read_char, builtin_read_num, builtin_read_str,
  init_system_file,
}

abbrev pub HasWideMemory : File → Type 0
HasWideMemory f = WideMemory f.mem

pub new_mem-WideMemory : WideMemory new_mem
unfolding new_mem
new_mem-WideMemory = record { static = λ i. omega arith; temp = λ i. omega arith }

-- A file without instructions of its own, and the builtin functions.
add_all-mem : (is : List InstCode) (f : File) → HasWideMemory f → HasWideMemory (add_all is f)
unfolding add_bii
add_all-mem [] f h = h
add_all-mem (i ∷ is) f h = add_all-mem is (add_bii i f) h

enter_builtin-mem :
    (st_block : ℕ) (name : Ident) (nargs : ℕ) (f : File)
    → HasWideMemory f
    → Gives HasWideMemory (enter_builtin st_block name nargs f)
unfolding enter_builtin
enter_builtin-mem st_block name nargs f h =
    let m : Run File (InsertResult × SymbolTable) =
      within (λ st. record f { st = st })
        (insert_st st_block f.st (mk_key name func) (mk_fnval (length f.insts) nargs)) in
    Gives-bind (λ _. Unit) HasWideMemory m (λ r. ok (record f { st = r.1 })) (always m) (λ r _. h)
  where
    always : {S A : Type 0} (m : Run S A) → Gives (λ _. Unit) m
    always (ok a) = tt
    always (err e t) = tt
    always (Run.fault u) = tt

builtin-mem :
    (st_block : ℕ) (name : Ident) (nargs : ℕ) (is : List InstCode) (f : File)
    → HasWideMemory f
    → Gives HasWideMemory (enter_builtin st_block name nargs f >>= λ g. ok (add_all is g))
builtin-mem st_block name nargs is f h =
    Gives-bind HasWideMemory HasWideMemory (enter_builtin st_block name nargs f) _
      (enter_builtin-mem st_block name nargs f h) (λ g a. add_all-mem is g a)

empty_file-mem : (st_block : ℕ) → HasWideMemory (empty_file st_block)
empty_file-mem st_block = new_mem-WideMemory

builtin_print_char-mem :
    (st_block : ℕ) (f : File)
    → HasWideMemory f
    → Gives HasWideMemory (builtin_print_char st_block f)
unfolding builtin_print_char
builtin_print_char-mem st_block f h =
    builtin-mem st_block (codes "Sys.print_char") 0
      (push_argument 0 ∷ InstCode.builtin_print_char ∷ push_constant 0 ∷ InstCode.ret ∷ []) f h

builtin_print_num-mem :
    (st_block : ℕ) (f : File) → HasWideMemory f → Gives HasWideMemory (builtin_print_num st_block f)
unfolding builtin_print_num
builtin_print_num-mem st_block f h =
    builtin-mem st_block (codes "Sys.print_num") 0
      (push_argument 0 ∷ InstCode.builtin_print_num ∷ push_constant 0 ∷ InstCode.ret ∷ []) f h

builtin_print_str-mem :
    (st_block : ℕ) (f : File) → HasWideMemory f → Gives HasWideMemory (builtin_print_str st_block f)
unfolding builtin_print_str
builtin_print_str-mem st_block f h =
    builtin-mem st_block (codes "Sys.print_str") 0
      (push_argument 0
        ∷ push_argument 1
        ∷ InstCode.builtin_print_str
        ∷ push_constant 0
        ∷ InstCode.ret
        ∷ [])
      f h

builtin_read_char-mem :
    (st_block : ℕ) (f : File) → HasWideMemory f → Gives HasWideMemory (builtin_read_char st_block f)
unfolding builtin_read_char
builtin_read_char-mem st_block f h =
    builtin-mem st_block (codes "Sys.read_char") 0 (InstCode.builtin_read_char ∷ InstCode.ret ∷ [])
      f h

builtin_read_num-mem :
    (st_block : ℕ) (f : File) → HasWideMemory f → Gives HasWideMemory (builtin_read_num st_block f)
unfolding builtin_read_num
builtin_read_num-mem st_block f h =
    builtin-mem st_block (codes "Sys.read_num") 0 (InstCode.builtin_read_num ∷ InstCode.ret ∷ []) f
      h

builtin_read_str-mem :
    (st_block : ℕ) (f : File) → HasWideMemory f → Gives HasWideMemory (builtin_read_str st_block f)
unfolding builtin_read_str
builtin_read_str-mem st_block f h =
    builtin-mem st_block (codes "Sys.read_str") 1
      (push_argument 0 ∷ InstCode.builtin_read_str ∷ InstCode.ret ∷ []) f h

-- The system file starts with cleared memory.
pub init_system_file-mem : (st_block : ℕ) → Gives HasWideMemory (init_system_file st_block)
unfolding init_system_file
init_system_file-mem st_block =
    then_mem (builtin_print_char st_block (empty_file st_block)) _
      (builtin_print_char-mem st_block _ (empty_file-mem st_block))
      (λ f₁ h₁.
        then_mem (builtin_print_num st_block f₁) _ (builtin_print_num-mem st_block f₁ h₁) (λ f₂ h₂.
          then_mem (builtin_print_str st_block f₂) _ (builtin_print_str-mem st_block f₂ h₂)
            (λ f₃ h₃.
              then_mem (builtin_read_char st_block f₃) _ (builtin_read_char-mem st_block f₃ h₃)
                (λ f₄ h₄.
                  then_mem (builtin_read_num st_block f₄) _ (builtin_read_num-mem st_block f₄ h₄)
                    (λ f₅ h₅.
                      then_mem (builtin_read_str st_block f₅) _
                        (builtin_read_str-mem st_block f₅ h₅)
                        (λ f₆ h₆.
                          add_all-mem (push_constant 0 ∷ InstCode.call (codes "Sys.init") 1 ∷ [])
                            (record f₆ { ei = length f₆.insts }) h₆))))))
  where
    then_mem :
        (m : Run File File) (next : File → Run File File)
        → Gives HasWideMemory m
        → ((g : File) → HasWideMemory g → Gives HasWideMemory (next g))
        → Gives HasWideMemory (m >>= next)
    then_mem = Gives-bind HasWideMemory HasWideMemory
