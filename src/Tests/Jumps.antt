-- ===== src/Tests/Jumps.antt =====
-- The theorems on `goto` and `if-goto`, with a label in the second of two files.
use hvme.Prelude.{◌≡◌, refl, none, [], ◌∷◌}
use hvme.Exec.{ok}
use hvme.Heap.{new_heap, new_mem}
use hvme.Stack.{new_stack}
use hvme.Table.{
  new_st, get_st, search_from, delim_hash, djb2hash_key, log2, log2_fuel, keys_are_eq, SymbolTable,
}
use hvme.Program.{File, Program, active_file}
use hvme.Jump.{exec_goto}
use hvme.Jump.Search.{count_defs}
use hvme.Jump.Goto.{GotoOutcome, exec_goto_cases}
use hvme.Text.{codes}
use hvme.Tests.Tables.{loop_key, one_label}

abbrev file_with : SymbolTable → File
file_with st = record { filename = codes "a.vm"; st = st; insts = []; mem = new_mem; ei = 0 }

abbrev two_files : Program
two_files = record {
  files = file_with (new_st 4) ∷ file_with one_label ∷ [];
  fi = 0;
  heap = new_heap;
  stack = new_stack 2;
  io = record { stdin = []; stdout = []; last_stdout = 0 };
}

first_active : active_file two_files ≡ ok (file_with (new_st 4))
unfolding active_file
first_active = refl

first_misses : get_st (new_st 4) loop_key ≡ none
unfolding get_st new_st search_from delim_hash djb2hash_key log2 log2_fuel keys_are_eq
first_misses = refl

exec_goto_cases_example :
    GotoOutcome
      (codes "LOOP")
      two_files
      (count_defs loop_key 0 0 two_files.files)
      (exec_goto (codes "LOOP") two_files)
exec_goto_cases_example =
    exec_goto_cases (codes "LOOP") two_files (file_with (new_st 4)) first_active first_misses
