-- ===== src/Tests/Machines.antt =====
-- The theorems on whole programs, at one that is read from a file and one without jumps.
use hvme.Prelude.{ℕ, ◌≡◌, refl, Option, some, List, [], ◌∷◌, take, drop, arith}
use hvme.Text.{codes}
use hvme.Exec.{Run, ok}
use hvme.Inst.{InstCode, Segment}
use hvme.Heap.{new_heap, new_mem}
use hvme.Stack.{new_stack, spush, grow, store, load, pop_word, spop, shrink}
use hvme.Table.{
  new_st, get_st, search_from, insert_st, probe_both, probe, delim_hash, djb2hash_key, log2,
  log2_fuel, keys_are_eq, enter, grow_st, str_eq, vals_are_eq,
}
use hvme.Segments.{exec_push}
use hvme.Jump.{jump_to, find_defs}
use hvme.Call.{exec_call, exec_ret, leave_frame, load_below, enter_frame, spush_all, push_locals}
use hvme.Program.{File, Program, active_file, set_ei}
use hvme.System.{add_all, empty_file, enter_builtin, add_bii, init_system_file}
use hvme.Console.{Io, is_space, is_digit, is_alpha, last_char}
use hvme.Scan.{
  Statics, first_match, token_from_fn, ident, inc, incby, incl, is_ident_char, is_ident_start,
  run_fn, starts_with, static_scan, uint,
}
use hvme.Assembly.{Sizes, make_prog, parse_file, proc_file, proc_files}
use hvme.Scan.Block.{eat_ws_from, completed, in_comment, no_comment, num_trailing, round, scan_blk}
use hvme.Scan.File.{copy_trailing, end_line, scan, scan_blocks}
use hvme.Parse.{
  function_inst, is_inst_token, its_lh, its_next, map_inst, memory_inst, parse, parse_loop,
  parse_round,
}
use hvme.Entry.{run_hvme}
use hvme.Entry.Safe.{HasRun, run_hvme-HasRun}
use hvme.Machine.Halts.{HasEnded, exec_prog-ends}
use hvme.Machine.Sound.{IsSound}
use hvme.Stack.Valid.{new_stack-IsValid}
use hvme.Arith.{exec_add}
use hvme.Machine.{with_stack}
use hvme.Machine.Steps.{CarefulFor, CarefulFor-StaysCareful}
use hvme.Machine.{exec_step, exec_inst, next_ei, with_banks, exec_prog}

abbrev streams : Io
streams = record { stdin = []; stdout = []; last_stdout = 0 }

-- A file without jumps.
abbrev adding_file : File
adding_file =
    add_all (InstCode.push Segment.const 1 ∷ InstCode.push Segment.const 2 ∷ InstCode.add ∷ [])
      (empty_file 4)

abbrev adding : Program
adding = record {
  files = adding_file ∷ [];
  fi = 0;
  heap = new_heap;
  stack = new_stack 2;
  io = streams;
}

-- Files that hold their own rest.
abbrev read : List ℕ → ℕ → Option (List ℕ × List ℕ)
read fd n = some (take n fd, drop n fd)

abbrev open_file : List ℕ → Option (List ℕ)
open_file fn = some (codes "function Sys.init 0\npush constant 1\nreturn\n")

abbrev sizes : Sizes
sizes = record { fuel = 2; scan_block = 64; st_block = 4; stack_block = 2 }

program_of : Option (Run Statics (Option Program)) → Program
program_of (some (ok (some p))) = p
program_of _ = adding

made : Program
unfolding program_of make_prog
made = program_of (make_prog read open_file sizes (codes "a.vm" ∷ []) streams)

made_lem : make_prog read open_file sizes (codes "a.vm" ∷ []) streams ≡ some (ok (some made))
unfolding made program_of make_prog enter_builtin insert_st probe_both probe delim_hash djb2hash_key
    log2 log2_fuel add_bii keys_are_eq first_match eat_ws_from is_space is_digit token_from_fn
    is_alpha copy_trailing parse_file proc_file proc_files last_char new_heap new_mem function_inst
    is_inst_token its_lh its_next map_inst memory_inst parse parse_loop parse_round completed
    in_comment no_comment num_trailing round scan_blk end_line scan scan_blocks ident inc incby incl
    is_ident_char is_ident_start run_fn starts_with static_scan uint new_stack init_system_file
    enter grow_st new_st str_eq vals_are_eq
made_lem = refl

made-CarefulFor : CarefulFor 5 2 made
unfolding exec_step exec_inst next_ei set_ei active_file with_banks exec_push spush grow store load
    exec_call exec_ret leave_frame load_below enter_frame spush_all push_locals find_defs jump_to
    pop_word spop shrink get_st search_from insert_st probe_both probe new_st delim_hash
    djb2hash_key log2 log2_fuel add_bii keys_are_eq enter_builtin new_heap new_stack made program_of
    make_prog first_match eat_ws_from is_space is_digit token_from_fn is_alpha copy_trailing
    parse_file proc_file proc_files last_char new_mem function_inst is_inst_token its_lh its_next
    map_inst memory_inst parse parse_loop parse_round completed in_comment no_comment num_trailing
    round scan_blk end_line scan scan_blocks ident inc incby incl is_ident_char is_ident_start
    run_fn starts_with static_scan uint init_system_file enter grow_st str_eq vals_are_eq
made-CarefulFor = (
  (λ f. (tt, tt)),
  ((omega arith, omega arith), ((λ f. (tt, tt)), ((λ e. absurd (omega arith)), (tt, tt)))),
)

run_hvme-HasRun_example :
    HasRun (run_hvme read open_file sizes 5 (codes "hvme" ∷ codes "a.vm" ∷ []) streams)
run_hvme-HasRun_example =
    run_hvme-HasRun read open_file sizes 5 (codes "hvme" ∷ codes "a.vm" ∷ []) streams made
      (omega arith) tt (omega arith) made_lem (CarefulFor-StaysCareful 5 2 made made-CarefulFor)

adding-IsSound : IsSound 2 [] adding
unfolding new_heap new_stack new_mem add_bii
adding-IsSound = record {
  valid = new_stack-IsValid 2 (omega arith);
  chain = (refl, refl, refl, refl);
  wide = record {
    running = omega arith;
    memory = (record { static = λ i. omega arith; temp = λ i. omega arith }, tt);
    heap = record { words = λ i. omega arith; this = omega arith; that = omega arith };
    bytes = tt;
  };
}

adding-CarefulFor : CarefulFor 4 2 adding
unfolding exec_step exec_inst next_ei set_ei active_file with_banks with_stack exec_push exec_add
    spush grow store load pop_word spop shrink new_heap new_stack add_bii
adding-CarefulFor = ((λ f. (tt, tt)), ((λ f. (tt, tt)), (tt, (tt, tt))))

exec_prog-ends_example :
    (r : Run Program Program) × (exec_prog 4 2 adding ≡ some r) × HasEnded 2 adding r
unfolding add_bii
exec_prog-ends_example =
    exec_prog-ends 2 [] adding adding_file adding-IsSound
      (CarefulFor-StaysCareful 4 2 adding adding-CarefulFor) refl (tt, (tt, (tt, tt))) (omega arith)
