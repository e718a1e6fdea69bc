-- ===== src/Tests/Returns.antt =====
-- The theorems on rounds, calls and returns, at a program with one function.
use hvme.Prelude.{
  ℕ, subst, zero, suc, ◌<◌, length, get_elem?, ◌≡◌, refl, Option, some, [], ◌∷◌, arith,
}
use hvme.Text.{codes}
use hvme.Exec.{Run, ok, err, fault, ◌>>=◌, Ends}
use hvme.Inst.{InstCode, Segment}
use hvme.Heap.{new_heap, new_mem}
use hvme.Stack.{new_stack, spush, grow, store, load, pop_word, spop, shrink}
use hvme.Stack.Valid.{new_stack-IsValid}
use hvme.Table.{
  new_st, get_st, search_from, insert_st, probe_both, probe, delim_hash, djb2hash_key, log2,
  log2_fuel, keys_are_eq,
}
use hvme.Segments.{exec_push}
use hvme.Jump.{jump_to}
use hvme.Call.{exec_call, exec_ret, leave_frame, load_below, enter_frame, spush_all, push_locals}
use hvme.Program.{File, Program, active_file, set_ei}
use hvme.System.{add_all, empty_file, enter_builtin, add_bii}
use hvme.Machine.Sound.{IsSound}
use hvme.Machine.Steps.{
  CarefulFor, StaysCareful, CarefulFor-StaysCareful, Stepped, Finishes, exec_step-Stepped,
  exec_prog-Finishes,
}
use hvme.Machine.{exec_step, exec_inst, next_ei, with_banks, exec_prog}
use hvme.Machine.Nesting.{OpenCall, Calls, Calls-Reach}
use hvme.Machine.Listing.{listings}
use hvme.Stack.Confined.{Confined}
use hvme.Machine.Matched.{Calls-Confined}
use hvme.Machine.Resumed.{FitsWords, Answered, exec_step-Answered, Reach-SameListings}

-- The function `f` returns its argument; the file starts with a call of it.
abbrev calling_file : Run File File
calling_file = enter_builtin 4 (codes "f") 0 (empty_file 4) >>= λ f.
    ok
      (record (add_all
        (InstCode.push Segment.arg 0
          ∷ InstCode.ret
          ∷ InstCode.push Segment.const 7
          ∷ InstCode.call (codes "f") 1
          ∷ [])
        f) { ei = 2 })

file_of : Run File File → File
file_of (ok f) = f
file_of (err e f) = f
file_of (fault u) = empty_file 4

calling : Program
unfolding file_of
calling = record {
  files = file_of calling_file ∷ [];
  fi = 0;
  heap = new_heap;
  stack = new_stack 2;
  io = record { stdin = []; stdout = []; last_stdout = 0 };
}

calling-IsSound : IsSound 2 [] calling
unfolding calling file_of new_heap new_stack new_mem enter_builtin insert_st probe_both probe new_st
    delim_hash djb2hash_key log2 log2_fuel add_bii keys_are_eq
calling-IsSound = record {
  valid = new_stack-IsValid 2 (omega arith);
  chain = (refl, refl, refl, refl);
  wide = record {
    running = omega arith;
    memory = (record { static = λ i. omega arith; temp = λ i. omega arith }, tt);
    heap = record { words = λ i. omega arith; this = omega arith; that = omega arith };
    bytes = tt;
  };
}

calling-CarefulFor : CarefulFor 5 2 calling
unfolding calling file_of exec_step exec_inst next_ei set_ei active_file with_banks exec_push spush
    grow store load exec_call exec_ret leave_frame load_below enter_frame spush_all push_locals
    jump_to pop_word spop shrink get_st search_from insert_st probe_both probe new_st delim_hash
    djb2hash_key log2 log2_fuel add_bii keys_are_eq enter_builtin new_heap new_stack
calling-CarefulFor = (
  (λ f. (tt, tt)),
  ((omega arith, omega arith), ((λ f. (tt, tt)), ((λ e. absurd (omega arith)), (tt, tt)))),
)

exec_step-Stepped_example : Ends (Stepped 2 [] calling) (exec_step 2 calling)
exec_step-Stepped_example = exec_step-Stepped 2 [] calling calling-IsSound calling-CarefulFor.0

exec_prog-Finishes_example : Finishes 2 calling (exec_prog 5 2 calling)
exec_prog-Finishes_example =
    exec_prog-Finishes 2 [] calling calling-IsSound
      (CarefulFor-StaysCareful 5 2 calling calling-CarefulFor) 5

-- The program after a round.
round_of : Run Program (Option Program) → Program
round_of (ok (some q)) = q
round_of _ = calling

pushed : Program
unfolding round_of
pushed = round_of (exec_step 2 calling)

called : Program
unfolding round_of
called = round_of (exec_step 2 pushed)

loaded : Program
unfolding round_of
loaded = round_of (exec_step 2 called)

answered : Program
unfolding round_of
answered = round_of (exec_step 2 loaded)

abbrev call_of_f : OpenCall
call_of_f = record { caller = pushed; nargs = 1 }

loaded-Calls : Calls 2 calling (call_of_f ∷ []) loaded
unfolding round_of pushed called loaded calling file_of exec_step exec_inst next_ei set_ei
    active_file with_banks exec_push spush grow store load exec_call exec_ret leave_frame load_below
    enter_frame spush_all push_locals jump_to pop_word spop shrink get_st search_from insert_st
    probe_both probe new_st delim_hash djb2hash_key log2 log2_fuel add_bii keys_are_eq enter_builtin
    new_heap new_stack
loaded-Calls =
    Calls.stays _
      (Calls.calls _ (codes "f") 1 (Calls.stays _ Calls.here refl tt refl) refl refl refl) refl tt
      refl

answered-Calls : Calls 2 calling [] answered
unfolding round_of answered loaded called pushed calling file_of exec_step exec_inst next_ei set_ei
    active_file with_banks exec_push spush grow store load exec_call exec_ret leave_frame load_below
    enter_frame spush_all push_locals jump_to pop_word spop shrink get_st search_from insert_st
    probe_both probe new_st delim_hash djb2hash_key log2 log2_fuel add_bii keys_are_eq enter_builtin
    new_heap new_stack
answered-Calls = Calls.returns _ loaded-Calls refl refl refl

calling-StaysCareful : StaysCareful 2 calling
calling-StaysCareful = CarefulFor-StaysCareful 5 2 calling calling-CarefulFor

calling-FitsWords : FitsWords calling
unfolding calling file_of enter_builtin insert_st probe_both probe new_st delim_hash djb2hash_key
    log2 log2_fuel add_bii keys_are_eq
calling-FitsWords = record { files = omega arith; insts = small }
  where
    small : (i : ℕ) (f : File) → get_elem? calling.files i ≡ some f → length f.insts < 65536
    small zero f e =
        let same : file_of calling_file ≡ f = cc in
        let four : 4 < 65536 = omega arith in subst (λ f. length f.insts < 65536) same four
    small (suc i) f e = cc

Calls-Confined_example : Confined 2 calling.stack answered.stack
Calls-Confined_example =
    Calls-Confined 2 [] calling calling-IsSound calling-StaysCareful answered answered-Calls

exec_step-Answered_example : Answered call_of_f loaded (exec_step 2 loaded)
unfolding round_of pushed called loaded calling file_of exec_step exec_inst next_ei set_ei
    active_file with_banks exec_push spush grow store load exec_call exec_ret leave_frame load_below
    enter_frame spush_all push_locals jump_to pop_word spop shrink get_st search_from insert_st
    probe_both probe new_st delim_hash djb2hash_key log2 log2_fuel add_bii keys_are_eq enter_builtin
    new_heap new_stack
exec_step-Answered_example =
    exec_step-Answered 2 [] calling calling-IsSound calling-StaysCareful calling-FitsWords call_of_f
      [] loaded _ loaded-Calls refl refl

Reach-SameListings_example : listings answered.files ≡ listings calling.files
Reach-SameListings_example =
    Reach-SameListings 2 calling answered (Calls-Reach 2 calling [] answered answered-Calls)
