-- ===== src/Tests/Stacks.antt =====
-- The theorems on the operand stack and on the instructions, at small stacks.
use hvme.Prelude.{
  ℕ, ◌+◌, ◌-◌, ◌≤◌, ◌<◌, ◌≡◌, ◌↔◌, ◌⊎◌, refl, none, some, [], ◌∷◌, ◌==◌, if◌then◌else◌, arith,
}
use hvme.Exec.{Ends, ok, fault, out_of_bounds, add_overflow, sub_underflow}
use hvme.Stack.{Stack, new_stack, spush, spop}
use hvme.Stack.Valid.{IsValid, SameRegs, new_stack-IsValid}
use hvme.Stack.Contents.{contents, spush-contents, spop-contents}
use hvme.Stack.Confined.{Confined}
use hvme.Arith.{
  exec_add, exec_sub, exec_neg, exec_and, exec_or, exec_not, exec_eq, exec_lt, exec_gt,
}
use hvme.Arith.Correct.{
  Gives, Fails, Ready1, Ready2, exec_add_cases, exec_sub_cases, compare_trichotomy,
}
use hvme.Arith.Safe.{arith-Ends}
use hvme.Heap.{new_mem}
use hvme.Inst.{this}
use hvme.Segments.{Banks, exec_pop, exec_push}
use hvme.Segments.Kept.{Kept, IsWide}
use hvme.Segments.Pop.{exec_pop-Ends}
use hvme.Segments.Push.{exec_push-Ends}
use hvme.Segments.Overrun.{heap_edge-out}

-- A stack with the words 5 and 7, in blocks of two cells.
abbrev pub two_words : Stack
two_words = record {
  ops = λ i. if i == 0 then some 5 else if i == 1 then some 7 else none;
  sp = 2;
  arg = 0;
  arg_len = 0;
  lcl = 0;
  lcl_len = 0;
  len = 2;
}

pub two_words-IsValid : IsValid 2 two_words
two_words-IsValid = record {
  positive = omega arith;
  within = omega arith;
  spare = 0;
  blocks = refl;
  base = omega arith;
  filled = λ i h. ground arith;
}

spush-contents_example :
    (t : Stack) × (spush 2 9 (new_stack 2) ≡ ok t)
    × (contents t ≡ some 9 ∷ contents (new_stack 2))
    × SameRegs (new_stack 2) t
    × IsValid 2 t
spush-contents_example =
    spush-contents 2 9 (new_stack 2) (new_stack-IsValid 2 (omega arith)) (omega arith)

spop-contents_example :
    (v : ℕ) × (t : Stack) × (spop 2 two_words ≡ ok (some v, t))
    × (contents two_words ≡ some v ∷ contents t)
    × SameRegs two_words t
    × IsValid 2 t
spop-contents_example = spop-contents 2 two_words two_words-IsValid (omega arith)

ready_two : Ready2 2 two_words 5 7 []
unfolding contents
ready_two = record { valid = two_words-IsValid; above = omega arith; words = refl }

ready_one : Ready1 2 two_words 7 (some 5 ∷ [])
unfolding contents
ready_one = record { valid = two_words-IsValid; above = omega arith; words = refl }

exec_add_cases_example :
    ((12 < 65536) × Gives 2 two_words 12 [] (exec_add 2 two_words))
    ⊎ ((65536 ≤ 12) × Fails two_words (add_overflow 5 7 12) (exec_add 2 two_words))
exec_add_cases_example = exec_add_cases 2 two_words 5 7 [] ready_two

exec_sub_cases_example :
    ((7 ≤ 5) × Gives 2 two_words (5 - 7) [] (exec_sub 2 two_words))
    ⊎ ((5 < 7) × Fails two_words (sub_underflow 5 7) (exec_sub 2 two_words))
exec_sub_cases_example = exec_sub_cases 2 two_words 5 7 [] ready_two

compare_trichotomy_example :
    (e l g : ℕ) × Gives 2 two_words e [] (exec_eq 2 two_words)
    × Gives 2 two_words l [] (exec_lt 2 two_words)
    × Gives 2 two_words g [] (exec_gt 2 two_words)
    × (e + l + g ≡ 0xFFFF)
    × ((e ≡ 0xFFFF) ↔ ◌≡◌ {A = ℕ} 5 7)
    × ((l ≡ 0xFFFF) ↔ (5 < 7))
    × ((g ≡ 0xFFFF) ↔ (7 < 5))
compare_trichotomy_example = compare_trichotomy 2 two_words 5 7 [] ready_two

arith-Ends_example :
    Ends (Confined 2 two_words) (exec_add 2 two_words)
    × Ends (Confined 2 two_words) (exec_sub 2 two_words)
    × Ends (Confined 2 two_words) (exec_neg 2 two_words)
    × Ends (Confined 2 two_words) (exec_and 2 two_words)
    × Ends (Confined 2 two_words) (exec_or 2 two_words)
    × Ends (Confined 2 two_words) (exec_not 2 two_words)
    × Ends (Confined 2 two_words) (exec_eq 2 two_words)
    × Ends (Confined 2 two_words) (exec_lt 2 two_words)
    × Ends (Confined 2 two_words) (exec_gt 2 two_words)
arith-Ends_example = arith-Ends 2 two_words two_words-IsValid

abbrev banks : Banks
banks = record {
  stack = two_words;
  heap = record { mem = λ _. 0; this = 0xFFF; that = 0 };
  mem = new_mem;
}

banks-IsWide : IsWide banks
unfolding new_mem
banks-IsWide = record {
  heap = λ i. omega arith;
  static = λ i. omega arith;
  temp = λ i. omega arith;
  this = omega arith;
  that = omega arith;
}

exec_pop-Ends_example : Ends (Kept 2 banks) (exec_pop 2 this 0 banks)
exec_pop-Ends_example = exec_pop-Ends 2 banks two_words-IsValid banks-IsWide this 0 (omega arith)

exec_push-Ends_example : Ends (Kept 2 banks) (exec_push 2 this 0 banks)
exec_push-Ends_example =
    exec_push-Ends 2 banks two_words-IsValid banks-IsWide this 0 (omega arith) tt

heap_edge-out_example :
    (exec_push 2 this 1 banks ≡ fault out_of_bounds)
    × (exec_pop 2 this 1 banks ≡ fault out_of_bounds)
heap_edge-out_example = heap_edge-out 2 banks two_words-IsValid (omega arith) 1 refl
