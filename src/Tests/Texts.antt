-- ===== src/Tests/Texts.antt =====
-- The theorems on the parser and on the numbers that are printed and read, at small inputs.
use hvme.Prelude.{◌+◌, ◌≡◌, some, List, [], ◌∷◌, ◌++◌, arith, length}
use hvme.Inst.{Inst, InstCode, Segment}
use hvme.Table.{SymbolTable, new_st}
use hvme.Parse.{Parsed, parsed, parse}
use hvme.Parse.Progress.{parse-ends}
use hvme.Parse.Print.{printed}
use hvme.Parse.Roundtrip.{parse-printed}
use hvme.Console.{Io, print_num, newline}
use hvme.Builtins.{scanf_u, scanned, exec_builtin_read_str}
use hvme.Builtins.Strings.{LineRead, read_str-Ends}
use hvme.Builtins.Numbers.{scanf_u-print_num}
use hvme.Exec.{Ends}
use hvme.Heap.{new_heap}
use hvme.Program.{Program}
use hvme.Tests.Stacks.{two_words, two_words-IsValid}
use hvme.Text.{codes}

abbrev insts : List Inst
insts =
    record { code = InstCode.push Segment.const 3; pos = record { ln = 0; cl = 0 } }
    ∷ record { code = InstCode.neg; pos = record { ln = 1; cl = 0 } }
    ∷ record { code = InstCode.if_goto (codes "LOOP"); pos = record { ln = 2; cl = 0 } }
    ∷ []

abbrev table : SymbolTable
table = new_st 4

parse-ends_example :
    (r : Parsed (List Inst × SymbolTable)) × (parse 4 (printed insts) [] table ≡ some r)
parse-ends_example = parse-ends 4 (printed insts) [] table

parse-printed_example :
    parse 4 (printed insts) [] table
    ≡ some (parsed (insts, record table { num_inst = table.num_inst + length insts }))
parse-printed_example = parse-printed 4 insts table (tt, (tt, (tt, tt)))

abbrev streams : Io
streams = record { stdin = []; stdout = []; last_stdout = 0 }

scanf_u-print_num_example :
    scanf_u ((print_num 4095 (record streams { stdout = [] })).stdout ++ newline ∷ [])
    ≡ scanned 4095 (newline ∷ [])
scanf_u-print_num_example = scanf_u-print_num 4095 [] streams (omega arith)

-- The line `hi` in the standard input.
abbrev reader : Program
reader = record {
  files = [];
  fi = 0;
  heap = new_heap;
  stack = two_words;
  io = record { stdin = 104 ∷ 105 ∷ newline ∷ []; stdout = []; last_stdout = 0 };
}

read_str-Ends_example : Ends (LineRead 2 reader) (exec_builtin_read_str 2 reader)
unfolding new_heap
read_str-Ends_example =
    read_str-Ends 2 reader two_words-IsValid (λ i. omega arith)
      (omega arith, (omega arith, (omega arith, tt)))
