-- ===== src/Source.antt =====
-- src/parse.c: `inst_str`, an instruction as text; and what the scanner and the parser make of
-- such a text.
pub mod Spelled
pub mod Readback
use hvme.Prelude.{ℕ, ◌-◌, List, [], ◌∷◌, ◌++◌, take}
use hvme.Text.{codes}
use hvme.Console.{decimal, newline}
use hvme.Inst.{Inst, InstCode, Segment}

abbrev pub inst_str_buf : ℕ
inst_str_buf = 40

abbrev pub segs : Segment → List ℕ
segs Segment.arg = codes "argument"
segs Segment.loc = codes "local"
segs Segment.stat = codes "static"
segs Segment.const = codes "constant"
segs Segment.this = codes "this"
segs Segment.that = codes "that"
segs Segment.ptr = codes "pointer"
segs Segment.tmp = codes "temp"

-- `insts`
abbrev pub plain_str : InstCode → List ℕ
plain_str InstCode.add = codes "add"
plain_str InstCode.sub = codes "sub"
plain_str InstCode.neg = codes "neg"
plain_str InstCode.and = codes "and"
plain_str InstCode.or = codes "or"
plain_str InstCode.not = codes "not"
plain_str InstCode.eq = codes "eq"
plain_str InstCode.gt = codes "gt"
plain_str InstCode.lt = codes "lt"
plain_str InstCode.ret = codes "return"
plain_str InstCode.builtin_print_char = codes "<builtin print char>"
plain_str InstCode.builtin_print_num = codes "<builtin print num>"
plain_str InstCode.builtin_print_str = codes "<builtin print str>"
plain_str InstCode.builtin_read_char = codes "<builtin read char>"
plain_str InstCode.builtin_read_num = codes "<builtin read num>"
plain_str InstCode.builtin_read_str = codes "<builtin read str>"
plain_str _ = codes "IC_NONE"

-- What is written before the buffer's end is looked at.
unfoldable pub format : InstCode → List ℕ
unfolding decimal
format (InstCode.push s n) = codes "push " ++ (segs s ++ b' ' ∷ decimal 4 n [])
format (InstCode.pop s n) = codes "pop " ++ (segs s ++ b' ' ∷ decimal 4 n [])
format (InstCode.goto s) = codes "goto " ++ s
format (InstCode.if_goto s) = codes "if-goto " ++ s
format (InstCode.call s n) = codes "call " ++ (s ++ b' ' ∷ decimal 4 n [])
format c = plain_str c

-- `inst_str`: the text before the terminator.
unfoldable pub inst_str : Inst → List ℕ
unfolding format
inst_str i = take (inst_str_buf - 1) (format i.code)

-- A file with an instruction on each line.
abbrev pub source : List Inst → List ℕ
source [] = []
source (i ∷ is) = inst_str i ++ newline ∷ source is
