-- ===== src/Inst.antt =====
-- src/parse.h: the instructions. The union of operands is the arguments of a constructor, and a
-- character array up to its terminator is a list of codes. Positions have no file name, which
-- only the messages read.
use hvme.Prelude.{ℕ, List}

pub data Segment : Type 0 where
  arg loc stat const this that ptr tmp : Segment

abbrev pub Ident : Type 0
Ident = List ℕ

pub data InstCode : Type 0 where
  ic_none : InstCode
  push pop : Segment → ℕ → InstCode
  add sub neg and or not eq gt lt : InstCode
  goto if_goto : Ident → InstCode
  call : Ident → ℕ → InstCode
  ret : InstCode
  builtin_print_char builtin_print_num builtin_print_str : InstCode
  builtin_read_char builtin_read_num builtin_read_str : InstCode

pub record Pos : Type 0 where
  pub ln : ℕ
  pub cl : ℕ

pub record Inst : Type 0 where
  pub code : InstCode
  pub pos : Pos
