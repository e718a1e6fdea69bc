-- ===== src/Token.antt =====
-- src/scan.h: tokens. A token without a meaning for `uilit` or `ident` keeps some value there.
use hvme.Prelude.{ℕ}
use hvme.Inst.{Ident, Pos}

pub data TokenCode : Type 0 where
  none : TokenCode
  push pop : TokenCode
  arg loc stat const this that ptr tmp : TokenCode
  uint : TokenCode
  label goto if_goto func call ret : TokenCode
  add sub neg eq gt lt and or not : TokenCode
  ident : TokenCode

-- The value of the enumeration.
abbrev pub code : TokenCode → ℕ
code none = 0
code push = 1
code pop = 2
code arg = 3
code loc = 4
code stat = 5
code const = 6
code this = 7
code that = 8
code ptr = 9
code tmp = 10
code uint = 11
code label = 12
code goto = 13
code if_goto = 14
code func = 15
code call = 16
code ret = 17
code add = 18
code sub = 19
code neg = 20
code eq = 21
code gt = 22
code lt = 23
code and = 24
code or = 25
code not = 26
code ident = 27

pub record Token : Type 0 where
  pub t : TokenCode
  pub pos : Pos
  pub uilit : ℕ
  pub ident : Ident
