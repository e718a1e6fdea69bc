-- ===== src/Tests/Messages.antt =====
-- The theorem on the messages of the parser, at `push local` without an offset.
use hvme.Prelude.{ℕ, [], ◌∷◌, arith}
use hvme.Token.{TokenCode, Token}
use hvme.Parse.Reported.{
  Reported, WrongMemory, WrongName, memory_inst_message, goto_inst_message, inst-Reported,
}
use hvme.Parse.{TokenStream, memory_inst, goto_inst, if_goto_inst}

abbrev token : TokenCode → ℕ → Token
token t cl = record { t = t; pos = record { ln = 0; cl = cl }; uilit = 0; ident = [] }

abbrev short_push : TokenStream
short_push = record {
  tokens = token TokenCode.push 0 ∷ token TokenCode.loc 5 ∷ [];
  idx = 0;
  len = 2;
}

inst-Reported_example :
    Reported
      (WrongMemory short_push)
      short_push
      (memory_inst short_push)
      (memory_inst_message short_push)
    × Reported
        (WrongName short_push)
        short_push
        (goto_inst short_push)
        (goto_inst_message short_push)
    × Reported
        (WrongName short_push)
        short_push
        (if_goto_inst short_push)
        (goto_inst_message short_push)
inst-Reported_example = inst-Reported short_push (omega arith)
