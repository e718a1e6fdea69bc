-- ===== src/Source/Readback.antt =====
-- src/parse.c, src/scan.c: the text that `inst_str` writes for instructions is scanned and parsed
-- back to them.
use hvme.Prelude.{
  ℕ, suc, ◌+◌, ◌≤◌, ◌≡◌, ◌∙◌, refl, sym, ap, false, some, List, [], ◌∷◌, ◌++◌, length,
  length-append, arith,
}
use hvme.Inst.{Inst, InstCode, Pos}
use hvme.Token.{Token}
use hvme.Table.{SymbolTable}
use hvme.Parse.{parse, parsed}
use hvme.Parse.Print.{IsSource}
use hvme.Parse.Rounds.{Reads}
use hvme.Parse.Roundtrip.{AllRead, parse-AllRead}
use hvme.Scan.{Statics}
use hvme.Scan.Block.{Output, scan_blk}
use hvme.Scan.Words.{word_text}
use hvme.Scan.Written.{Spaced, written, AllSay, scan_blk-written}
use hvme.Source.{source}
use hvme.Source.Spelled.{words_of, words, IsWritable, AreWritable, words-source, words-AreSpaced}

writable-IsSource : (c : InstCode) → IsWritable c → IsSource c
writable-IsSource InstCode.ic_none h = absurd h
writable-IsSource InstCode.builtin_print_char h = absurd h
writable-IsSource InstCode.builtin_print_num h = absurd h
writable-IsSource InstCode.builtin_print_str h = absurd h
writable-IsSource InstCode.builtin_read_char h = absurd h
writable-IsSource InstCode.builtin_read_num h = absurd h
writable-IsSource InstCode.builtin_read_str h = absurd h
writable-IsSource _ h = tt

-- The tokens that say the words of an instruction are the ones that the parser reads.
record Stands (c : InstCode) (its : List Token) : Type 0 where
  pos : Pos
  reads : Reads (record { code = c; pos = pos }) its

AllSay-Stands : (c : InstCode) (its : List Token) → AllSay (words_of c) its → Stands c its
AllSay-Stands (InstCode.push s n) (c ∷ a ∷ b ∷ []) (h, (k, ((u, v), _))) = record {
  pos = c.pos;
  reads = record {
    head = c;
    ops = a ∷ b ∷ [];
    tokens = refl;
    starts = h;
    pos = refl;
    operands = (a, b, refl, k, u, v);
  };
}
AllSay-Stands (InstCode.push s n) [] h = absurd h
AllSay-Stands (InstCode.push s n) (c ∷ []) h = absurd h.1
AllSay-Stands (InstCode.push s n) (c ∷ a ∷ []) h = absurd h.1.1
AllSay-Stands (InstCode.push s n) (c ∷ a ∷ b ∷ d ∷ its) h = absurd h.1.1.1
AllSay-Stands (InstCode.pop s n) (c ∷ a ∷ b ∷ []) (h, (k, ((u, v), _))) = record {
  pos = c.pos;
  reads = record {
    head = c;
    ops = a ∷ b ∷ [];
    tokens = refl;
    starts = h;
    pos = refl;
    operands = (a, b, refl, k, u, v);
  };
}
AllSay-Stands (InstCode.pop s n) [] h = absurd h
AllSay-Stands (InstCode.pop s n) (c ∷ []) h = absurd h.1
AllSay-Stands (InstCode.pop s n) (c ∷ a ∷ []) h = absurd h.1.1
AllSay-Stands (InstCode.pop s n) (c ∷ a ∷ b ∷ d ∷ its) h = absurd h.1.1.1
AllSay-Stands (InstCode.goto s) (c ∷ a ∷ []) (h, ((k, v), _)) = record {
  pos = c.pos;
  reads = record {
    head = c;
    ops = a ∷ [];
    tokens = refl;
    starts = h;
    pos = refl;
    operands = (a, refl, k, v);
  };
}
AllSay-Stands (InstCode.goto s) [] h = absurd h
AllSay-Stands (InstCode.goto s) (c ∷ []) h = absurd h.1
AllSay-Stands (InstCode.goto s) (c ∷ a ∷ d ∷ its) h = absurd h.1.1
AllSay-Stands (InstCode.if_goto s) (c ∷ a ∷ []) (h, ((k, v), _)) = record {
  pos = c.pos;
  reads = record {
    head = c;
    ops = a ∷ [];
    tokens = refl;
    starts = h;
    pos = refl;
    operands = (a, refl, k, v);
  };
}
AllSay-Stands (InstCode.if_goto s) [] h = absurd h
AllSay-Stands (InstCode.if_goto s) (c ∷ []) h = absurd h.1
AllSay-Stands (InstCode.if_goto s) (c ∷ a ∷ d ∷ its) h = absurd h.1.1
AllSay-Stands (InstCode.call s n) (c ∷ a ∷ b ∷ []) (h, ((k, w), ((u, v), _))) = record {
  pos = c.pos;
  reads = record {
    head = c;
    ops = a ∷ b ∷ [];
    tokens = refl;
    starts = h;
    pos = refl;
    operands = (a, b, refl, k, w, u, v);
  };
}
AllSay-Stands (InstCode.call s n) [] h = absurd h
AllSay-Stands (InstCode.call s n) (c ∷ []) h = absurd h.1
AllSay-Stands (InstCode.call s n) (c ∷ a ∷ []) h = absurd h.1.1
AllSay-Stands (InstCode.call s n) (c ∷ a ∷ b ∷ d ∷ its) h = absurd h.1.1.1
AllSay-Stands _ [] h = absurd h
AllSay-Stands _ (c ∷ d ∷ its) h = absurd h.1
AllSay-Stands _ (c ∷ []) h = record {
  pos = c.pos;
  reads = record { head = c; ops = []; tokens = refl; starts = h.0; pos = refl; operands = refl };
}

AllSay-append :
    (ss tt' : List Spaced) (its : List Token)
    → AllSay (ss ++ tt') its
    → (xs : List Token) × (ys : List Token) × (its ≡ xs ++ ys) × AllSay ss xs × AllSay tt' ys
AllSay-append [] tt' its h = ([], its, refl, tt, h)
AllSay-append (s ∷ ss) tt' [] h = absurd h
AllSay-append (s ∷ ss) tt' (it ∷ its) (h, k) =
    let (xs, ys, e, a, b) = AllSay-append ss tt' its k in
    (it ∷ xs, ys, ap (λ l. it ∷ l) e, (h, a), b)

-- Instructions that differ in their positions at most.
abbrev pub SameCodes : List Inst → List Inst → Type 0
SameCodes [] [] = Unit
SameCodes [] (j ∷ js) = ⊥
SameCodes (i ∷ is) [] = ⊥
SameCodes (i ∷ is) (j ∷ js) = (i.code ≡ j.code) × SameCodes is js

AllSay-AllRead :
    (is : List Inst) (its : List Token)
    → AreWritable is
    → AllSay (words is) its
    → (js : List Inst) × SameCodes is js × AllRead js its
AllSay-AllRead [] [] a h = ([], tt, refl)
AllSay-AllRead [] (it ∷ its) a h = absurd h
AllSay-AllRead (i ∷ is) its (w, a) h =
    let (xs, ys, e, first, rest) = AllSay-append (words_of i.code) (words is) its h in
    let here = AllSay-Stands i.code xs first in
    let (js, same, read) = AllSay-AllRead is ys a rest in
    (
      record { code = i.code; pos = here.pos } ∷ js,
      (refl, same),
      (xs, ys, e, writable-IsSource i.code w, here.reads, read),
    )

SameCodes-length : (is js : List Inst) → SameCodes is js → length js ≡ length is
SameCodes-length [] [] h = refl
SameCodes-length [] (j ∷ js) h = absurd h
SameCodes-length (i ∷ is) [] h = absurd h
SameCodes-length (i ∷ is) (j ∷ js) (e, h) = ap suc (SameCodes-length is js h)

written-length : (ss : List Spaced) → length ss ≤ length (written ss)
written-length [] = omega arith
written-length (s ∷ ss) =
    let more = length-append s.gap (written ss) in
    omega (
      arith,
      length-append (word_text s.word) (s.blank ∷ s.gap ++ written ss),
      more,
      written-length ss,
    )

-- What reading a file makes of it: the instructions up to their positions.
pub record ReadBack (st_block : ℕ) (is : List Inst) (st : SymbolTable) (pos : Pos) (v : Statics)
    : Type 0 where
  pub insts : List Inst
  pub same : SameCodes is insts
  pub tokens : List Token
  pub end : Pos
  pub vars : Statics
  pub outside : vars.inside_comment ≡ false
  pub scanned :
      scan_blk (length (source is)) (source is) pos (record { cells = []; vars = v })
      ≡ some (some 0, end, record { cells = tokens; vars = vars })
  pub parsed_back :
      parse st_block tokens [] st
      ≡ some (parsed (insts, record st { num_inst = st.num_inst + length is }))

-- Instructions that a source file can hold, with names of at most 24 characters that start with no
-- keyword and with numbers below 65536, written by `inst_str` on a line each, are scanned and parsed
-- back to the same instructions; the scanner leaves nothing of the text.
pub source-ReadBack :
    (st_block : ℕ) (is : List Inst) (st : SymbolTable) (pos : Pos) (v : Statics)
    → AreWritable is
    → v.inside_comment ≡ false
    → ReadBack st_block is st pos v
source-ReadBack st_block is st pos v a outside =
    let start : Output = record { cells = []; vars = v } in
    let text = words-source is a in
    let enough : length (words is) ≤ length (source is) =
      omega (arith, written-length (words is), ap (λ (t : List ℕ). length t) text) in
    let scans =
      scan_blk-written (length (source is)) (words is) pos start (words-AreSpaced is a) outside
        enough in
    let (js, same, read) = AllSay-AllRead is scans.tokens a scans.says in
    record {
      insts = js;
      same = same;
      tokens = scans.tokens;
      end = scans.end;
      vars = scans.vars;
      outside = scans.outside;
      scanned = ap (λ t. scan_blk (length (source is)) t pos start) (sym text) ∙ scans.run;
      parsed_back =
          parse-AllRead st_block js scans.tokens st read
          ∙ ap (λ n. some (parsed (js, record st { num_inst = st.num_inst + n })))
              (SameCodes-length is js same);
    }
