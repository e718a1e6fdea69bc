-- ===== src/Parse/Errors.antt =====
-- src/parse.c, src/scan.c: the messages of the parser and of the scanner. Lines of a message are
-- texts, and `calloc` with `memset` is a list of one character.
use hvme.Prelude.{ℕ, ◌+◌, ◌-◌, Option, some, List, ◌∷◌, ◌++◌, leb, if◌then◌else◌, length, replicate}
use hvme.Text.{codes}
use hvme.Inst.{Ident, Pos}
use hvme.Token.{TokenCode, Token}
use hvme.Console.{newline}
use hvme.Table.{SymKey, SymVal}
use hvme.Message.{Streams, perrf, key_type_name, print_size}
use hvme.Scan.Keywords.{token_str}
use hvme.Parse.{TokenStream, its_next, is_code}

-- A part of the stream, from `ol` tokens before the current one to `or` tokens after it.
unfoldable pub its_slice : TokenStream → ℕ → ℕ → TokenStream
its_slice its ol or = record {
  tokens = its.tokens;
  idx = if leb its.idx ol then 0 else its.idx - ol;
  len = if leb (or + its.idx) its.len then or + its.idx else its.len;
}

-- A line with tokens, one of them marked by the line below it.
pub record Marked : Type 0 where
  pub pos : Pos
  pub line : List ℕ
  pub marks : List ℕ

abbrev pub space : ℕ
space = b' '

abbrev pub caret : ℕ
caret = b'^'

-- `spacer` and `pointer` below a text
abbrev pub below : ℕ → List ℕ → List ℕ
below c text = replicate (length text) c

-- The position of a token; behind the last token it is where the next one would be.
abbrev pub display_pos : Token → List ℕ → Token → Pos
display_pos prev_it prev it =
    if is_code it TokenCode.none
    then record { ln = prev_it.pos.ln; cl = prev_it.pos.cl + length prev + 1 }
    else it.pos

unfoldable pub expect3 : TokenStream → Marked
unfolding its_next token_str
expect3 its₀ =
    let (first_it, its₁) = its_next its₀ in
    let first = token_str first_it in
    let (second_it, its₂) = its_next its₁ in
    let second = token_str second_it in
    let (it, its₃) = its_next its₂ in
    let self = token_str it in
    record {
      pos = display_pos second_it second it;
      line = first ++ space ∷ (second ++ space ∷ self);
      marks = below space first ++ space ∷ (below space second ++ space ∷ below caret self);
    }

unfoldable pub expect2 : TokenStream → Marked
unfolding its_next token_str
expect2 its₀ =
    let (prev_it, its₁) = its_next its₀ in
    let prev = token_str prev_it in
    let (it, its₂) = its_next its₁ in
    let self = token_str it in
    let (next_it, its₃) = its_next its₂ in
    let next = token_str next_it in
    record {
      pos = display_pos prev_it prev it;
      line = prev ++ space ∷ (self ++ space ∷ next);
      marks = below space prev ++ space ∷ below caret self;
    }

unfoldable pub expect_ident : TokenStream → Marked
unfolding its_next token_str
expect_ident its₀ =
    let (ctrlflow_it, its₁) = its_next its₀ in
    let ctrlflow_str = token_str ctrlflow_it in
    let (no_ident, its₂) = its_next its₁ in
    let no_id_str = token_str no_ident in
    record {
      pos = display_pos ctrlflow_it ctrlflow_str no_ident;
      line = ctrlflow_str ++ space ∷ no_id_str;
      marks = below space ctrlflow_str ++ space ∷ below caret no_id_str;
    }

-- The message of these three; each line of the marked text starts with ` | `.
abbrev pub wrong_token : List ℕ → Marked → List ℕ
wrong_token expectation m =
    codes "wrong token, expected "
    ++ (expectation ++ newline ∷ (codes " | " ++ (m.line ++ newline ∷ (codes " | " ++ m.marks))))

module _ (no_color : Option (List ℕ)) (filename : Ident) where
  unfoldable pub print_multi_def_err : SymKey → SymVal → Pos → Streams → Streams
  unfolding perrf
  print_multi_def_err key val pos = perrf no_color (some filename) pos (
      codes "multiple definitions of the same "
      ++ (key_type_name key.type
          ++ (codes "."
              ++ newline
                ∷ (codes "  Won't enter `"
                    ++ (key.ident
                        ++ (codes "` starting at instruction "
                            ++ print_size (val.inst_addr + 1)))))))

  unfoldable pub print_expect3_err : TokenStream → List ℕ → Streams → Streams
  unfolding expect3 perrf
  print_expect3_err its expectation =
      let m = expect3 its in perrf no_color (some filename) m.pos (wrong_token expectation m)

  unfoldable pub print_expect2_err : TokenStream → List ℕ → Streams → Streams
  unfolding expect2 perrf
  print_expect2_err its expectation =
      let m = expect2 its in perrf no_color (some filename) m.pos (wrong_token expectation m)

  unfoldable pub print_ident_err : TokenStream → Streams → Streams
  unfolding expect_ident perrf
  print_ident_err its =
      let m = expect_ident its in
      perrf no_color (some filename) m.pos (wrong_token (codes "an identifier") m)

  unfoldable pub print_token_err : Token → Streams → Streams
  unfolding token_str perrf
  print_token_err it =
      perrf no_color (some filename) it.pos
        (codes "wrong start of instruction" ++ newline ∷ (codes " | " ++ token_str it))

  -- `blk` is what the scanner has not read.
  unfoldable pub scan_err : List ℕ → Pos → Streams → Streams
  unfolding perrf
  scan_err blk pos =
      perrf no_color (some filename) pos
        (codes "couldn't scan input" ++ newline ∷ (codes " `" ++ (blk ++ codes "`")))
