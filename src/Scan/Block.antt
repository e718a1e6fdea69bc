-- ===== src/Scan/Block.antt =====
-- src/scan.c: `scan_blk`, with `eat_ws` and `num_trailing`.
use hvme.Prelude.{
  ℕ, zero, suc, ◌+◌, Option, none, some, List, [], ◌∷◌, ◌++◌, ◌==◌, if◌then◌else◌, true, false,
  Bool,
}
use hvme.Inst.{Pos}
use hvme.Console.{newline, is_space}
use hvme.Token.{Token}
use hvme.Scan.{
  Statics, Cursor, inc, incl, ScanFn, comment, match_fns, Matched, first_match, token_from_fn,
}

-- `eat_ws`, whose result nothing reads
unfoldable pub eat_ws_from : List ℕ → Pos → Cursor
unfolding inc incl
eat_ws_from [] pos = record { text = []; pos = pos }
eat_ws_from (c ∷ text) pos =
    let here : Cursor = record { text = c ∷ text; pos = pos } in
    let rest = eat_ws_from text (if c == newline then incl here else inc here).pos in
    if is_space c then rest else here

abbrev pub eat_ws : Cursor → Cursor
eat_ws c = eat_ws_from c.text c.pos

-- `none` is `INTERNAL_SCAN_ERR`.
unfoldable pub num_trailing : ℕ → List ℕ → Option ℕ
num_trailing offset [] = some offset
num_trailing offset (c ∷ text) =
    let rest = num_trailing (offset + 1) text in if is_space c then none else rest

-- `tokens`, without its position, and the static variables.
pub record Output : Type 0 where
  pub cells : List Token
  pub vars : Statics

-- How a round of the loop of `scan_blk` ends: the loop goes on, or it returns `num_trailing`.
pub data Round : Type 0 where
  more : Cursor → Output → Round
  return : Option ℕ → Cursor → Output → Round

abbrev pub is_comment : ScanFn → Bool
is_comment comment = true
is_comment _ = false

-- The character `ch` of a comment is at the cursor.
unfoldable pub in_comment : ℕ → Cursor → Output → Round
in_comment ch c o =
    if ch == newline
    then more (incl c) (record o { vars = record (o.vars) { inside_comment = false } })
    else more (inc c) o

-- A function has completed; the token started at `start`.
unfoldable pub completed : Pos → Matched → Output → Round
completed start m o =
    if is_comment m.fn
    then more (eat_ws m.after) (record o { vars = record (m.vars) { inside_comment = true } })
    else (let (token, vars) = token_from_fn m.fn_idx start m.vars in
        more (eat_ws m.after) (record { cells = o.cells ++ token ∷ []; vars = vars }))

unfoldable pub no_comment : Cursor → Output → Round
unfolding completed
no_comment c o = elim (first_match match_fns 0 c o.vars) [
  | none ↦ return (num_trailing 0 c.text) c o
  | some m ↦ completed c.pos m o
]

-- A round at a character `ch`.
unfoldable pub round : ℕ → Cursor → Output → Round
unfolding in_comment no_comment
round ch c o = if o.vars.inside_comment then in_comment ch c o else no_comment (eat_ws c) o

-- `scan_blk` on fuel: its result, the position and the output. Each round takes a character.
unfoldable pub scan_blk : ℕ → List ℕ → Pos → Output → Option (Option ℕ × Pos × Output)
unfolding round
scan_blk fuel [] pos o = some (some 0, pos, o)
scan_blk zero (ch ∷ text) pos o = none
scan_blk (suc fuel) (ch ∷ text) pos o = elim (round ch (record { text = ch ∷ text; pos = pos }) o) [
  | more c o' ↦ scan_blk fuel c.text c.pos o'
  | return r c o' ↦ some (r, c.pos, o')
]
