-- ===== src/Scan.antt =====
-- src/scan.c: the scanner, from the bytes of a block to tokens. `blk`, `len` and `offset` are the
-- list of the bytes from `offset` to `len`; characters are bytes, in the C locale. The texts of
-- messages and warnings are in Message and Parse/Errors.
pub mod Block
pub mod Match
pub mod Keywords
pub mod Rest
pub mod Progress
pub mod Comments
pub mod Words
pub mod Numbers
pub mod Names
pub mod Written
pub mod File
pub mod Reading
pub mod Prefix
pub mod Fits
pub mod Extend
pub mod Found
pub mod Whole
pub mod Joined
pub mod Split
pub mod Plain
pub mod Agree
pub mod Pieces
use hvme.Prelude.{
  ℕ, zero, suc, ◌+◌, ◌-◌, ◌*◌, ◌%◌, ◌^◌, Bool, true, false, ◌&&◌, ◌||◌, Option, none, some, List,
  [], ◌∷◌, ◌++◌, leb, ltb, ◌==◌, if◌then◌else◌, length, get_or, take, drop, replicate,
}
use hvme.Inst.{Ident, Pos}
use hvme.Console.{newline, is_space, is_digit, is_alpha}
use hvme.Token.{TokenCode, Token}
use hvme.Text.{codes}

abbrev pub max_ident_len : ℕ
max_ident_len = 24

-- The static variables of the file. `ident_buf` is the text before its terminator.
pub record Statics : Type 0 where
  pub uilit : ℕ
  pub ident_buf : Ident
  pub inside_comment : Bool

-- The rest of the block, and the position `tokens->cur`.
pub record Cursor : Type 0 where
  pub text : List ℕ
  pub pos : Pos

-- `incby` on `unsigned int cl`; `inc` is `incby 1`.
unfoldable pub incby : ℕ → Cursor → Cursor
incby n c = record {
  text = drop n c.text;
  pos = record { ln = c.pos.ln; cl = (c.pos.cl + n) % 2 ^ 32 };
}

unfoldable pub inc : Cursor → Cursor
unfolding incby
inc c = incby 1 c

unfoldable pub incl : Cursor → Cursor
incl c = record { text = drop 1 c.text; pos = record { ln = (c.pos.ln + 1) % 2 ^ 32; cl = 0 } }

-- `strncmp(text, search, strlen(search)) == 0`
unfoldable pub starts_with : List ℕ → List ℕ → Bool
starts_with [] text = true
starts_with (s ∷ search) [] = false
starts_with (s ∷ search) (c ∷ text) = c == s && starts_with search text

-- `none` is every result but `TOKEN_COMPLETED`.
unfoldable pub static_scan : List ℕ → Cursor → Option Cursor
unfolding starts_with
static_scan search c =
    if ltb (length c.text) (length search)
    then none
    else if starts_with search c.text
    then some (incby (length search) c)
    else none

-- The values of the first digits, at most `n`.
digits : ℕ → List ℕ → List ℕ
digits zero text = []
digits (suc n) [] = []
digits (suc n) (c ∷ text) = let rest = digits n text in if is_digit c then (c - 48) ∷ rest else []

-- The `switch` on the number of digits.
number : List ℕ → ℕ
number (a ∷ []) = a
number (a ∷ b ∷ []) = b + a * 10
number (a ∷ b ∷ c ∷ []) = c + b * 10 + a * 100
number (a ∷ b ∷ c ∷ d ∷ []) = d + c * 10 + b * 100 + a * 1000
number (a ∷ b ∷ c ∷ d ∷ e ∷ []) = e + d * 10 + c * 100 + b * 1000 + a * 10000
number _ = 0

-- Is there a character, and is it white space?
pub starts_blank : List ℕ → Bool
starts_blank [] = false
starts_blank (c ∷ text) = is_space c

saturate : ℕ → ℕ
saturate n = if ltb 65535 n then 65535 else n

-- `_uint`
unfoldable pub uint : Cursor → Statics → Option (Cursor × Statics)
unfolding digits number starts_blank saturate
uint c v =
    let nums = digits 5 c.text in
    let n = length nums in
    if starts_blank (drop n c.text)
    then (if n == 0 then none else some (incby n c, record v { uilit = saturate (number nums) }))
    else none

-- `[A-Za-z_\.:]`
unfoldable pub is_ident_start : ℕ → Bool
is_ident_start c = is_alpha c || c == b'_' || c == b'.' || c == b':'

unfoldable pub is_ident_char : ℕ → Bool
unfolding is_ident_start
is_ident_char c = is_digit c || is_ident_start c

-- The number of characters that the loop of `ident` passes.
count_ident : List ℕ → ℕ
count_ident [] = 0
count_ident (c ∷ text) = let rest = suc (count_ident text) in if is_ident_char c then rest else 0

-- The terminator is put behind `nchars` characters, or `MAX_IDENT_LEN`.
cut : ℕ → ℕ
cut nchars = if leb max_ident_len nchars then max_ident_len else nchars

ident_from : List ℕ → Cursor → Statics → Option (Cursor × Statics)
ident_from [] c v = none
ident_from (a ∷ text) c v =
    let nchars = suc (count_ident text) in
    if is_ident_start a
    then (if starts_blank (drop nchars c.text)
        then some (incby nchars c, record v { ident_buf = take (cut nchars) c.text })
        else none)
    else none

unfoldable pub ident : Cursor → Statics → Option (Cursor × Statics)
unfolding ident_from is_ident_start is_ident_char count_ident cut starts_blank
ident c v = ident_from c.text c v

-- The functions that `match_fns` points to: the 24 that call `static_scan` with a keyword, `_uint`,
-- `ident` and `comment`.
pub data ScanFn : Type 0 where
  keyword : List ℕ → ScanFn
  scan_uint scan_ident comment : ScanFn

-- `push` to `temp`
abbrev pub memory_fns : List ScanFn
memory_fns =
    keyword (codes "push")
    ∷ keyword (codes "pop")
    ∷ keyword (codes "argument")
    ∷ keyword (codes "local")
    ∷ keyword (codes "static")
    ∷ keyword (codes "constant")
    ∷ keyword (codes "this")
    ∷ keyword (codes "that")
    ∷ keyword (codes "pointer")
    ∷ keyword (codes "temp")
    ∷ []

-- `label` to `not`
abbrev pub control_fns : List ScanFn
control_fns =
    keyword (codes "label")
    ∷ keyword (codes "goto")
    ∷ keyword (codes "if-goto")
    ∷ keyword (codes "function")
    ∷ keyword (codes "call")
    ∷ keyword (codes "return")
    ∷ keyword (codes "add")
    ∷ keyword (codes "sub")
    ∷ keyword (codes "neg")
    ∷ keyword (codes "eq")
    ∷ keyword (codes "gt")
    ∷ keyword (codes "lt")
    ∷ keyword (codes "and")
    ∷ keyword (codes "or")
    ∷ keyword (codes "not")
    ∷ []

-- The array without its last element `NULL`.
abbrev pub match_fns : List ScanFn
match_fns = memory_fns ++ scan_uint ∷ control_fns ++ scan_ident ∷ comment ∷ []

-- A call that leaves the static variables alone.
abbrev pub with_vars : Statics → Option Cursor → Option (Cursor × Statics)
with_vars v none = none
with_vars v (some c) = some (c, v)

-- `match_fns[fn_idx](blk, len, &offset, &tokens->cur)`
unfoldable pub run_fn : ScanFn → Cursor → Statics → Option (Cursor × Statics)
unfolding static_scan uint ident
run_fn (keyword search) c v = with_vars v (static_scan search c)
run_fn scan_uint c v = uint c v
run_fn scan_ident c v = ident c v
run_fn comment c v = with_vars v (static_scan (codes "//") c)

-- What the inner loop of `scan_blk` leaves behind when a function has completed.
pub record Matched : Type 0 where
  pub fn_idx : ℕ
  pub fn : ScanFn
  pub after : Cursor
  pub vars : Statics

-- The inner loop of `scan_blk`; `none` is `match_fns[fn_idx] == NULL`.
unfoldable pub first_match : List ScanFn → ℕ → Cursor → Statics → Option Matched
unfolding run_fn
first_match [] fn_idx c v = none
first_match (f ∷ fs) fn_idx c v = elim (run_fn f c v) [
  | none ↦ first_match fs (suc fn_idx) c v
  | some (c', v') ↦ some (record { fn_idx = fn_idx; fn = f; after = c'; vars = v' })
]

-- The token codes, each at its value.
abbrev pub token_codes : List TokenCode
token_codes =
    TokenCode.none ∷ TokenCode.push ∷ TokenCode.pop ∷ TokenCode.arg ∷ TokenCode.loc ∷ TokenCode.stat
    ∷ TokenCode.const ∷ TokenCode.this ∷ TokenCode.that ∷ TokenCode.ptr ∷ TokenCode.tmp
    ∷ TokenCode.uint ∷ TokenCode.label ∷ TokenCode.goto ∷ TokenCode.if_goto ∷ TokenCode.func
    ∷ TokenCode.call ∷ TokenCode.ret ∷ TokenCode.add ∷ TokenCode.sub ∷ TokenCode.neg ∷ TokenCode.eq
    ∷ TokenCode.gt ∷ TokenCode.lt ∷ TokenCode.and ∷ TokenCode.or ∷ TokenCode.not ∷ TokenCode.ident
    ∷ []

-- The token, and the static variables after it has been made.
unfoldable pub token_from_fn : ℕ → Pos → Statics → Token × Statics
token_from_fn fn_idx pos v = (
  record {
    t = get_or token_codes (fn_idx + 1) TokenCode.none;
    pos = pos;
    uilit = v.uilit;
    ident = v.ident_buf;
  },
  record v { uilit = 0; ident_buf = replicate max_ident_len b' ' },
)
