-- ===== src/Scan/Keywords.antt =====
-- src/scan.c: the keywords, as `token_str` spells them and as the scanner reads them.
use hvme.Prelude.{ℕ, ◌-◌, ◌≡◌, refl, some, List, [], ◌++◌, length, get_or}
use hvme.Text.{codes}
use hvme.Token.{TokenCode, Token, code}
use hvme.Console.{is_digit, is_alpha, is_space, decimal}
use hvme.Scan.{Statics, keyword, match_fns, token_codes}
use hvme.Scan.Match.{find}

-- `strs` of `token_str`
abbrev pub strs : TokenCode → List ℕ
strs TokenCode.none = codes "???"
strs TokenCode.push = codes "push"
strs TokenCode.pop = codes "pop"
strs TokenCode.arg = codes "argument"
strs TokenCode.loc = codes "local"
strs TokenCode.stat = codes "static"
strs TokenCode.const = codes "constant"
strs TokenCode.this = codes "this"
strs TokenCode.that = codes "that"
strs TokenCode.ptr = codes "pointer"
strs TokenCode.tmp = codes "temp"
strs TokenCode.uint = codes "num"
strs TokenCode.label = codes "label"
strs TokenCode.goto = codes "goto"
strs TokenCode.if_goto = codes "if-goto"
strs TokenCode.func = codes "function"
strs TokenCode.call = codes "call"
strs TokenCode.ret = codes "return"
strs TokenCode.add = codes "add"
strs TokenCode.sub = codes "sub"
strs TokenCode.neg = codes "neg"
strs TokenCode.eq = codes "eq"
strs TokenCode.gt = codes "gt"
strs TokenCode.lt = codes "lt"
strs TokenCode.and = codes "and"
strs TokenCode.or = codes "or"
strs TokenCode.not = codes "not"
strs TokenCode.ident = codes "ident"

spelled : TokenCode → Token → List ℕ
spelled TokenCode.uint it = decimal 4 it.uilit []
spelled TokenCode.ident it = it.ident ++ codes " (ident)"
spelled t it = strs t

-- `token_str`. The buffer has room for every text.
unfoldable pub token_str : Token → List ℕ
unfolding spelled decimal
token_str it = spelled it.t it

abbrev pub IsKeyword : TokenCode → Type 0
IsKeyword TokenCode.none = ⊥
IsKeyword TokenCode.uint = ⊥
IsKeyword TokenCode.ident = ⊥
IsKeyword _ = Unit

-- A keyword is found whatever comes behind it.
pub find-strs :
    (t : TokenCode) (text : List ℕ) (v : Statics)
    → IsKeyword t
    → find match_fns 0 (strs t ++ text) v
      ≡ some
          (record { fn_idx = code t - 1; fn = keyword (strs t); count = length (strs t); vars = v })
unfolding find is_digit is_space is_alpha
find-strs TokenCode.none text v h = absurd h
find-strs TokenCode.uint text v h = absurd h
find-strs TokenCode.ident text v h = absurd h
find-strs _ text v h = refl

-- `TokenCode(fn_idx) = fn_idx + 1`
pub token_codes-code : (t : TokenCode) → get_or token_codes (code t) TokenCode.none ≡ t
token_codes-code TokenCode.push = refl
token_codes-code _ = refl
