-- ===== src/Console.antt =====
-- src/msg.c and the C library's streams: what the program has written to the standard output,
-- the last character that `hvme_fputs` has noted, and the bytes still to be read from the
-- standard input.
use hvme.Prelude.{
  ℕ, zero, suc, ◌+◌, ◌/◌, ◌%◌, Bool, ◌||◌, ◌&&◌, List, [], ◌∷◌, ◌++◌, ltb, leb, ◌==◌, if◌then◌else◌,
}

pub record Io : Type 0 where
  pub stdin : List ℕ
  pub stdout : List ℕ
  pub last_stdout : ℕ

-- `s[len > 0 ? len - 1 : '\0']`; the character at index 0 of an empty text is its terminator.
unfoldable pub last_char : List ℕ → ℕ
last_char [] = 0
last_char (c ∷ []) = c
last_char (c ∷ d ∷ s) = last_char (d ∷ s)

-- `hvme_fputs(s, stdout)`
unfoldable pub hvme_fputs : List ℕ → Io → Io
unfolding last_char
hvme_fputs s io = record io { stdout = io.stdout ++ s; last_stdout = last_char s }

-- `hvme_fprintf(stdout, "%c", (char) val)`: the text ends at a null character.
unfoldable pub print_char : ℕ → Io → Io
print_char val = hvme_fputs (if val % 256 == 0 then [] else val % 256 ∷ [])

-- `%d` of a number below 10^(fuel + 1)
unfoldable pub decimal : ℕ → ℕ → List ℕ → List ℕ
decimal zero n acc = (48 + n % 10) ∷ acc
decimal (suc fuel) n acc =
    let rest = decimal fuel (n / 10) ((48 + n % 10) ∷ acc) in
    if ltb n 10 then (48 + n) ∷ acc else rest

unfoldable pub print_num : ℕ → Io → Io
unfolding decimal
print_num val = hvme_fputs (decimal 4 val [])

abbrev pub newline : ℕ
newline = b'\n'

-- Before an error message, and after a run without an error.
unfoldable pub clean_stdout : Io → Io
unfolding hvme_fputs
clean_stdout io =
    if io.last_stdout == newline || io.last_stdout == 0 then io else hvme_fputs (newline ∷ []) io

-- `isspace`, `isdigit` and `isalpha` in the C locale
unfoldable pub is_space : ℕ → Bool
is_space c = c == 32 || leb 9 c && leb c 13

unfoldable pub is_digit : ℕ → Bool
is_digit c = leb 48 c && leb c 57

unfoldable pub is_alpha : ℕ → Bool
is_alpha c = leb 65 c && leb c 90 || leb 97 c && leb c 122
