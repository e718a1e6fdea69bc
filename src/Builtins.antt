-- ===== src/Builtins.antt =====
-- src/exec.c: the builtin instructions, with the parts of the C library that they call:
-- `getchar`, `scanf("%u")` and `getline` on the bytes of the standard input.
pub mod Numbers
pub mod Strings
pub mod Left
pub mod Served
pub mod Local
use hvme.Prelude.{
  ℕ, zero, suc, ◌+◌, ◌-◌, ◌*◌, ◌%◌, ◌^◌, Bool, true, false, Option, none, some, List, [], ◌∷◌, ltb,
  leb, ◌==◌, if◌then◌else◌, to_word, length,
}
use hvme.Exec.{
  Run, ok, err, fault, ◌>>=◌, within, endless, conversion, read_io, read_num_char,
  read_num_overflow, heap_addr_overflow,
}
use hvme.Stack.{Stack, spush, pop_word}
use hvme.Heap.{Heap, heap_get, heap_set, mem_heap_size}
use hvme.Console.{Io, print_char, print_num, newline, is_space, is_digit}
use hvme.Program.{Program}

abbrev pub on_stack : {A : Type 0} → Program → Run Stack A → Run Program A
on_stack p = within (λ s. record p { stack = s })

-- `spush(&prog->stack, v)`
push_value : ℕ → ℕ → Program → Run Program Program
push_value block v p = do s ← on_stack p (spush block v p.stack); ok (record p { stack = s })

unfoldable pub exec_builtin_print_char : ℕ → Program → Run Program Program
exec_builtin_print_char block p = do
  (val, s) ← on_stack p (pop_word block p.stack)
  ok (record p { stack = s; io = print_char val p.io })

unfoldable pub exec_builtin_print_num : ℕ → Program → Run Program Program
exec_builtin_print_num block p = do
  (val, s) ← on_stack p (pop_word block p.stack)
  ok (record p { stack = s; io = print_num val p.io })

-- The loop over `i`; the address is converted to `Addr`.
unfoldable pub print_from : ℕ → ℕ → Program → Run Program Program
print_from addr zero p = ok p
print_from addr (suc n) p = do
  c ← heap_get p.heap (to_word addr)
  print_from (addr + 1) n (record p { io = print_char c p.io })

unfoldable pub exec_builtin_print_str : ℕ → Program → Run Program Program
unfolding print_from
exec_builtin_print_str block p = do
  (str_start, s) ← on_stack p (pop_word block p.stack)
  let q = record p { stack = s }
  (nchars, t) ← on_stack q (pop_word block s)
  print_from str_start nchars (record q { stack = t })

-- `getchar()`; `EOF` is -1, as a `Word` 65535.
unfoldable pub get_char : Io → ℕ × Io
get_char io = elim io.stdin [ [] ↦ (65535, io) | c ∷ rest ↦ (c, record io { stdin = rest }) ]

unfoldable pub exec_builtin_read_char : ℕ → Program → Run Program Program
unfolding push_value get_char
exec_builtin_read_char block p =
    let (ch, io) = get_char p.io in push_value block ch (record p { io = io })

-- `scanf("%u", &num)`: white space, an optional sign, decimal digits. Without a digit nothing is
-- stored, and the bytes that fit so far are gone. C leaves a number that does not fit undefined.
pub data Scanned : Type 0 where
  at_eof : Scanned
  no_match : List ℕ → Scanned
  scanned : ℕ → List ℕ → Scanned
  too_big : Scanned

skip_space : List ℕ → List ℕ
skip_space [] = []
skip_space (c ∷ s) = let rest = skip_space s in if is_space c then rest else c ∷ s

scan_digits : ℕ → List ℕ → ℕ × List ℕ
scan_digits n [] = (n, [])
scan_digits n (c ∷ s) =
    let rest = scan_digits (n * 10 + (c - 48)) s in if is_digit c then rest else (n, c ∷ s)

scan_unsigned : Bool → List ℕ → Scanned
unfolding scan_digits
scan_unsigned negative [] = no_match []
scan_unsigned negative (c ∷ s) =
    let (n, rest) = scan_digits 0 (c ∷ s) in
    if is_digit c
    then if leb (2 ^ 32) n
      then too_big
      else scanned (if negative then (2 ^ 32 - n) % 2 ^ 32 else n) rest
    else no_match (c ∷ s)

scan_sign : List ℕ → Scanned
unfolding scan_unsigned
scan_sign [] = at_eof
scan_sign (c ∷ s) =
    if c == b'-'
    then scan_unsigned true s
    else if c == b'+'
    then scan_unsigned false s
    else scan_unsigned false (c ∷ s)

unfoldable pub scanf_u : List ℕ → Scanned
unfolding skip_space scan_sign
scanf_u s = scan_sign (skip_space s)

-- `while (c != '\n') c = fgetc(stdin);` never ends at the end of the input, where `fgetc` goes on
-- returning `EOF`: `none`.
unfoldable pub skip_line : List ℕ → Option (List ℕ)
skip_line [] = none
skip_line (c ∷ s) = let rest = skip_line s in if c == newline then some s else rest

read_num_from : ℕ → Scanned → Program → Run Program Program
unfolding push_value skip_line
read_num_from block at_eof p = err read_io (record p { io = record (p.io) { stdin = [] } })
read_num_from block (no_match s) p = elim (skip_line s) [
  | none ↦ fault endless
  | some rest ↦ err read_num_char (record p { io = record (p.io) { stdin = rest } })
]
read_num_from block (scanned n s) p =
    let q = record p { io = record (p.io) { stdin = s } } in
    if ltb 65535 n then err (read_num_overflow n) q else push_value block (to_word n) q
read_num_from block too_big p = fault conversion

unfoldable pub exec_builtin_read_num : ℕ → Program → Run Program Program
unfolding scanf_u read_num_from
exec_builtin_read_num block p = read_num_from block (scanf_u p.io.stdin) p

-- `getline`: the bytes up to a newline, the newline with them, or up to the end of the input.
unfoldable pub get_line : List ℕ → List ℕ × List ℕ
get_line [] = ([], [])
get_line (c ∷ s) =
    let (line, rest) = get_line s in if c == newline then (c ∷ [], s) else (c ∷ line, rest)

-- `(Word) buf[i]` of a signed `char`
abbrev pub char_word : ℕ → ℕ
char_word c = if ltb c 128 then c else c + 65280

-- `for (i = 0; i < nread; i++) heap.mem[heap_addr + i] = (Word) buf[i];`
unfoldable pub write_chars : {S : Type 0} → ℕ → ℕ → List ℕ → Heap → Run S Heap
write_chars zero addr buf h = ok h
write_chars (suc n) addr [] h = ok h
write_chars (suc n) addr (c ∷ buf) h =
    heap_set h addr (char_word c) >>= λ h'. write_chars n (addr + 1) buf h'

read_str_line : ℕ → ℕ → List ℕ → Program → Run Program Program
unfolding push_value write_chars
read_str_line block heap_addr [] p = err read_io p
read_str_line block heap_addr (c ∷ line) p =
    let nread = length (c ∷ line) - 1 in
    if ltb mem_heap_size (heap_addr + nread)
    then err (heap_addr_overflow (heap_addr + nread)) p
    else (do
      h ← write_chars nread heap_addr (c ∷ line) p.heap
      push_value block (to_word nread) (record p { heap = h }))

unfoldable pub exec_builtin_read_str : ℕ → Program → Run Program Program
unfolding read_str_line get_line
exec_builtin_read_str block p = do
  (heap_addr, s) ← on_stack p (pop_word block p.stack)
  let (line, rest) = get_line p.io.stdin
  read_str_line block heap_addr line (record p { stack = s; io = record (p.io) { stdin = rest } })
