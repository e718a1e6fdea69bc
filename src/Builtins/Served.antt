-- ===== src/Builtins/Served.antt =====
-- src/exec.c: the builtin instructions keep the invariant of the program.
use hvme.Prelude.{
  ℕ, zero, suc, ◌+◌, ◌-◌, ◌≤◌, ◌<◌, ◌≡◌, ◌∙◌, refl, ap, sym, some, List, [], ◌∷◌, ltb, lt→ltb,
  arith, length, to_word,
}
use hvme.Exec.{Run, ◌>>=◌, Ends, Ends-bind, Ends-if, Ends-within, Ends-weaken, Ends-option}
use hvme.Stack.{Stack, spush, pop_word}
use hvme.Stack.Valid.{IsValid}
use hvme.Stack.Confined.{Confined, Confined-refl, PopConfined, spush-Ends, pop_word-Ends}
use hvme.Heap.{heap_get}
use hvme.Console.{Io, hvme_fputs, print_char, print_num}
use hvme.Program.{Program}
use hvme.Machine.Sound.{WideProgram, Quiet, Quiet-refl, Quiet-trans}
use hvme.Builtins.Strings.{AllBytes, LineRead, read_str-Ends}
use hvme.Builtins.Left.{CanScan, Leaves, scanf_u-Leaves}
use hvme.Builtins.{
  on_stack, push_value, exec_builtin_print_char, exec_builtin_print_num, print_from,
  exec_builtin_print_str, get_char, exec_builtin_read_char, Scanned, at_eof, no_match, scanned,
  too_big, scanf_u, skip_line, read_num_from, exec_builtin_read_num, exec_builtin_read_str,
}

-- Another stack and other streams.
with_io : Stack → Io → Program → Program
with_io s io p = record p { stack = s; io = io }

with_io-Quiet :
    (block : ℕ) (p : Program) (s : Stack) (io : Io)
    → WideProgram p
    → Confined block p.stack s
    → AllBytes io.stdin
    → Quiet block p (with_io s io p)
unfolding with_io
with_io-Quiet block p s io h c b = record {
  stack = c;
  nfiles = refl;
  wide = record { running = h.running; memory = h.memory; heap = h.heap; bytes = b };
}

push_value-Quiet :
    (block v : ℕ) (p : Program)
    → IsValid block p.stack
    → WideProgram p
    → v < 65536
    → Ends (Quiet block p) (push_value block v p)
unfolding push_value with_io
push_value-Quiet block v p w h a =
    Ends-bind (Confined block p.stack) (Quiet block p) (on_stack p (spush block v p.stack)) _
      (Ends-within _ _ (spush block v p.stack) (spush-Ends block v p.stack w a))
      (λ s c. with_io-Quiet block p s p.io h c h.bytes)

-- A value is pushed on a program that the instruction has already changed.
push_after :
    (block v : ℕ) (p q : Program)
    → Quiet block p q
    → v < 65536
    → Ends (Quiet block p) (push_value block v q)
push_after block v p q a b =
    Ends-weaken (Quiet block q) (Quiet block p) (push_value block v q)
      (push_value-Quiet block v q a.stack.valid a.wide b) (λ r c. Quiet-trans a c)

module _ (block : ℕ) (p : Program) (w : IsValid block p.stack) (h : WideProgram p) where
  popping :
      (f : ℕ × Stack → Run Program Program)
      → ((r : ℕ × Stack) → PopConfined block p.stack r → Ends (Quiet block p) (f r))
      → Ends (Quiet block p) (on_stack p (pop_word block p.stack) >>= f)
  popping f k =
      Ends-bind (PopConfined block p.stack) (Quiet block p) (on_stack p (pop_word block p.stack)) f
        (Ends-within _ _ (pop_word block p.stack) (pop_word-Ends block p.stack w)) k

  pub print_char-Ends : Ends (Quiet block p) (exec_builtin_print_char block p)
  unfolding exec_builtin_print_char with_io print_char hvme_fputs
  print_char-Ends = popping _ (λ r c. with_io-Quiet block p r.1 _ h c.confined h.bytes)

  pub print_num-Ends : Ends (Quiet block p) (exec_builtin_print_num block p)
  unfolding exec_builtin_print_num with_io print_num hvme_fputs
  print_num-Ends = popping _ (λ r c. with_io-Quiet block p r.1 _ h c.confined h.bytes)

  got :
      (s : List ℕ) (io : Io)
      → AllBytes s
      → ((get_char (record io { stdin = s })).0 < 65536)
        × AllBytes (get_char (record io { stdin = s })).1.stdin
  unfolding get_char
  got [] io a = (omega arith, tt)
  got (c ∷ s) io (a, b) = (omega arith, b)

  pub read_char-Ends : Ends (Quiet block p) (exec_builtin_read_char block p)
  unfolding exec_builtin_read_char with_io
  read_char-Ends =
      let (word, bytes) = got p.io.stdin p.io h.bytes in
      push_after block _ p _ (with_io-Quiet block p p.stack _ h (Confined-refl w) bytes) word

-- Reading a line, in terms of the whole program.
LineRead-Quiet : (block : ℕ) (p q : Program) → WideProgram p → LineRead block p q → Quiet block p q
LineRead-Quiet block p q h r = record {
  stack = r.stack;
  nfiles = ap length r.files;
  wide = record {
    running = rw (r.files, r.fi) h.running;
    memory = rw r.files h.memory;
    heap = record {
      words = r.words;
      this = omega (arith, r.this, h.heap.this);
      that = omega (arith, r.that, h.heap.that);
    };
    bytes = r.bytes h.bytes;
  };
}

pub read_str-Quiet :
    (block : ℕ) (p : Program)
    → IsValid block p.stack
    → WideProgram p
    → Ends (Quiet block p) (exec_builtin_read_str block p)
read_str-Quiet block p w h =
    Ends-weaken (LineRead block p) (Quiet block p) (exec_builtin_read_str block p)
      (read_str-Ends block p w h.heap.words h.bytes) (λ q r. LineRead-Quiet block p q h r)

-- The two words on top are an address and a length within the heap.
abbrev pub PrintsInside : Stack → Type 0
PrintsInside s = (a n : ℕ) → s.ops (s.sp - 1) ≡ some a → s.ops (s.sp - 2) ≡ some n → a + n ≤ 0x1000

print_from-Quiet :
    (block addr n : ℕ) (p : Program)
    → IsValid block p.stack
    → WideProgram p
    → addr + n ≤ 0x1000
    → Ends (Quiet block p) (print_from addr n p)
unfolding print_from heap_get with_io print_char hvme_fputs
print_from-Quiet block addr zero p w h a = Quiet-refl w h
print_from-Quiet block addr (suc n) p w h a =
    let c = print_char (p.heap.mem (to_word addr)) p.io in
    let q = record p { io = c } in
    let quiet = with_io-Quiet block p p.stack c h (Confined-refl w) h.bytes in
    rw (lt→ltb (to_word addr) 0x1000 (omega arith)) (
      Ends-weaken (Quiet block q) (Quiet block p) (print_from (addr + 1) n q)
        (print_from-Quiet block (addr + 1) n q w quiet.wide (omega arith))
        (λ r b. Quiet-trans quiet b))

module _ (block : ℕ) (p : Program) (w : IsValid block p.stack) (h : WideProgram p) where
  read_num_from-Quiet :
      (r : Scanned) → Leaves r → CanScan r → Ends (Quiet block p) (read_num_from block r p)
  unfolding read_num_from with_io
  read_num_from-Quiet at_eof a b = tt
  read_num_from-Quiet (no_match s) a b =
      Ends-option (Quiet block p) (skip_line s) _ _ (λ e. absurd (b e)) (λ rest e. tt)
  read_num_from-Quiet (scanned n s) a b =
      let io = record (p.io) { stdin = s } in
      Ends-if (Quiet block p) (ltb 65535 n) _ _ (λ _. tt)
        (λ t.
          push_after block (to_word n) p (record p { io = io })
            (with_io-Quiet block p p.stack io h (Confined-refl w) a) (omega arith))
  read_num_from-Quiet too_big a b = absurd b

  pub read_num-Quiet :
      CanScan (scanf_u p.io.stdin) → Ends (Quiet block p) (exec_builtin_read_num block p)
  unfolding exec_builtin_read_num
  read_num-Quiet b = read_num_from-Quiet (scanf_u p.io.stdin) (scanf_u-Leaves p.io.stdin h.bytes) b

  -- The second word is popped from the program `q`.
  printing :
      (r : ℕ × Stack)
      → PrintsInside p.stack
      → PopConfined block p.stack r
      → Ends (Quiet block p) (
          on_stack (record p { stack = r.1 }) (pop_word block r.1) >>= λ t.
          print_from r.0 t.0 (record p { stack = t.1 }))
  unfolding with_io
  printing r b c =
      let q : Program = record p { stack = r.1 } in
      let quiet : Quiet block p q = with_io-Quiet block p r.1 p.io h c.confined h.bytes in
      Ends-weaken (Quiet block q) (Quiet block p) _
        (popping block q c.confined.valid quiet.wide _ (λ t d.
          let first : p.stack.ops (p.stack.sp - 1) ≡ some r.0 =
            ap p.stack.ops (omega (arith, c.height)) ∙ c.top in
          let second : p.stack.ops (p.stack.sp - 2) ≡ some t.0 =
            ap p.stack.ops (omega (arith, c.height, d.height))
            ∙ sym (c.below t.1.sp (omega (arith, d.height)))
            ∙ d.top in
          let last = with_io-Quiet block q t.1 p.io quiet.wide d.confined h.bytes in
          Ends-weaken (Quiet block (record q { stack = t.1 })) (Quiet block q) _
            (print_from-Quiet block r.0 t.0 (record q { stack = t.1 }) d.confined.valid last.wide
              (b r.0 t.0 first second))
            (λ u e. Quiet-trans last e)))
        (λ u e. Quiet-trans quiet e)

  pub print_str-Quiet : PrintsInside p.stack → Ends (Quiet block p) (exec_builtin_print_str block p)
  unfolding exec_builtin_print_str
  print_str-Quiet b = popping block p w h _ (λ r c. printing r b c)
