-- ===== src/Builtins/Strings.antt =====
-- src/exec.c: `exec_builtin_read_str` writes within the heap.
use hvme.Prelude.{
  ℕ, zero, suc, ◌+◌, ◌-◌, ◌≤◌, ◌<◌, ◌≡◌, ◌∙◌, refl, inl, inr, List, [], ◌∷◌, ltb, ◌==◌, Bool-cases,
  lt→ltb, not_ltb→le, arith, length, to_word,
}
use hvme.Exec.{Run, ok, err, Ends, Ends-bind, Ends-if, Ends-within}
use hvme.Stack.{Stack, spush, pop_word}
use hvme.Stack.Valid.{IsValid}
use hvme.Stack.Confined.{Confined, Confined-trans, PopConfined, spush-Ends, pop_word-Ends}
use hvme.Heap.{Heap, heap_set, mem_heap_size}
use hvme.Console.{Io, newline}
use hvme.Program.{Program}
use hvme.Builtins.{
  on_stack, push_value, get_line, write_chars, read_str_line, exec_builtin_read_str,
}

abbrev pub AllBytes : List ℕ → Type 0
AllBytes [] = Unit
AllBytes (c ∷ s) = (c < 256) × AllBytes s

-- The words of the heap are 16-bit.
abbrev pub HoldsWords : Heap → Type 0
HoldsWords h = (i : ℕ) → h.mem i < 65536

-- What reading a line changes: the frame on top of the stack, words of the heap, and what is left
-- of the standard input.
pub record LineRead (block : ℕ) (p q : Program) : Type 0 where
  pub stack : Confined block p.stack q.stack
  pub words : HoldsWords q.heap
  pub this : q.heap.this ≡ p.heap.this
  pub that : q.heap.that ≡ p.heap.that
  pub files : q.files ≡ p.files
  pub fi : q.fi ≡ p.fi
  pub bytes : AllBytes p.io.stdin → AllBytes q.io.stdin

get_line-AllBytes : (s : List ℕ) → AllBytes s → AllBytes (get_line s).0 × AllBytes (get_line s).1
unfolding get_line
get_line-AllBytes [] h = (tt, tt)
get_line-AllBytes (c ∷ s) (a, h) =
    let (line, rest) = get_line-AllBytes s h in
    elim (Bool-cases (c == newline)) [ inl t ↦ rw t ((a, tt), h) | inr t ↦ rw t ((a, line), rest) ]

-- A heap that differs from `h` in words.
abbrev WordsWritten : Heap → Heap → Type 0
WordsWritten h h' = HoldsWords h' × (h'.this ≡ h.this) × (h'.that ≡ h.that)

write_chars-Ends :
    (n addr : ℕ) (buf : List ℕ) (h : Heap)
    → addr + n ≤ 0x1000
    → AllBytes buf
    → HoldsWords h
    → Ends (WordsWritten h) (write_chars {S = Program} n addr buf h)
unfolding write_chars heap_set
write_chars-Ends zero addr buf h fit a words = (words, refl, refl)
write_chars-Ends (suc n) addr [] h fit a words = (words, refl, refl)
write_chars-Ends (suc n) addr (c ∷ buf) h fit (a, as') words =
    rw (lt→ltb addr 0x1000 (omega arith))
      (write_chars-Ends n (addr + 1) buf _ (omega arith) as' (λ i. ground (arith, words i)))

push_value-Ends :
    (block v : ℕ) (p : Program)
    → IsValid block p.stack
    → v < 65536
    → HoldsWords p.heap
    → Ends (LineRead block p) (push_value block v p)
unfolding push_value
push_value-Ends block v p w h words =
    Ends-bind (Confined block p.stack) (LineRead block p) (on_stack p (spush block v p.stack)) _
      (Ends-within _ _ (spush block v p.stack) (spush-Ends block v p.stack w h))
      (λ s q. record {
        stack = q;
        words = words;
        this = refl;
        that = refl;
        files = refl;
        fi = refl;
        bytes = λ b. b;
      })

read_str_line-Ends :
    (block addr : ℕ) (line : List ℕ) (p : Program)
    → IsValid block p.stack
    → AllBytes line
    → HoldsWords p.heap
    → Ends (LineRead block p) (read_str_line block addr line p)
unfolding read_str_line
read_str_line-Ends block addr [] p w a words = tt
read_str_line-Ends block addr (c ∷ line) p w a words =
    let n = length (c ∷ line) - 1 in
    Ends-if (LineRead block p) (ltb mem_heap_size (addr + n)) _ _ (λ _. tt)
      (λ t.
        Ends-bind (WordsWritten p.heap) (LineRead block p) (write_chars n addr (c ∷ line) p.heap) _
          (write_chars-Ends n addr (c ∷ line) p.heap (not_ltb→le mem_heap_size (addr + n) t) a
            words)
          (λ h (words', this, that).
            Ends-map h this that (push_value block (to_word n) (record p { heap = h }))
              (push_value-Ends block (to_word n) (record p { heap = h }) w (omega arith) words')))
  where
    Ends-map :
        (h : Heap)
        → h.this ≡ p.heap.this
        → h.that ≡ p.heap.that
        → (m : Run Program Program) → Ends (LineRead block (record p { heap = h })) m
        → Ends (LineRead block p) m
    Ends-map h this that (ok q) r = record {
      stack = r.stack;
      words = r.words;
      this = r.this ∙ this;
      that = r.that ∙ that;
      files = r.files;
      fi = r.fi;
      bytes = r.bytes;
    }
    Ends-map h this that (err e q) r = tt
    Ends-map h this that (Run.fault u) r = absurd r

-- On a valid stack, a heap of 16-bit words and any bytes in the standard input,
-- `exec_builtin_read_str` never faults: its check keeps every write within the heap. If it
-- succeeds, only the frame on top of the stack and words of the heap have changed and a part of the
-- standard input is gone; the stack is valid, and the heap holds 16-bit words.
pub read_str-Ends :
    (block : ℕ) (p : Program)
    → IsValid block p.stack
    → HoldsWords p.heap
    → AllBytes p.io.stdin
    → Ends (LineRead block p) (exec_builtin_read_str block p)
unfolding exec_builtin_read_str
read_str-Ends block p w words bytes =
    Ends-bind (PopConfined block p.stack) (LineRead block p) (on_stack p (pop_word block p.stack)) _
      (Ends-within _ _ (pop_word block p.stack) (pop_word-Ends block p.stack w))
      (λ r c.
        let (line, rest) = get_line-AllBytes p.io.stdin bytes in
        let q = record p { stack = r.1; io = record (p.io) { stdin = (get_line p.io.stdin).1 } } in
        after r.1 (record (p.io) { stdin = (get_line p.io.stdin).1 }) c.confined rest
          (read_str_line block r.0 (get_line p.io.stdin).0 q)
          (read_str_line-Ends block r.0 (get_line p.io.stdin).0 q c.confined.valid line words))
  where
    after :
        (s : Stack) (io : Io)
        → Confined block p.stack s
        → AllBytes io.stdin
        → (m : Run Program Program) → Ends (LineRead block (record p { stack = s; io = io })) m
        → Ends (LineRead block p) m
    after s io c rest (ok t) r = record {
      stack = Confined-trans c r.stack;
      words = r.words;
      this = r.this;
      that = r.that;
      files = r.files;
      fi = r.fi;
      bytes = λ _. r.bytes rest;
    }
    after s io c rest (err e t) r = tt
    after s io c rest (Run.fault u) r = absurd r
