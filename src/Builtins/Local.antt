-- ===== src/Builtins/Local.antt =====
-- src/exec.c: the builtin instructions leave the files of the program alone.
use hvme.Prelude.{
  ℕ, zero, suc, ◌+◌, ◌-◌, ◌≡◌, refl, Option, none, some, List, [], ◌∷◌, Bool, true, false, ltb,
  if◌then◌else◌, length, to_word,
}
use hvme.Exec.{Run, err, fault, endless, read_num_char, ◌>>=◌, Gives, Gives-all, Gives-bind}
use hvme.Stack.{spush, pop_word}
use hvme.Heap.{heap_get, mem_heap_size}
use hvme.Console.{print_char}
use hvme.Program.{Program}
use hvme.Builtins.{
  on_stack, push_value, exec_builtin_print_char, exec_builtin_print_num, print_from,
  exec_builtin_print_str, get_char, exec_builtin_read_char, Scanned, at_eof, no_match, scanned,
  too_big, scanf_u, skip_line, read_num_from, exec_builtin_read_num, get_line, write_chars,
  read_str_line, exec_builtin_read_str,
}

-- `q` has the files of `p`, with the same one active.
abbrev pub SameFiles : Program → Program → Type 0
SameFiles p q = (q.files ≡ p.files) × (q.fi ≡ p.fi)

pub Gives-if :
    {S A : Type 0} (P : A → Type 0) (c : Bool) (m n : Run S A)
    → Gives P m
    → Gives P n
    → Gives P (if c then m else n)
Gives-if P true m n h k = h
Gives-if P false m n h k = k

-- A value whose computation does not matter.
pub after :
    {S A B : Type 0} (P : B → Type 0) (m : Run S A) (f : A → Run S B)
    → ((a : A) → Gives P (f a))
    → Gives P (m >>= f)
after P m f k = Gives-bind (λ _. Unit) P m f (Gives-all (λ _. Unit) m (λ a. tt)) (λ a h. k a)

module _ (block : ℕ) where
  push_value-SameFiles : (v : ℕ) (p : Program) → Gives (SameFiles p) (push_value block v p)
  unfolding push_value
  push_value-SameFiles v p =
      after (SameFiles p) (on_stack p (spush block v p.stack)) _ (λ s. (refl, refl))

  print_from-SameFiles : (addr n : ℕ) (p : Program) → Gives (SameFiles p) (print_from addr n p)
  unfolding print_from
  print_from-SameFiles addr zero p = (refl, refl)
  print_from-SameFiles addr (suc n) p =
      after (SameFiles p) (heap_get p.heap (to_word addr)) _
        (λ c. print_from-SameFiles (addr + 1) n (record p { io = print_char c p.io }))

  read_num_from-SameFiles :
      (r : Scanned) (p : Program) → Gives (SameFiles p) (read_num_from block r p)
  unfolding read_num_from
  read_num_from-SameFiles at_eof p = tt
  read_num_from-SameFiles (no_match s) p = line_end (skip_line s)
    where
      line_end :
          (o : Option (List ℕ))
          → Gives (SameFiles p) (elim o [
            | none ↦ fault endless
            | some rest ↦ err read_num_char (record p { io = record (p.io) { stdin = rest } })
          ])
      line_end none = tt
      line_end (some rest) = tt
  read_num_from-SameFiles (scanned n s) p =
      Gives-if (SameFiles p) (ltb 65535 n) _ _ tt
        (push_value-SameFiles (to_word n) (record p { io = record (p.io) { stdin = s } }))
  read_num_from-SameFiles too_big p = tt

  read_str_line-SameFiles :
      (addr : ℕ) (line : List ℕ) (p : Program)
      → Gives (SameFiles p) (read_str_line block addr line p)
  unfolding read_str_line
  read_str_line-SameFiles addr [] p = tt
  read_str_line-SameFiles addr (c ∷ line) p =
      let n = length (c ∷ line) - 1 in
      Gives-if (SameFiles p) (ltb mem_heap_size (addr + n)) _ _ tt (
        after (SameFiles p) (write_chars n addr (c ∷ line) p.heap) _
          (λ h. push_value-SameFiles (to_word n) (record p { heap = h })))

  -- All six of them.
  pub builtins-SameFiles :
      (p : Program)
      → Gives (SameFiles p) (exec_builtin_print_char block p)
        × Gives (SameFiles p) (exec_builtin_print_num block p)
        × Gives (SameFiles p) (exec_builtin_print_str block p)
        × Gives (SameFiles p) (exec_builtin_read_char block p)
        × Gives (SameFiles p) (exec_builtin_read_num block p)
        × Gives (SameFiles p) (exec_builtin_read_str block p)
  unfolding exec_builtin_print_char exec_builtin_print_num exec_builtin_print_str
      exec_builtin_read_char exec_builtin_read_num exec_builtin_read_str
  builtins-SameFiles p = (
    after (SameFiles p) (on_stack p (pop_word block p.stack)) _ (λ r. (refl, refl)),
    after (SameFiles p) (on_stack p (pop_word block p.stack)) _ (λ r. (refl, refl)),
    after (SameFiles p) (on_stack p (pop_word block p.stack)) _ (λ r.
        after (SameFiles p) (on_stack (record p { stack = r.1 }) (pop_word block r.1)) _
          (λ t. print_from-SameFiles r.0 t.0 (record p { stack = t.1 }))),
    push_value-SameFiles (get_char p.io).0 (record p { io = (get_char p.io).1 }),
    read_num_from-SameFiles (scanf_u p.io.stdin) p,
    after (SameFiles p) (on_stack p (pop_word block p.stack)) _ (λ r.
        read_str_line-SameFiles r.0 (get_line p.io.stdin).0
          (record p { stack = r.1; io = record (p.io) { stdin = (get_line p.io.stdin).1 } })),
  )
