-- ===== src/Arith/Safe.antt =====
-- src/exec.c: the arithmetic and logic instructions touch the frame on top alone, and never fault.
use hvme.Prelude.{
  ℕ, ◌+◌, ◌-◌, ◌%◌, ◌^◌, ◌<◌, leb, ltb, ◌==◌, if◌then◌else◌, arith, to_word, Bool, true, false,
}
use hvme.Exec.{Run, add_overflow, sub_underflow, ok, err, ◌>>=◌, Ends, Ends-bind, Ends-if}
use hvme.Stack.{Stack, spush, pop_word}
use hvme.Stack.Valid.{IsValid}
use hvme.Stack.Confined.{Confined, Confined-trans, PopConfined, spush-Ends, pop_word-Ends}
use hvme.Arith.{
  exec_add, exec_sub, exec_neg, exec_and, exec_or, exec_not, exec_eq, exec_lt, exec_gt, true_word,
  false_word,
}

module _ (block : ℕ) (s : Stack) (w : IsValid block s) where
  -- One operand is popped, and `f` goes on from there.
  one_pop :
      (f : ℕ × Stack → Run Stack Stack)
      → ((r : ℕ × Stack) → PopConfined block s r → Ends (Confined block r.1) (f r))
      → Ends (Confined block s) (pop_word block s >>= f)
  one_pop f k =
      Ends-bind (PopConfined block s) (Confined block s) (pop_word block s) f
        (pop_word-Ends block s w) (λ r p. Ends-trans (f r) p (k r p))
    where
      Ends-trans :
          {r : ℕ × Stack} (m : Run Stack Stack)
          → PopConfined block s r
          → Ends (Confined block r.1) m
          → Ends (Confined block s) m
      Ends-trans (ok t) p h = Confined-trans p.confined h
      Ends-trans (err e t) p h = tt
      Ends-trans (Run.fault u) p h = absurd h

-- A popped operand and its stack, in what follows.
module _ (block : ℕ) (s : Stack) (w : IsValid block s) where
  two_pops :
      (f : ℕ × Stack → ℕ × Stack → Run Stack Stack)
      → ((q r : ℕ × Stack)
          → q.0 < 65536
          → r.0 < 65536
          → IsValid block r.1
          → Ends (Confined block r.1) (f q r))
      → Ends (Confined block s) (pop_word block s >>= λ q. pop_word block q.1 >>= f q)
  two_pops f k =
      one_pop block s w (λ q. pop_word block q.1 >>= f q)
        (λ q p.
          one_pop block q.1 p.confined.valid (f q) (λ r p'. k q r p.word p'.word p'.confined.valid))

  flag_word : (b : Bool) → (if b then true_word else false_word) < 65536
  flag_word true = omega arith
  flag_word false = omega arith

  exec_add-Ends : Ends (Confined block s) (exec_add block s)
  unfolding exec_add
  exec_add-Ends =
      two_pops
        (λ q r.
          if leb ((r.0 + q.0) % 2 ^ 32) 65535
          then spush block (to_word ((r.0 + q.0) % 2 ^ 32)) r.1
          else err (add_overflow r.0 q.0 ((r.0 + q.0) % 2 ^ 32)) (record (r.1) { sp = r.1.sp + 2 }))
        (λ q r a b v.
          Ends-if (Confined block r.1) (leb ((r.0 + q.0) % 2 ^ 32) 65535) _ _
            (λ _. spush-Ends block (to_word ((r.0 + q.0) % 2 ^ 32)) r.1 v (omega arith)) (λ _. tt))

  exec_sub-Ends : Ends (Confined block s) (exec_sub block s)
  unfolding exec_sub
  exec_sub-Ends =
      two_pops
        (λ q r.
          if leb q.0 r.0
          then spush block (to_word (r.0 - q.0)) r.1
          else err (sub_underflow r.0 q.0) (record (r.1) { sp = r.1.sp + 2 }))
        (λ q r a b v.
          Ends-if (Confined block r.1) (leb q.0 r.0) _ _
            (λ _. spush-Ends block (to_word (r.0 - q.0)) r.1 v (omega arith)) (λ _. tt))

  -- None of the nine instructions faults on a valid stack, however many words it holds; if one
  -- succeeds, it has changed nothing but the frame on top, and the stack is valid.
  pub arith-Ends :
      Ends (Confined block s) (exec_add block s)
      × Ends (Confined block s) (exec_sub block s)
      × Ends (Confined block s) (exec_neg block s)
      × Ends (Confined block s) (exec_and block s)
      × Ends (Confined block s) (exec_or block s)
      × Ends (Confined block s) (exec_not block s)
      × Ends (Confined block s) (exec_eq block s)
      × Ends (Confined block s) (exec_lt block s)
      × Ends (Confined block s) (exec_gt block s)
  unfolding exec_neg exec_and exec_or exec_not exec_eq exec_lt exec_gt
  arith-Ends = (
    exec_add-Ends,
    exec_sub-Ends,
    one_pop block s w _ (λ q p. spush-Ends block _ q.1 p.confined.valid (omega arith)),
    two_pops _ (λ q r a b v. spush-Ends block _ r.1 v (omega arith)),
    two_pops _ (λ q r a b v. spush-Ends block _ r.1 v (omega arith)),
    one_pop block s w _ (λ q p. spush-Ends block _ q.1 p.confined.valid (omega arith)),
    two_pops _ (λ q r a b v. spush-Ends block _ r.1 v (flag_word (r.0 == q.0))),
    two_pops _ (λ q r a b v. spush-Ends block _ r.1 v (flag_word (ltb r.0 q.0))),
    two_pops _ (λ q r a b v. spush-Ends block _ r.1 v (flag_word (ltb q.0 r.0))),
  )
