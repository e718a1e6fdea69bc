-- ===== src/Segments/Pop.antt =====
-- src/exec.c: `exec_pop` on a valid stack.
use hvme.Prelude.{
  ℕ, zero, suc, ◌+◌, ◌≤◌, ◌<◌, ◌≡◌, ◌≢◌, ◌⊎◌, inl, inr, true, ◌&&◌, leb, ltb, to_word, arith,
  lt→ltb,
}
use hvme.Exec.{Run, ok, ◌>>=◌, Ends, Ends-bind, Ends-if, Ends-within}
use hvme.Stack.{Stack, store, pop_word}
use hvme.Stack.Valid.{IsValid}
use hvme.Stack.Confined.{Confined, Confined-trans, PopConfined, pop_word-Ends, store-Ends}
use hvme.Heap.{heap_set}
use hvme.Inst.{Segment, arg, loc, stat, const, this, that, ptr, tmp}
use hvme.Segments.Kept.{IsWide, Kept, AvoidsEnd}
use hvme.Segments.{
  Banks, on_stack, pop_arg, pop_loc, pop_stat, pop_tmp, pop_heap, pop_ptr, exec_pop,
}

module _ (block : ℕ) (b : Banks) (w : IsValid block b.stack) (wide : IsWide b) where
  -- A word is popped, and `f` puts it somewhere.
  popping :
      (f : ℕ × Stack → Run Banks Banks)
      → ((r : ℕ × Stack) → PopConfined block b.stack r → Ends (Kept block b) (f r))
      → Ends (Kept block b) (on_stack b (pop_word block b.stack) >>= f)
  popping f k =
      Ends-bind (PopConfined block b.stack) (Kept block b) (on_stack b (pop_word block b.stack)) f
        (Ends-within _ _ (pop_word block b.stack) (pop_word-Ends block b.stack w)) k

  -- A write to a segment on the stack.
  writing :
      (i : ℕ) (r : ℕ × Stack)
      → PopConfined block b.stack r
      → i < b.stack.sp
      → ((r.1.arg ≤ i) × (i < r.1.arg + r.1.arg_len)) ⊎ (r.1.lcl ≤ i)
      → Ends (Kept block b) (on_stack b (store i r.0 r.1) >>= λ s. ok (record b { stack = s }))
  writing i r p h place =
      Ends-bind (Confined block r.1) (Kept block b) (on_stack b (store i r.0 r.1)) _
        (Ends-within _ _ (store i r.0 r.1) (
          store-Ends block i r.0 r.1 p.confined.valid (omega (arith, p.height, p.room)) p.word
            place))
        (λ s q. record { stack = Confined-trans p.confined q; wide = ground (arith, wide) })

  pop_arg-Ends : (offset : ℕ) → Ends (Kept block b) (pop_arg block offset b)
  unfolding pop_arg
  pop_arg-Ends offset =
      let s = b.stack in
      Ends-if (Kept block b) (ltb offset s.arg_len && ltb (offset + s.arg) s.sp) _ _
        (λ t. popping _ (λ r p. writing (offset + r.1.arg) r p (fst_lt t p) (inl (snd_lt t p))))
        (λ _. Ends-if (Kept block b) (leb s.arg_len offset) _ _ (λ _. tt) (λ _. tt))
    where
      fst_lt :
          {r : ℕ × Stack}
          → (ltb offset b.stack.arg_len && ltb (offset + b.stack.arg) b.stack.sp) ≡ true
          → PopConfined block b.stack r
          → offset + r.1.arg < b.stack.sp
      fst_lt t p = let e = p.confined.regs.arg in ground arith

      snd_lt :
          {r : ℕ × Stack}
          → (ltb offset b.stack.arg_len && ltb (offset + b.stack.arg) b.stack.sp) ≡ true
          → PopConfined block b.stack r
          → (r.1.arg ≤ offset + r.1.arg) × (offset + r.1.arg < r.1.arg + r.1.arg_len)
      snd_lt t p = let e = p.confined.regs.arg_len in ground arith

  pop_loc-Ends : (offset : ℕ) → Ends (Kept block b) (pop_loc block offset b)
  unfolding pop_loc
  pop_loc-Ends offset =
      let s = b.stack in
      Ends-if (Kept block b) (ltb offset s.lcl_len && ltb (offset + s.lcl) s.sp) _ _
        (λ t. popping _ (λ r p. writing (offset + r.1.lcl) r p (fst_lt t p) (inr (omega arith))))
        (λ _. Ends-if (Kept block b) (leb s.lcl_len offset) _ _ (λ _. tt) (λ _. tt))
    where
      fst_lt :
          {r : ℕ × Stack}
          → (ltb offset b.stack.lcl_len && ltb (offset + b.stack.lcl) b.stack.sp) ≡ true
          → PopConfined block b.stack r
          → offset + r.1.lcl < b.stack.sp
      fst_lt t p = let e = p.confined.regs.lcl in ground arith

  pop_stat-Ends : (offset : ℕ) → Ends (Kept block b) (pop_stat block offset b)
  unfolding pop_stat
  pop_stat-Ends offset =
      Ends-if (Kept block b) (ltb offset 0x100) _ _
        (λ t. popping _ (λ r p. record {
          stack = p.confined;
          wide = record {
            heap = wide.heap;
            static = λ i. ground (arith, wide.static i, p.word);
            temp = wide.temp;
            this = wide.this;
            that = wide.that;
          };
        }))
        (λ _. tt)

  pop_tmp-Ends : (offset : ℕ) → Ends (Kept block b) (pop_tmp block offset b)
  unfolding pop_tmp
  pop_tmp-Ends offset =
      Ends-if (Kept block b) (ltb offset 0x10) _ _
        (λ t. popping _ (λ r p. record {
          stack = p.confined;
          wide = record {
            heap = wide.heap;
            static = wide.static;
            temp = λ i. ground (arith, wide.temp i, p.word);
            this = wide.this;
            that = wide.that;
          };
        }))
        (λ _. tt)

  pop_heap-Ends : (addr : ℕ) → addr ≢ 0x1000 → Ends (Kept block b) (pop_heap block addr b)
  unfolding pop_heap heap_set
  pop_heap-Ends addr apart =
      Ends-if (Kept block b) (leb addr 0x1000) _ _
        (λ t. popping _ (λ r p. rw (lt→ltb (to_word addr) 0x1000 (ground arith)) (record {
          stack = p.confined;
          wide = record {
            heap = λ i. ground (arith, wide.heap i, p.word);
            static = wide.static;
            temp = wide.temp;
            this = wide.this;
            that = wide.that;
          };
        })))
        (λ _. tt)

  pop_ptr-Ends : (offset : ℕ) → Ends (Kept block b) (pop_ptr block offset b)
  unfolding pop_ptr
  pop_ptr-Ends zero = popping _ (λ r p. record {
    stack = p.confined;
    wide = record {
      heap = wide.heap;
      static = wide.static;
      temp = wide.temp;
      this = omega (arith, wide.this, p.word);
      that = wide.that;
    };
  })
  pop_ptr-Ends (suc zero) = popping _ (λ r p. record {
    stack = p.confined;
    wide = record {
      heap = wide.heap;
      static = wide.static;
      temp = wide.temp;
      this = wide.this;
      that = omega (arith, wide.that, p.word);
    };
  })
  pop_ptr-Ends (suc (suc n)) = tt

  -- On a valid stack, 16-bit memory and pointers, and an address that is not the one right behind
  -- the heap, `exec_pop` never faults, for every segment and offset. If it succeeds, only the frame
  -- on top of the stack has changed, the stack is valid and the memory is 16-bit.
  pub exec_pop-Ends :
      (seg : Segment) (offset : ℕ)
      → AvoidsEnd seg offset b
      → Ends (Kept block b) (exec_pop block seg offset b)
  unfolding exec_pop
  exec_pop-Ends arg offset h = pop_arg-Ends offset
  exec_pop-Ends loc offset h = pop_loc-Ends offset
  exec_pop-Ends stat offset h = pop_stat-Ends offset
  exec_pop-Ends const offset h = popping _ (λ r p. record { stack = p.confined; wide = wide_same })
    where
      wide_same : {t : Stack} → IsWide (record b { stack = t })
      wide_same = record {
        heap = wide.heap;
        static = wide.static;
        temp = wide.temp;
        this = wide.this;
        that = wide.that;
      }
  exec_pop-Ends this offset h = pop_heap-Ends (offset + b.heap.this) h
  exec_pop-Ends that offset h = pop_heap-Ends (offset + b.heap.that) h
  exec_pop-Ends ptr offset h = pop_ptr-Ends offset
  exec_pop-Ends tmp offset h = pop_tmp-Ends offset
