-- ===== src/Segments/Push.antt =====
-- src/exec.c: `exec_push` on a valid stack.
use hvme.Prelude.{ℕ, zero, suc, ◌+◌, ◌≤◌, ◌<◌, ◌≢◌, ◌&&◌, leb, ltb, to_word, arith, lt→ltb, le→leb}
use hvme.Exec.{◌>>=◌, Ends, Ends-bind, Ends-if, Ends-within}
use hvme.Stack.{Stack, load, spush}
use hvme.Stack.Valid.{IsValid, IsWord-some}
use hvme.Stack.Confined.{Confined, spush-Ends}
use hvme.Heap.{heap_get}
use hvme.Inst.{Segment, arg, loc, stat, const, this, that, ptr, tmp}
use hvme.Segments.Kept.{IsWide, Kept, AvoidsEnd, PointsInside}
use hvme.Segments.{
  Banks, on_stack, push_word, push_arg, push_loc, push_heap, push_pointer, push_ptr, exec_push,
}

module _ (block : ℕ) (b : Banks) (w : IsValid block b.stack) (wide : IsWide b) where
  same-IsWide : {t : Stack} → IsWide (record b { stack = t })
  same-IsWide = record {
    heap = wide.heap;
    static = wide.static;
    temp = wide.temp;
    this = wide.this;
    that = wide.that;
  }

  push_word-Ends : (v : ℕ) → v < 65536 → Ends (Kept block b) (push_word block v b)
  unfolding push_word
  push_word-Ends v h =
      Ends-bind (Confined block b.stack) (Kept block b) (on_stack b (spush block v b.stack)) _
        (Ends-within _ _ (spush block v b.stack) (spush-Ends block v b.stack w h))
        (λ s q. record { stack = q; wide = same-IsWide })

  load-Ends : (i : ℕ) → i < b.stack.sp → Ends (λ v. v < 65536) (load i b.stack)
  unfolding load
  load-Ends i h =
      let (v, e, word) = IsWord-some (b.stack.ops i) (w.filled i h) in
      rw (lt→ltb i b.stack.len (omega (arith, w.within))) (rw e word)

  loading :
      (i : ℕ)
      → i < b.stack.sp
      → Ends (Kept block b) (on_stack b (load i b.stack) >>= λ v. push_word block v b)
  loading i h =
      Ends-bind (λ v. v < 65536) (Kept block b) (on_stack b (load i b.stack)) _
        (Ends-within _ _ (load i b.stack) (load-Ends i h)) push_word-Ends

  push_heap-Ends : (addr : ℕ) → addr ≢ 0x1000 → Ends (Kept block b) (push_heap block addr b)
  unfolding push_heap heap_get
  push_heap-Ends addr apart =
      Ends-if (Kept block b) (leb addr 0x1000) _ _
        (λ t.
          rw (lt→ltb (to_word addr) 0x1000 (ground arith))
            (push_word-Ends (b.heap.mem (to_word addr)) (wide.heap (to_word addr))))
        (λ _. tt)

  push_pointer-Ends : (p : ℕ) → p ≤ 0x1000 → Ends (Kept block b) (push_pointer block p b)
  unfolding push_pointer
  push_pointer-Ends p h = rw (le→leb p 0x1000 h) (push_word-Ends (to_word p) (omega arith))

  push_ptr-Ends : (offset : ℕ) → PointsInside ptr b → Ends (Kept block b) (push_ptr block offset b)
  unfolding push_ptr
  push_ptr-Ends zero (h, k) = push_pointer-Ends b.heap.this h
  push_ptr-Ends (suc zero) (h, k) = push_pointer-Ends b.heap.that k
  push_ptr-Ends (suc (suc n)) h = tt

  -- On a valid stack, 16-bit memory and pointers, an address that is not the one right behind the
  -- heap and, for `push pointer`, pointers that are at most the heap's size, `exec_push` never
  -- faults, for every segment and offset. If it succeeds, only the frame on top of the stack has
  -- changed, the stack is valid and the memory is 16-bit.
  pub exec_push-Ends :
      (seg : Segment) (offset : ℕ)
      → AvoidsEnd seg offset b
      → PointsInside seg b
      → Ends (Kept block b) (exec_push block seg offset b)
  unfolding exec_push push_arg push_loc
  exec_push-Ends arg offset h k =
      Ends-if (Kept block b) (ltb offset b.stack.arg_len && ltb (offset + b.stack.arg) b.stack.sp) _
        _ (λ t. loading (offset + b.stack.arg) (ground arith))
        (λ _. Ends-if (Kept block b) (leb b.stack.arg_len offset) _ _ (λ _. tt) (λ _. tt))
  exec_push-Ends loc offset h k =
      Ends-if (Kept block b) (ltb offset b.stack.lcl_len && ltb (offset + b.stack.lcl) b.stack.sp) _
        _ (λ t. loading (offset + b.stack.lcl) (ground arith))
        (λ _. Ends-if (Kept block b) (leb b.stack.lcl_len offset) _ _ (λ _. tt) (λ _. tt))
  exec_push-Ends stat offset h k =
      Ends-if (Kept block b) (ltb offset 0x100) _ _
        (λ t. push_word-Ends (b.mem.static offset) (wide.static offset)) (λ _. tt)
  exec_push-Ends const offset h k = push_word-Ends (to_word offset) (omega arith)
  exec_push-Ends this offset h k = push_heap-Ends (offset + b.heap.this) h
  exec_push-Ends that offset h k = push_heap-Ends (offset + b.heap.that) h
  exec_push-Ends ptr offset h k = push_ptr-Ends offset k
  exec_push-Ends tmp offset h k =
      Ends-if (Kept block b) (ltb offset 0x10) _ _
        (λ t. push_word-Ends (b.mem.tmp offset) (wide.temp offset)) (λ _. tt)
