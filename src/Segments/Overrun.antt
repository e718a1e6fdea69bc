-- ===== src/Segments/Overrun.antt =====
-- src/exec.c: the address behind the heap.
use hvme.Prelude.{ℕ, ◌+◌, ◌<◌, ◌≡◌, refl}
use hvme.Exec.{fault, out_of_bounds}
use hvme.Stack.Valid.{IsValid, pop_word-Popped}
use hvme.Heap.{heap_get, heap_set}
use hvme.Inst.{this}
use hvme.Segments.{Banks, pop_heap, exec_pop, push_heap, exec_push}

module _ (block : ℕ) (b : Banks) (w : IsValid block b.stack)
    (room : b.stack.lcl + b.stack.lcl_len < b.stack.sp) (offset : ℕ)
    (edge : offset + b.heap.this ≡ 0x1000) where
  -- `push this` and `pop this` pass their check of the address 0x1000, which is one behind the
  -- heap, and access it: on a valid stack with a word above the frame both are out of bounds.
  pub heap_edge-out :
      (exec_push block this offset b ≡ fault out_of_bounds)
      × (exec_pop block this offset b ≡ fault out_of_bounds)
  unfolding exec_push exec_pop push_heap pop_heap heap_get heap_set
  heap_edge-out =
      let (v, t, run, p) = pop_word-Popped block b.stack w room in
      (rw edge refl, rw (edge, run) refl)
