-- ===== src/Segments.antt =====
-- src/exec.c: `exec_pop` and `exec_push`. They change the stack, the heap with its pointers and
-- the memory of the active file, here together as `Banks`.
pub mod Kept
pub mod Pop
pub mod Push
pub mod Overrun
use hvme.Prelude.{ℕ, zero, suc, ◌+◌, ◌*◌, ◌/◌, ◌&&◌, leb, ltb, if◌then◌else◌, to_word, update}
use hvme.Exec.{
  Run, ok, err, fault, ◌>>=◌, within, assertion, pointer_segment, heap_addr_overflow,
  stack_addr_overflow, seg_overflow,
}
use hvme.Stack.{Stack, load, store, spush, pop_word}
use hvme.Heap.{Heap, Memory, heap_get, heap_set, mem_heap_size, mem_stat_size, mem_temp_size}
use hvme.Inst.{Segment, arg, loc, stat, const, this, that, ptr, tmp}

pub record Banks : Type 0 where
  pub stack : Stack
  pub heap : Heap
  pub mem : Memory

-- A call on `stack` alone.
abbrev pub on_stack : {A : Type 0} → Banks → Run Stack A → Run Banks A
on_stack b = within (λ s. record b { stack = s })

-- `spop(stack, (Word*) &p)` writes the low half word of a `size_t` (little-endian).
abbrev pub low_word : ℕ → ℕ → ℕ
low_word old v = old / 65536 * 65536 + v

pop_arg : ℕ → ℕ → Banks → Run Banks Banks
pop_arg block offset b =
    let s = b.stack in
    if ltb offset s.arg_len && ltb (offset + s.arg) s.sp
    then (do
      (v, s₁) ← on_stack b (pop_word block s)
      s₂ ← on_stack b (store (offset + s₁.arg) v s₁)
      ok (record b { stack = s₂ }))
    else if leb s.arg_len offset
    then err (seg_overflow s.arg_len) b
    else err (stack_addr_overflow (offset + s.arg) s.sp) b

pop_loc : ℕ → ℕ → Banks → Run Banks Banks
pop_loc block offset b =
    let s = b.stack in
    if ltb offset s.lcl_len && ltb (offset + s.lcl) s.sp
    then (do
      (v, s₁) ← on_stack b (pop_word block s)
      s₂ ← on_stack b (store (offset + s₁.lcl) v s₁)
      ok (record b { stack = s₂ }))
    else if leb s.lcl_len offset
    then err (seg_overflow s.lcl_len) b
    else err (stack_addr_overflow (offset + s.arg) s.sp) b

pop_stat : ℕ → ℕ → Banks → Run Banks Banks
pop_stat block offset b =
    if ltb offset mem_stat_size
    then (do
      (v, s) ← on_stack b (pop_word block b.stack)
      ok (record b { stack = s; mem = record (b.mem) { static = update b.mem.static offset v } }))
    else err (seg_overflow mem_stat_size) b

pop_tmp : ℕ → ℕ → Banks → Run Banks Banks
pop_tmp block offset b =
    if ltb offset mem_temp_size
    then (do
      (v, s) ← on_stack b (pop_word block b.stack)
      ok (record b { stack = s; mem = record (b.mem) { tmp = update b.mem.tmp offset v } }))
    else err (seg_overflow mem_temp_size) b

-- `this` and `that`, from the pointer that is added to the offset
pop_heap : ℕ → ℕ → Banks → Run Banks Banks
pop_heap block addr b =
    if leb addr mem_heap_size
    then (do
      (v, s) ← on_stack b (pop_word block b.stack)
      h ← heap_set b.heap (to_word addr) v
      ok (record b { stack = s; heap = h }))
    else err (heap_addr_overflow addr) b

pop_ptr : ℕ → ℕ → Banks → Run Banks Banks
pop_ptr block zero b = do
  (v, s) ← on_stack b (pop_word block b.stack)
  ok (record b { stack = s; heap = record (b.heap) { this = low_word b.heap.this v } })
pop_ptr block (suc zero) b = do
  (v, s) ← on_stack b (pop_word block b.stack)
  ok (record b { stack = s; heap = record (b.heap) { that = low_word b.heap.that v } })
pop_ptr block (suc (suc n)) b = err (pointer_segment (suc (suc n))) b

unfoldable pub exec_pop : ℕ → Segment → ℕ → Banks → Run Banks Banks
unfolding pop_arg pop_loc pop_stat pop_tmp pop_heap pop_ptr
exec_pop block arg offset b = pop_arg block offset b
exec_pop block loc offset b = pop_loc block offset b
exec_pop block stat offset b = pop_stat block offset b
exec_pop block const offset b = do
  (_, s) ← on_stack b (pop_word block b.stack)
  ok (record b { stack = s })
exec_pop block this offset b = pop_heap block (offset + b.heap.this) b
exec_pop block that offset b = pop_heap block (offset + b.heap.that) b
exec_pop block ptr offset b = pop_ptr block offset b
exec_pop block tmp offset b = pop_tmp block offset b

push_word : ℕ → ℕ → Banks → Run Banks Banks
push_word block v b = do s ← on_stack b (spush block v b.stack); ok (record b { stack = s })

push_arg : ℕ → ℕ → Banks → Run Banks Banks
unfolding push_word
push_arg block offset b =
    let s = b.stack in
    if ltb offset s.arg_len && ltb (offset + s.arg) s.sp
    then (on_stack b (load (offset + s.arg) s) >>= λ v. push_word block v b)
    else if leb s.arg_len offset
    then err (seg_overflow s.arg_len) b
    else err (stack_addr_overflow (offset + s.arg) s.sp) b

push_loc : ℕ → ℕ → Banks → Run Banks Banks
unfolding push_word
push_loc block offset b =
    let s = b.stack in
    if ltb offset s.lcl_len && ltb (offset + s.lcl) s.sp
    then (on_stack b (load (offset + s.lcl) s) >>= λ v. push_word block v b)
    else if leb s.lcl_len offset
    then err (seg_overflow s.lcl_len) b
    else err (stack_addr_overflow (offset + s.arg) s.sp) b

push_heap : ℕ → ℕ → Banks → Run Banks Banks
unfolding push_word
push_heap block addr b =
    if leb addr mem_heap_size
    then (heap_get b.heap (to_word addr) >>= λ v. push_word block v b)
    else err (heap_addr_overflow addr) b

-- The `assert` allows pointers up to the heap's size.
push_pointer : ℕ → ℕ → Banks → Run Banks Banks
unfolding push_word
push_pointer block p b =
    if leb p mem_heap_size then push_word block (to_word p) b else fault assertion

push_ptr : ℕ → ℕ → Banks → Run Banks Banks
unfolding push_pointer
push_ptr block zero b = push_pointer block b.heap.this b
push_ptr block (suc zero) b = push_pointer block b.heap.that b
push_ptr block (suc (suc n)) b = err (pointer_segment (suc (suc n))) b

unfoldable pub exec_push : ℕ → Segment → ℕ → Banks → Run Banks Banks
unfolding push_word push_arg push_loc push_heap push_ptr
exec_push block arg offset b = push_arg block offset b
exec_push block loc offset b = push_loc block offset b
exec_push block stat offset b =
    if ltb offset mem_stat_size
    then push_word block (b.mem.static offset) b
    else err (seg_overflow mem_stat_size) b
exec_push block const offset b = push_word block (to_word offset) b
exec_push block this offset b = push_heap block (offset + b.heap.this) b
exec_push block that offset b = push_heap block (offset + b.heap.that) b
exec_push block ptr offset b = push_ptr block offset b
exec_push block tmp offset b =
    if ltb offset mem_temp_size
    then push_word block (b.mem.tmp offset) b
    else err (seg_overflow mem_temp_size) b
