-- ===== src/Segments/Kept.antt =====
-- src/exec.c: what `exec_pop` and `exec_push` leave unchanged, and where they can fault.
use hvme.Prelude.{ℕ, ◌+◌, ◌≤◌, ◌<◌, ◌≢◌}
use hvme.Stack.Confined.{Confined}
use hvme.Inst.{Segment, this, that, ptr}
use hvme.Segments.{Banks}

-- All words of the heap and of the file's memory are 16-bit, and so are the pointers.
pub record IsWide (b : Banks) : Type 0 where
  pub heap : (i : ℕ) → b.heap.mem i < 65536
  pub static : (i : ℕ) → b.mem.static i < 65536
  pub temp : (i : ℕ) → b.mem.tmp i < 65536
  pub this : b.heap.this < 65536
  pub that : b.heap.that < 65536

-- `b'` comes from `b` by changes of words, on the stack in the frame on top alone.
pub record Kept (block : ℕ) (b b' : Banks) : Type 0 where
  pub stack : Confined block b.stack b'.stack
  pub wide : IsWide b'

-- No access hits the word behind the heap, and no pointer lies behind it.
abbrev pub AvoidsEnd : Segment → ℕ → Banks → Type 0
AvoidsEnd this offset b = offset + b.heap.this ≢ 0x1000
AvoidsEnd that offset b = offset + b.heap.that ≢ 0x1000
AvoidsEnd _ offset b = Unit

abbrev pub PointsInside : Segment → Banks → Type 0
PointsInside ptr b = (b.heap.this ≤ 0x1000) × (b.heap.that ≤ 0x1000)
PointsInside _ b = Unit
