-- ===== src/Heap.antt =====
-- src/prog.c, src/prog.h: the heap with the two pointers into it, and a file's `static` and
-- `temp` segments. `calloc` clears the blocks; an access behind their end is a fault.
use hvme.Prelude.{ℕ, ltb, if◌then◌else◌, update}
use hvme.Exec.{Run, ok, fault, out_of_bounds}

abbrev pub mem_heap_size : ℕ
mem_heap_size = 0x1000

abbrev pub mem_stat_size : ℕ
mem_stat_size = 0x100

abbrev pub mem_temp_size : ℕ
mem_temp_size = 0x10

pub record Heap : Type 0 where
  pub mem : ℕ → ℕ
  pub this : ℕ
  pub that : ℕ

unfoldable pub new_heap : Heap
new_heap = record { mem = λ _. 0; this = 0; that = 0 }

unfoldable pub heap_get : {S : Type 0} → Heap → ℕ → Run S ℕ
heap_get h addr = if ltb addr mem_heap_size then ok (h.mem addr) else fault out_of_bounds

unfoldable pub heap_set : {S : Type 0} → Heap → ℕ → ℕ → Run S Heap
heap_set h addr val =
    if ltb addr mem_heap_size
    then ok (record h { mem = update h.mem addr val })
    else fault out_of_bounds

pub record Memory : Type 0 where
  pub static : ℕ → ℕ
  pub tmp : ℕ → ℕ

unfoldable pub new_mem : Memory
new_mem = record { static = λ _. 0; tmp = λ _. 0 }
