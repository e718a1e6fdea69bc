-- ===== src/Arith.antt =====
-- src/exec.c: the arithmetic and logic instructions. They take and leave the operand stack.
pub mod Correct
pub mod Safe
use Prim.Native.Nat.{bit_and, bit_or}
use hvme.Prelude.{ℕ, ◌+◌, ◌-◌, ◌%◌, ◌^◌, leb, ltb, ◌==◌, if◌then◌else◌, to_word}
use hvme.Exec.{Run, ok, err, ◌>>=◌, add_overflow, sub_underflow}
use hvme.Stack.{Stack, spush, pop_word}

abbrev pub bit16_limit : ℕ
bit16_limit = 65535

-- `TRUE` and `FALSE`
abbrev pub true_word : ℕ
true_word = 0xFFFF

abbrev pub false_word : ℕ
false_word = 0

-- `Wordbuf` is `uint32_t`.
unfoldable pub exec_add : ℕ → Stack → Run Stack Stack
exec_add block s = do
  (y, s₁) ← pop_word block s
  (x, s₂) ← pop_word block s₁
  let sum = (x + y) % 2 ^ 32
  if leb sum bit16_limit
      then spush block (to_word sum) s₂
      else err (add_overflow x y sum) (record s₂ { sp = s₂.sp + 2 })

unfoldable pub exec_sub : ℕ → Stack → Run Stack Stack
exec_sub block s = do
  (y, s₁) ← pop_word block s
  (x, s₂) ← pop_word block s₁
  if leb y x
      then spush block (to_word (x - y)) s₂
      else err (sub_underflow x y) (record s₂ { sp = s₂.sp + 2 })

-- `y = ~y; y += 1;` on `Word`
unfoldable pub exec_neg : ℕ → Stack → Run Stack Stack
exec_neg block s = do
  (y, s₁) ← pop_word block s
  let y' = 65535 - y
  spush block (to_word (y' + 1)) s₁

unfoldable pub exec_and : ℕ → Stack → Run Stack Stack
exec_and block s = do
  (y, s₁) ← pop_word block s
  (x, s₂) ← pop_word block s₁
  spush block (to_word (bit_and x y)) s₂

unfoldable pub exec_or : ℕ → Stack → Run Stack Stack
exec_or block s = do
  (y, s₁) ← pop_word block s
  (x, s₂) ← pop_word block s₁
  spush block (to_word (bit_or x y)) s₂

unfoldable pub exec_not : ℕ → Stack → Run Stack Stack
exec_not block s = do (y, s₁) ← pop_word block s; spush block (65535 - y) s₁

unfoldable pub exec_eq : ℕ → Stack → Run Stack Stack
exec_eq block s = do
  (y, s₁) ← pop_word block s
  (x, s₂) ← pop_word block s₁
  spush block (if x == y then true_word else false_word) s₂

unfoldable pub exec_lt : ℕ → Stack → Run Stack Stack
exec_lt block s = do
  (y, s₁) ← pop_word block s
  (x, s₂) ← pop_word block s₁
  spush block (if ltb x y then true_word else false_word) s₂

unfoldable pub exec_gt : ℕ → Stack → Run Stack Stack
exec_gt block s = do
  (y, s₁) ← pop_word block s
  (x, s₂) ← pop_word block s₁
  spush block (if ltb y x then true_word else false_word) s₂
