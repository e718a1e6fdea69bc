-- ===== src/Prelude/Bits.antt =====
-- The bound of `&` and `|` on words, from the digits that the native operations stand for.
use Prim.Native.Nat.{
  ℕ, zero, suc, ◌/◌, ◌%◌, ◌^◌, ◌≤◌, ◌<◌, min, max, bit_and, bit_or, digits, bit_and-bitwise,
  bit_or-bitwise,
}
use native.Mathlib.Omega.{arith}
use native.Mathlib.Nat.{pow-suc}

digits-lt :
    (rest : ℕ → ℕ) (op : ℕ → ℕ → ℕ)
    → ((b : ℕ) → rest b ≤ b)
    → ((a b : ℕ) → a ≤ 1 → b ≤ 1 → op a b ≤ 1)
    → (n k a b : ℕ) → a < 2 ^ k
    → b < 2 ^ k
    → digits rest op n a b < 2 ^ k
digits-lt rest op hr ho zero k a b ha hb = omega (arith, hr b)
digits-lt rest op hr ho (suc n) k zero b ha hb = omega (arith, hr b)
digits-lt rest op hr ho (suc n) zero (suc a) b ha hb = absurd (omega arith)
digits-lt rest op hr ho (suc n) (suc k) (suc a) b ha hb =
    let e = pow-suc 2 k in
    let low = ho (suc a % 2) (b % 2) (omega arith) (omega arith) in
    let high = digits-lt rest op hr ho n k (suc a / 2) (b / 2) (omega arith) (omega arith) in
    omega arith

pub bit_and-lt : (k a b : ℕ) → a < 2 ^ k → b < 2 ^ k → bit_and a b < 2 ^ k
bit_and-lt k a b ha hb =
    rw (bit_and-bitwise a b)
      (digits-lt (λ _. zero) min (λ b. omega arith) (λ a b p q. omega arith) a k a b ha hb)

pub bit_or-lt : (k a b : ℕ) → a < 2 ^ k → b < 2 ^ k → bit_or a b < 2 ^ k
bit_or-lt k a b ha hb =
    rw (bit_or-bitwise a b)
      (digits-lt (λ b. b) max (λ b. omega arith) (λ a b p q. omega arith) a k a b ha hb)
