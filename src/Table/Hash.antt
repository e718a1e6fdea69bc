-- ===== src/Table/Hash.antt =====
-- src/st.c: the index that `delim_hash` computes, and the comparison of keys.
use native.Mathlib.Nat.{pow-suc}
use hvme.Prelude.{
  ℕ, zero, suc, ◌+◌, ◌-◌, ◌*◌, ◌/◌, ◌%◌, ◌^◌, ◌≤◌, ◌<◌, ◌≡◌, ltb, Bool-cases, inl, inr, arith,
  not_ltb→le,
}
use hvme.Table.{log2_fuel, log2, delim_hash}

pow-add : (a b : ℕ) → 2 ^ (a + b) ≡ 2 ^ a * 2 ^ b
pow-add a zero = let e : a + zero ≡ a = omega arith in rw e (omega arith)
pow-add a (suc b) =
    let e : a + suc b ≡ suc (a + b) = omega arith in
    rw (e, pow-suc 2 (a + b), pow-suc 2 b, pow-add a b) (omega arith)

pow-pred-le : (n : ℕ) → 2 ^ (n - 1) ≤ 2 ^ n
pow-pred-le zero = omega arith
pow-pred-le (suc n) = let e : suc n - 1 ≡ n = omega arith in rw e (omega (arith, pow-suc 2 n))

log2_fuel-le : (f n : ℕ) → log2_fuel f n ≤ f
unfolding log2_fuel
log2_fuel-le zero n = omega arith
log2_fuel-le (suc f) n = ground (arith, log2_fuel-le f (n / 2))

pow-log2_fuel : (f n : ℕ) → 1 ≤ n → 2 ^ log2_fuel f n ≤ n
unfolding log2_fuel
pow-log2_fuel zero n h = omega arith
pow-log2_fuel (suc f) n h = elim (Bool-cases (ltb n 2)) [
  | inl t ↦ rw t (omega arith)
  | inr t ↦ rw t (
      omega (
        arith,
        pow-log2_fuel f (n / 2) (omega (arith, not_ltb→le n 2 t)),
        pow-suc 2 (log2_fuel f (n / 2)),
      ))
]

div-lt_of_lt_mul : (x p q : ℕ) → x < p * q → x / p < q
div-lt_of_lt_mul x p q h = grind arith

-- The start of every search lies in the table, for the lengths at which the shift is defined.
pub delim_hash-lt : (hash len : ℕ) → 4 ≤ len → delim_hash hash len < len
unfolding delim_hash log2
delim_hash-lt hash len h =
    let k = log2_fuel 64 len - 1 in
    let small = log2_fuel-le 64 len in
    let e : 64 - k + k ≡ 64 = omega arith in
    let whole : 2 ^ (64 - k) * 2 ^ k ≡ 2 ^ 64 = rw (← pow-add, e) in
    let below =
      div-lt_of_lt_mul (hash * 11400714819323198485 % 2 ^ 64) (2 ^ (64 - k)) (2 ^ k)
        (rw whole (omega arith)) in
    omega (arith, below, pow-pred-le (log2_fuel 64 len), pow-log2_fuel 64 len (omega arith))
