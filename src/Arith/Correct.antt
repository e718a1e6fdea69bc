-- ===== src/Arith/Correct.antt =====
-- src/exec.c: what the arithmetic and logic instructions compute, in terms of the contents of the
-- operand stack.
use Prim.Native.Nat.{bit_and, bit_or}
use hvme.Prelude.{
  ℕ, ◌+◌, ◌-◌, ◌%◌, ◌≤◌, ◌<◌, ◌≡◌, ◌↔◌, ◌∙◌, ap, ◌⊎◌, inl, inr, dec_lt, List, ◌∷◌, Option, some,
  true, false, ◌^◌, leb, ltb, ◌==◌, if◌then◌else◌, to_word, arith,
}
use hvme.Prelude.Bits.{bit_and-lt, bit_or-lt}
use hvme.Exec.{Error, Run, ok, err, add_overflow, sub_underflow}
use hvme.Stack.{Stack, spush, pop_word}
use hvme.Stack.Valid.{IsValid, SameRegs, pop_word-Popped}
use hvme.Stack.Contents.{contents, contents-Popped, spush-contents}
use hvme.Arith.{
  exec_add, exec_sub, exec_neg, exec_and, exec_or, exec_not, exec_eq, exec_lt, exec_gt, true_word,
  false_word,
}

-- `run` succeeds from `s`, with the words `rest` and the word `v` in front of them.
pub record Gives (block : ℕ) (s : Stack) (v : ℕ) (rest : List (Option ℕ)) (run : Run Stack Stack)
    : Type 0 where
  pub final : Stack
  pub runs : run ≡ ok final
  pub holds : contents final ≡ some v ∷ rest
  pub regs : SameRegs s final
  pub valid : IsValid block final

SameRegs-trans : {s t u : Stack} → SameRegs s t → SameRegs t u → SameRegs s u
SameRegs-trans p q = ground arith

SameRegs-sp : {s t : Stack} {n : ℕ} → SameRegs s t → SameRegs s (record t { sp = n })
SameRegs-sp p = ground arith

-- `run` stops with `e`; the stack pointer and the segment registers are those of `s`.
pub record Fails (s : Stack) (e : Error) (run : Run Stack Stack) : Type 0 where
  pub final : Stack
  pub runs : run ≡ err e final
  pub height : final.sp ≡ s.sp
  pub regs : SameRegs s final

-- `t` is `s` without its first word.
record Operand (block : ℕ) (s : Stack) (y : ℕ) (rest : List (Option ℕ)) : Type 0 where
  left : Stack
  pop_y : pop_word block s ≡ ok (y, left)
  remains : contents left ≡ rest
  word_y : y < 65536
  height : s.sp ≡ left.sp + 1
  regs : SameRegs s left
  valid : IsValid block left

pop-Operand :
    (block : ℕ) (s : Stack) (y : ℕ) (rest : List (Option ℕ))
    → IsValid block s
    → s.lcl + s.lcl_len < s.sp
    → contents s ≡ some y ∷ rest
    → Operand block s y rest
pop-Operand block s y rest valid h e =
    let (v, t, run, p) = pop_word-Popped block s valid h in
    let e' = contents-Popped p in
    let same : v ≡ y = cc in
    record {
      left = t;
      pop_y = rw (← same) run;
      remains = cc;
      word_y = rw (← same) p.word;
      height = p.height;
      regs = p.regs;
      valid = p.valid;
    }

push-Gives :
    (block : ℕ) (s t : Stack) (v : ℕ) (rest : List (Option ℕ))
    → SameRegs s t
    → IsValid block t
    → contents t ≡ rest
    → v < 65536
    → Gives block s v rest (spush block v t)
push-Gives block s t v rest same valid e word =
    let (u, run, holds, regs, valid') = spush-contents block v t valid word in
    record {
      final = u;
      runs = run;
      holds = holds ∙ ap (λ l. some v ∷ l) e;
      regs = SameRegs-trans same regs;
      valid = valid';
    }

-- What the theorems on a binary operation suppose: two words above the frame.
pub record Ready2 (block : ℕ) (s : Stack) (x y : ℕ) (rest : List (Option ℕ)) : Type 0 where
  pub valid : IsValid block s
  pub above : s.lcl + s.lcl_len + 2 ≤ s.sp
  pub words : contents s ≡ some y ∷ some x ∷ rest

pub record Ready1 (block : ℕ) (s : Stack) (y : ℕ) (rest : List (Option ℕ)) : Type 0 where
  pub valid : IsValid block s
  pub above : s.lcl + s.lcl_len + 1 ≤ s.sp
  pub words : contents s ≡ some y ∷ rest

module _ (block : ℕ) (s : Stack) (x y : ℕ) (rest : List (Option ℕ)) where
  first : Ready2 block s x y rest → Operand block s y (some x ∷ rest)
  first r = pop-Operand block s y _ r.valid (omega (arith, r.above)) r.words

  second : (r : Ready2 block s x y rest) → Operand block (first r).left x rest
  second r =
      let f = first r in
      pop-Operand block f.left x rest f.valid (omega (arith, r.above, f.height, f.regs)) f.remains

  gives :
      (r : Ready2 block s x y rest) (v : ℕ)
      → v < 65536
      → Gives block s v rest (spush block v (second r).left)
  gives r v word =
      let f = first r in
      let g = second r in
      push-Gives block s g.left v rest (SameRegs-trans f.regs g.regs) g.valid g.remains word

  exec_add-sum :
      Ready2 block s x y rest → x + y < 65536 → Gives block s (x + y) rest (exec_add block s)
  unfolding exec_add
  exec_add-sum r h =
      let e : to_word ((x + y) % 2 ^ 32) ≡ x + y = omega arith in
      let fits : leb ((x + y) % 2 ^ 32) 65535 ≡ true = ground arith in
      rw ((first r).pop_y, (second r).pop_y, fits, e) (gives r (x + y) h)

  exec_add-overflow :
      Ready2 block s x y rest
      → 65536 ≤ x + y
      → Fails s (add_overflow x y (x + y)) (exec_add block s)
  unfolding exec_add
  exec_add-overflow r h =
      let f = first r in
      let g = second r in
      let e : (x + y) % 2 ^ 32 ≡ x + y = omega (arith, f.word_y, g.word_y) in
      let big : leb (x + y) 65535 ≡ false = ground arith in
      record {
        final = record (g.left) { sp = g.left.sp + 2 };
        runs = rw (f.pop_y, g.pop_y, e, big);
        height = omega (arith, f.height, g.height);
        regs = SameRegs-sp (SameRegs-trans f.regs g.regs);
      }

  -- `add` on a stack with two words above the frame: it replaces them by their sum, or stops with
  -- an error because the sum is no word; in that case the stack pointer and the segment registers
  -- are those from before the instruction.
  pub exec_add_cases :
      Ready2 block s x y rest
      → ((x + y < 65536) × Gives block s (x + y) rest (exec_add block s))
        ⊎ ((65536 ≤ x + y) × Fails s (add_overflow x y (x + y)) (exec_add block s))
  exec_add_cases r = elim (dec_lt (x + y) 65536) [
    | yes h ↦ inl (h, exec_add-sum r h)
    | no h ↦ let big : 65536 ≤ x + y = omega arith in inr (big, exec_add-overflow r big)
  ]

  exec_sub-difference :
      Ready2 block s x y rest → y ≤ x → Gives block s (x - y) rest (exec_sub block s)
  unfolding exec_sub
  exec_sub-difference r h =
      let word = (second r).word_y in
      let e : to_word (x - y) ≡ x - y = omega arith in
      let fits : leb y x ≡ true = ground arith in
      rw ((first r).pop_y, (second r).pop_y, fits, e) (gives r (x - y) (omega arith))

  exec_sub-underflow :
      Ready2 block s x y rest → x < y → Fails s (sub_underflow x y) (exec_sub block s)
  unfolding exec_sub
  exec_sub-underflow r h =
      let f = first r in
      let g = second r in
      let small : leb y x ≡ false = ground arith in
      record {
        final = record (g.left) { sp = g.left.sp + 2 };
        runs = rw (f.pop_y, g.pop_y, small);
        height = omega (arith, f.height, g.height);
        regs = SameRegs-sp (SameRegs-trans f.regs g.regs);
      }

  -- `sub` on a stack with two words above the frame: it replaces `x` and `y` by `x - y`, or stops
  -- with an error because `x` is less than `y`; in that case the stack pointer and the segment
  -- registers are those from before the instruction.
  pub exec_sub_cases :
      Ready2 block s x y rest
      → ((y ≤ x) × Gives block s (x - y) rest (exec_sub block s))
        ⊎ ((x < y) × Fails s (sub_underflow x y) (exec_sub block s))
  exec_sub_cases r = elim (dec_lt x y) [
    | yes h ↦ inr (h, exec_sub-underflow r h)
    | no h ↦ let fits : y ≤ x = omega arith in inl (fits, exec_sub-difference r fits)
  ]

  -- `and` and `or` replace `x` and `y` on top by the bitwise results, which are words without
  -- the conversion.
  pub exec_and-or :
      Ready2 block s x y rest
      → Gives block s (bit_and x y) rest (exec_and block s)
        × Gives block s (bit_or x y) rest (exec_or block s)
  unfolding exec_and exec_or
  exec_and-or r =
      let f = first r in
      let g = second r in
      let a = bit_and-lt 16 x y g.word_y f.word_y in
      let o = bit_or-lt 16 x y g.word_y f.word_y in
      let ea : to_word (bit_and x y) ≡ bit_and x y = omega arith in
      let eo : to_word (bit_or x y) ≡ bit_or x y = omega arith in
      (
        rw (f.pop_y, g.pop_y, ea) (gives r (bit_and x y) a),
        rw (f.pop_y, g.pop_y, eo) (gives r (bit_or x y) o),
      )

  -- Of `eq`, `lt` and `gt` on the same two words exactly the one that fits leaves 0xFFFF, the
  -- others leave 0.
  pub compare_trichotomy :
      Ready2 block s x y rest
      → (e l g : ℕ) × Gives block s e rest (exec_eq block s)
        × Gives block s l rest (exec_lt block s)
        × Gives block s g rest (exec_gt block s)
        × (e + l + g ≡ 0xFFFF)
        × ((e ≡ 0xFFFF) ↔ (x ≡ y))
        × ((l ≡ 0xFFFF) ↔ (x < y))
        × ((g ≡ 0xFFFF) ↔ (y < x))
  unfolding exec_eq exec_lt exec_gt
  compare_trichotomy r =
      let f = first r in
      let g = second r in
      let e : ℕ = if x == y then true_word else false_word in
      let l : ℕ = if ltb x y then true_word else false_word in
      let m : ℕ = if ltb y x then true_word else false_word in
      (
        e,
        l,
        m,
        rw (f.pop_y, g.pop_y) (gives r e (ground arith)),
        rw (f.pop_y, g.pop_y) (gives r l (ground arith)),
        rw (f.pop_y, g.pop_y) (gives r m (ground arith)),
        ground arith,
        ground arith,
        ground arith,
        ground arith,
      )

module _ (block : ℕ) (s : Stack) (y : ℕ) (rest : List (Option ℕ)) where
  only : Ready1 block s y rest → Operand block s y rest
  only r = pop-Operand block s y _ r.valid (omega (arith, r.above)) r.words

  -- `neg` leaves the word that is 0 with the operand, modulo 2^16; `not` the word that has each
  -- of the 16 digits of the operand flipped, as their sum shows.
  pub exec_neg-not :
      Ready1 block s y rest
      → (n m : ℕ) × Gives block s n rest (exec_neg block s)
        × Gives block s m rest (exec_not block s)
        × ((n + y) % 65536 ≡ 0)
        × (m + y ≡ 65535)
        × (n ≡ (m + 1) % 65536)
  unfolding exec_neg exec_not
  exec_neg-not r =
      let f = only r in
      let w = f.word_y in
      let at =
        λ (v : ℕ) (h : v < 65536). push-Gives block s f.left v rest f.regs f.valid f.remains h in
      let n : ℕ = to_word (65535 - y + 1) in
      let m : ℕ = 65535 - y in
      (
        n,
        m,
        rw f.pop_y (at n (omega arith)),
        rw f.pop_y (at m (omega arith)),
        omega arith,
        omega arith,
        omega arith,
      )
