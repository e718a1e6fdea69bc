-- ===== src/Stack/Valid.antt =====
-- src/prog.c: the invariant of the operand stack, and what `spush` and `spop` do to it.
use hvme.Prelude.{
  ℕ, zero, suc, ◌+◌, ◌-◌, ◌*◌, ◌≤◌, ◌<◌, ◌≡◌, refl, inl, inr, Option, none, some, ltb, ◌==◌,
  Bool-cases, lt→ltb, le→not_ltb, arith, update, size_sub,
}
use hvme.Exec.{ok, err, stack_underflow}
use hvme.Stack.{Stack, new_stack, load, grow, spush, shrink, spop, pop_word}

-- A cell that holds a 16-bit word.
abbrev pub IsWord : Option ℕ → Type 0
IsWord none = ⊥
IsWord (some v) = v < 65536

pub IsWord-some : (o : Option ℕ) → IsWord o → (v : ℕ) × (o ≡ some v) × (v < 65536)
IsWord-some none h = absurd h
IsWord-some (some v) h = (v, refl, h)

pub record IsValid (block : ℕ) (s : Stack) : Type 0 where
  pub positive : 0 < block
  pub within : s.sp ≤ s.len
  pub spare : ℕ
  pub blocks : s.len ≡ suc spare * block
  pub base : s.lcl + s.lcl_len ≤ s.sp
  pub filled : (i : ℕ) → i < s.sp → IsWord (s.ops i)

-- The segment registers, which `spush` and `spop` leave alone.
pub record SameRegs (s t : Stack) : Type 0 where
  pub arg : t.arg ≡ s.arg
  pub arg_len : t.arg_len ≡ s.arg_len
  pub lcl : t.lcl ≡ s.lcl
  pub lcl_len : t.lcl_len ≡ s.lcl_len

-- `t` is `s` with the word `v` on top; `t` may have more room.
pub record Pushed (block v : ℕ) (s t : Stack) : Type 0 where
  pub height : t.sp ≡ s.sp + 1
  pub top : t.ops s.sp ≡ some v
  pub below : (i : ℕ) → i < s.sp → t.ops i ≡ s.ops i
  pub regs : SameRegs s t
  pub valid : IsValid block t

-- `t` is `s` without the word `v` on its top; `t` may have less room.
pub record Popped (block v : ℕ) (s t : Stack) : Type 0 where
  pub height : s.sp ≡ t.sp + 1
  pub room : t.sp < t.len
  pub top : s.ops t.sp ≡ some v
  pub word : v < 65536
  pub below : (i : ℕ) → i < t.sp → t.ops i ≡ s.ops i
  pub regs : SameRegs s t
  pub valid : IsValid block t

pub new_stack-IsValid : (block : ℕ) → 0 < block → IsValid block (new_stack block)
unfolding new_stack
new_stack-IsValid block h = record {
  positive = h;
  within = omega arith;
  spare = 0;
  blocks = omega arith;
  base = omega arith;
  filled = λ i k. absurd (omega arith);
}

grow-blocks :
    (block : ℕ) (s : Stack) → IsValid block s → (n : ℕ) × ((grow block s).len ≡ suc n * block)
unfolding grow
grow-blocks block s v = elim (Bool-cases (s.sp == s.len)) [
  | inl t ↦ (suc v.spare, rw t (omega (arith, v.blocks)))
  | inr t ↦ (v.spare, rw t v.blocks)
]

grow_lem :
    (block : ℕ) (s : Stack)
    → IsValid block s
    → (s.sp < (grow block s).len)
      × ((n : ℕ) × ((grow block s).len ≡ suc n * block))
      × ((grow block s).sp ≡ s.sp)
      × SameRegs s (grow block s)
      × ((i : ℕ) → i < s.sp → (grow block s).ops i ≡ s.ops i)
unfolding grow
grow_lem block s v =
    (ground arith, grow-blocks block s v, ground arith, ground arith, λ i h. ground arith)

push_onto : ℕ → Stack → Stack
push_onto v t = record t { ops = update t.ops t.sp (some v); sp = t.sp + 1 }

push_onto-Pushed :
    (block v : ℕ) (s t : Stack)
    → IsValid block s
    → v < 65536
    → s.sp < t.len
    → (n : ℕ) × (t.len ≡ suc n * block)
    → t.sp ≡ s.sp
    → SameRegs s t
    → ((i : ℕ) → i < s.sp → t.ops i ≡ s.ops i)
    → Pushed block v s (push_onto v t)
unfolding push_onto
push_onto-Pushed block v s t valid word room wide e regs same = record {
  height = omega arith;
  top = ground arith;
  below = λ i h. ground (arith, same i h);
  regs = ground arith;
  valid = record {
    positive = omega arith;
    within = omega arith;
    spare = wide.0;
    blocks = wide.1;
    base = omega arith;
    filled = λ i h. ground (arith, same i, valid.filled i);
  };
}

-- `spush` of a word on a valid stack succeeds.
pub spush-Pushed :
    (block v : ℕ) (s : Stack)
    → IsValid block s
    → v < 65536
    → (t : Stack) × (spush block v s ≡ ok t) × Pushed block v s t
unfolding spush push_onto
spush-Pushed block v s valid word =
    let (room, wide, e, regs, same) = grow_lem block s valid in
    (
      push_onto v (grow block s),
      rw (lt→ltb (grow block s).sp (grow block s).len (omega arith)),
      push_onto-Pushed block v s (grow block s) valid word room wide e regs same,
    )

-- What `spop` leaves: the stack one lower, after `shrink`.
lowered : ℕ → Stack → Stack
unfolding shrink
lowered block s = shrink block (record s { sp = s.sp - 1 })

-- A block that `shrink` gives back was not the only one.
shrink_blocks :
    (block len n : ℕ)
    → len ≡ suc n * block
    → (size_sub len block ≡ len - block)
      × ((sp : ℕ) → sp < len - block → (m : ℕ) × (len - block ≡ suc m * block))
shrink_blocks block len zero e = (ground arith, λ sp h. absurd (omega arith))
shrink_blocks block len (suc n) e = (ground arith, λ sp h. (n, omega arith))

shrink-blocks :
    (block : ℕ) (s : Stack) (n : ℕ)
    → s.len ≡ suc n * block
    → (m : ℕ) × ((shrink block s).len ≡ suc m * block)
unfolding shrink
shrink-blocks block s n e =
    let (plain, less) = shrink_blocks block s.len n e in
    elim (Bool-cases (ltb s.sp (size_sub s.len block))) [
      | inl t ↦ ((less s.sp (ground arith)).0, rw t (less s.sp (ground arith)).1)
      | inr t ↦ (n, rw t e)
    ]

lowered-Popped :
    (block : ℕ) (s : Stack)
    → IsValid block s
    → s.lcl + s.lcl_len < s.sp
    → (v : ℕ) × (load (lowered block s).sp (lowered block s) ≡ ok v)
      × Popped block v s (lowered block s)
unfolding lowered load
lowered-Popped block s valid h =
    let (v, e, word) = IsWord-some (s.ops (s.sp - 1)) (valid.filled (s.sp - 1) (omega arith)) in
    let plain = (shrink_blocks block s.len valid.spare valid.blocks).0 in
    let (m, fits) = shrink-blocks block (record s { sp = s.sp - 1 }) valid.spare valid.blocks in
    (
      v,
      ground arith,
      record {
        height = ground arith;
        room = ground arith;
        top = ground arith;
        word = word;
        below = λ i k. ground arith;
        regs = ground arith;
        valid = record {
          positive = ground arith;
          within = ground arith;
          spare = m;
          blocks = fits;
          base = ground arith;
          filled = λ i k. ground (arith, valid.filled i);
        };
      },
    )

-- `spop` on a valid stack never faults: it takes the top word above the frame, or reports that
-- there is none and changes nothing.
pub spop-Popped :
    (block : ℕ) (s : Stack)
    → IsValid block s
    → s.lcl + s.lcl_len < s.sp
    → (v : ℕ) × (t : Stack) × (spop block s ≡ ok (some v, t)) × Popped block v s t
unfolding spop lowered
spop-Popped block s valid h =
    let (v, run, p) = lowered-Popped block s valid h in
    (v, lowered block s, rw (lt→ltb _ _ h, run), p)

pub spop-underflow :
    (block : ℕ) (s : Stack) → s.sp ≤ s.lcl + s.lcl_len → spop block s ≡ ok (none, s)
unfolding spop
spop-underflow block s h = rw (le→not_ltb _ _ h)

-- What `if (!spop(stack, &v)) STACK_UNDERFLOW_ERROR(pos)` does on a valid stack.
pub pop_word-Popped :
    (block : ℕ) (s : Stack)
    → IsValid block s
    → s.lcl + s.lcl_len < s.sp
    → (v : ℕ) × (t : Stack) × (pop_word block s ≡ ok (v, t)) × Popped block v s t
unfolding pop_word
pop_word-Popped block s valid h =
    let (v, t, run, p) = spop-Popped block s valid h in (v, t, rw run, p)

pub pop_word-underflow :
    (block : ℕ) (s : Stack) → s.sp ≤ s.lcl + s.lcl_len → pop_word block s ≡ err stack_underflow s
unfolding pop_word
pop_word-underflow block s h = rw (spop-underflow block s h)
