-- ===== src/Stack/Confined.antt =====
-- src/prog.c, src/exec.c: what the running function may change of the operand stack.
use hvme.Prelude.{
  ℕ, ◌+◌, ◌≤◌, ◌<◌, ◌≡◌, ◌≢◌, ◌∙◌, ◌⊎◌, inl, inr, refl, some, arith, dec_lt, lt→ltb, ne→not_==,
}
use hvme.Exec.{Ends}
use hvme.Stack.{Stack, store, spush, pop_word}
use hvme.Stack.Valid.{
  IsValid, SameRegs, Pushed, Popped, spush-Pushed, pop_word-Popped, pop_word-underflow,
}

-- `t` comes from `s` by changes in the frame on top alone: in the arguments, in the locals and
-- above. The segment registers stay, and the invariant holds.
pub record Confined (block : ℕ) (s t : Stack) : Type 0 where
  pub regs : SameRegs s t
  pub outside : (i : ℕ) → i < s.lcl → (i < s.arg) ⊎ (s.arg + s.arg_len ≤ i) → t.ops i ≡ s.ops i
  pub valid : IsValid block t

pub Confined-refl : {block : ℕ} {s : Stack} → IsValid block s → Confined block s s
Confined-refl w = record { regs = ground arith; outside = λ i a b. refl; valid = w }

pub Confined-trans :
    {block : ℕ} {s t u : Stack} → Confined block s t → Confined block t u → Confined block s u
Confined-trans {s} {t} p q = record {
  regs = ground (arith, p.regs, q.regs);
  outside = λ i a b. q.outside i (omega (arith, p.regs)) (carry i b) ∙ p.outside i a b;
  valid = q.valid;
}
  where
    carry : (i : ℕ) → (i < s.arg) ⊎ (s.arg + s.arg_len ≤ i) → (i < t.arg) ⊎ (t.arg + t.arg_len ≤ i)
    carry i (inl a) = inl (omega (arith, p.regs))
    carry i (inr a) = inr (omega (arith, p.regs))

pub Pushed-Confined :
    {block v : ℕ} {s t : Stack} → IsValid block s → Pushed block v s t → Confined block s t
Pushed-Confined w p = record {
  regs = p.regs;
  outside = λ i a b. p.below i (omega arith);
  valid = p.valid;
}

Popped-Confined : {block v : ℕ} {s t : Stack} → Popped block v s t → Confined block s t
Popped-Confined p = record {
  regs = p.regs;
  outside = λ i a b. p.below i (omega (arith, p.valid.base, p.regs));
  valid = p.valid;
}

-- `spush` of a word, `pop_word`, and a write to an argument or above the frame, never fault on a
-- valid stack, and are confined.
pub spush-Ends :
    (block v : ℕ) (s : Stack)
    → IsValid block s
    → v < 65536
    → Ends (Confined block s) (spush block v s)
spush-Ends block v s w h =
    let (t, run, p) = spush-Pushed block v s w h in rw run (Pushed-Confined w p)

-- A popped word, with the stack that is left.
pub record PopConfined (block : ℕ) (s : Stack) (r : ℕ × Stack) : Type 0 where
  pub word : r.0 < 65536
  pub height : s.sp ≡ r.1.sp + 1
  pub room : r.1.sp < r.1.len
  pub top : s.ops r.1.sp ≡ some r.0
  pub below : (i : ℕ) → i < r.1.sp → r.1.ops i ≡ s.ops i
  pub confined : Confined block s r.1

pub pop_word-Ends :
    (block : ℕ) (s : Stack) → IsValid block s → Ends (PopConfined block s) (pop_word block s)
pop_word-Ends block s w = elim (dec_lt (s.lcl + s.lcl_len) s.sp) [
  | yes h ↦
      let (v, t, run, p) = pop_word-Popped block s w h in
      rw run (record {
        word = p.word;
        height = p.height;
        room = p.room;
        top = p.top;
        below = p.below;
        confined = Popped-Confined p;
      })
  | no h ↦ rw (pop_word-underflow block s (omega arith)) tt
]

pub store-Ends :
    (block i v : ℕ) (s : Stack)
    → IsValid block s
    → i < s.len
    → v < 65536
    → ((s.arg ≤ i) × (i < s.arg + s.arg_len)) ⊎ (s.lcl ≤ i)
    → Ends (Confined block s) (store i v s)
unfolding store
store-Ends block i v s w h word place = rw (lt→ltb _ _ h) (record {
  regs = ground arith;
  outside = λ j a b. rw (ne→not_== j i (apart j a b place));
  valid = record {
    positive = w.positive;
    within = w.within;
    spare = w.spare;
    blocks = w.blocks;
    base = w.base;
    filled = λ j a. ground (arith, w.filled j);
  };
})
  where
    apart :
        (j : ℕ)
        → j < s.lcl
        → (j < s.arg) ⊎ (s.arg + s.arg_len ≤ j)
        → ((s.arg ≤ i) × (i < s.arg + s.arg_len)) ⊎ (s.lcl ≤ i)
        → j ≢ i
    apart j a b c = omega arith
