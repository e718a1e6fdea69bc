-- ===== src/Call/Return.antt =====
-- src/exec.c: `exec_ret` undoes what `exec_call` did to the registers.
use hvme.Prelude.{
  ℕ, ◌+◌, ◌-◌, ◌≤◌, ◌<◌, ◌≡◌, ◌∙◌, refl, ap, some, false, ltb, ◌==◌, if◌then◌else◌, lt→ltb, arith,
  get_elem?, to_word, update, ne→not_==, ==_refl, dec_lt,
}
use hvme.Exec.{ok}
use hvme.Heap.{Heap}
use hvme.Stack.{Stack, load, store, pop_word}
use hvme.Stack.Valid.{IsWord, IsValid, Popped, pop_word-Popped}
use hvme.Call.Keeps.{Keeps, Fits, Returned}
use hvme.Call.{saved_words, load_below, leave_frame, Restored}

load-some : (i v : ℕ) (s : Stack) → i < s.len → s.ops i ≡ some v → load i s ≡ ok v
unfolding load
load-some i v s h e = rw (lt→ltb _ _ h, e)

pub load_below-some :
    (base k j v : ℕ) (s : Stack)
    → j + k ≡ 8
    → base + j < s.len
    → s.ops (base + j) ≡ some v
    → load_below (base + 8) k s ≡ ok v
unfolding load_below
load_below-some base k j v s sum h e =
    let inside : ltb (base + 8) k ≡ false = ground arith in
    let same : base + 8 - k ≡ base + j = omega arith in
    rw (inside, same) (load-some (base + j) v s h e)

store-some :
    (i v : ℕ) (s : Stack)
    → i < s.len
    → store i v s ≡ ok (record s { ops = update s.ops i (some v) })
unfolding store
store-some i v s h = rw (lt→ltb _ _ h)

module _ (block ret_ei ret_fi nargs nlocals : ℕ) (h : Heap) (s u : Stack) (caller : IsValid block s)
    (fits : Fits s h) (enough : s.lcl + s.lcl_len + nargs ≤ s.sp)
    (keeps : Keeps block ret_ei ret_fi nargs nlocals h s u) (value : u.lcl + u.lcl_len < u.sp) where
  -- The return value, and the stack after it has been popped.
  top : (v : ℕ) × (t : Stack) × (pop_word block u ≡ ok (v, t)) × Popped block v u t
  top = pop_word-Popped block u keeps.valid value

  popped : Stack
  popped = top.1

  popped_lem : Popped block top.0 u popped
  unfolding popped
  popped_lem = top.3

  stored : Stack
  stored = record popped { ops = update popped.ops popped.arg (some top.0) }

  -- The saved words are there before and after the value is stored.
  before_at :
      (k w : ℕ)
      → k < 8
      → get_elem? (saved_words ret_ei ret_fi s h) k ≡ some w
      → (s.sp + k < u.len) × (u.ops (s.sp + k) ≡ some w)
  before_at k w a e =
      (omega (arith, keeps.lcl, keeps.valid.base, keeps.valid.within), keeps.saved k a ∙ e)

  after_at :
      (k w : ℕ)
      → 2 ≤ k
      → k < 8
      → get_elem? (saved_words ret_ei ret_fi s h) k ≡ some w
      → (s.sp + k < stored.len) × (stored.ops (s.sp + k) ≡ some w)
  unfolding stored
  after_at k w a b e =
      let p = popped_lem in
      let high : s.sp + 8 ≤ popped.sp = omega (arith, keeps.lcl, p.valid.base, p.regs.lcl) in
      let apart : (s.sp + k == popped.arg) ≡ false =
        ne→not_== (s.sp + k) popped.arg (omega (arith, keeps.arg, p.regs.arg)) in
      (
        omega (arith, p.valid.within),
        rw apart (p.below (s.sp + k) (omega arith) ∙ keeps.saved k b ∙ e),
      )

  returned : Restored
  returned = record {
    stack = record stored {
      sp = stored.arg + 1;
      arg = s.arg;
      arg_len = s.arg_len;
      lcl = s.lcl;
      lcl_len = s.lcl_len;
    };
    this = h.this;
    that = h.that;
    ret_ei = ret_ei;
    ret_fi = ret_fi;
  }

  -- A word that fits is saved unchanged.
  before_load :
      (k j w : ℕ)
      → j + k ≡ 8
      → j < 8
      → get_elem? (saved_words ret_ei ret_fi s h) j ≡ some w
      → load_below (s.sp + 8) k u ≡ ok w
  before_load k j w sum a e =
      let (inside, there) = before_at j w a e in load_below-some s.sp k j w u sum inside there

  after_load :
      (k j w : ℕ)
      → j + k ≡ 8
      → 2 ≤ j
      → j < 8
      → w < 65536
      → get_elem? (saved_words ret_ei ret_fi s h) j ≡ some (to_word w)
      → load_below (s.sp + 8) k stored ≡ ok w
  after_load k j w sum a b fit e =
      let same : to_word w ≡ w = omega arith in
      let (inside, there) = after_at j (to_word w) a b e in
      load_below-some s.sp k j (to_word w) stored sum inside there ∙ ap ok same

  leave_frame-returned : leave_frame block u ≡ ok returned
  unfolding leave_frame returned stored popped
  leave_frame-returned =
      let frame : to_word u.lcl ≡ s.sp + 8 = omega (arith, keeps.lcl, fits.sp) in
      let p = popped_lem in
      let room : popped.arg < popped.len =
        omega (arith, p.regs.arg, keeps.arg, p.valid.base, p.valid.within, p.regs.lcl, keeps.lcl) in
      rw (
        frame,
        before_load 8 0 ret_ei (omega arith) (omega arith) refl,
        before_load 7 1 ret_fi (omega arith) (omega arith) refl,
        top.2,
        store-some popped.arg top.0 popped room,
        after_load 1 7 h.that (omega arith) (omega arith) (omega arith) fits.that refl,
        after_load 2 6 h.this (omega arith) (omega arith) (omega arith) fits.this refl,
        after_load 3 5 s.arg_len (omega arith) (omega arith) (omega arith) fits.arg_len refl,
        after_load 4 4 s.arg (omega arith) (omega arith) (omega arith) fits.arg refl,
        after_load 5 3 s.lcl_len (omega arith) (omega arith) (omega arith) fits.lcl_len refl,
        after_load 6 2 s.lcl (omega arith) (omega arith) (omega arith) fits.lcl refl,
      )

  stored_at : (i : ℕ) → stored.ops i ≡ (if i == s.sp - nargs then some top.0 else popped.ops i)
  unfolding stored
  stored_at i = let e : popped.arg ≡ s.sp - nargs = popped_lem.regs.arg ∙ keeps.arg in rw e

  stored_below : (i : ℕ) → i < s.sp - nargs → stored.ops i ≡ u.ops i
  stored_below i a =
      let p = popped_lem in
      let other = ne→not_== i (s.sp - nargs) (omega arith) in
      let low : i < popped.sp = omega (arith, keeps.lcl, p.valid.base, p.regs.lcl) in
      stored_at i ∙ rw other (p.below i low)

  stored_value : stored.ops (s.sp - nargs) ≡ some top.0
  stored_value = stored_at (s.sp - nargs) ∙ rw (==_refl (s.sp - nargs))

  stored_filled : (i : ℕ) → i < s.sp - nargs + 1 → IsWord (stored.ops i)
  stored_filled i a = elim (dec_lt i (s.sp - nargs)) [
    | yes b ↦
        rw (stored_below i b) (keeps.valid.filled i (omega (arith, keeps.lcl, keeps.valid.base)))
    | no b ↦ let e : i ≡ s.sp - nargs = omega arith in rw (e, stored_value) popped_lem.word
  ]

  returned-Returned : Returned block ret_ei ret_fi nargs top.0 h s returned
  unfolding returned stored
  returned-Returned =
      let p = popped_lem in
      let e : popped.arg ≡ s.sp - nargs = p.regs.arg ∙ keeps.arg in
      record {
        height = omega (arith, e);
        value = stored_value;
        below = λ i a. stored_below i a ∙ keeps.below i a;
        regs = ground arith;
        this = refl;
        that = refl;
        back_ei = refl;
        back_fi = refl;
        valid = record {
          positive = caller.positive;
          within = omega (arith, e, keeps.lcl, p.valid.base, p.valid.within, p.regs.lcl);
          spare = p.valid.spare;
          blocks = p.valid.blocks;
          base = omega (arith, e);
          filled = λ i a. stored_filled i (omega (arith, e));
        };
      }

  -- `exec_ret` up to its jump, on the stack `u` of a callee that has kept its frame and has a word
  -- above its locals: it succeeds with that word in the place of the caller's arguments, the cells
  -- below as the caller had them, the caller's segment registers and heap pointers, and the
  -- position that `exec_call` saved. The registers of the caller have to fit 16 bits.
  pub leave_frame-Returned :
      (v : ℕ) × (r : Restored) × (u.ops (u.sp - 1) ≡ some v)
      × (leave_frame block u ≡ ok r)
      × Returned block ret_ei ret_fi nargs v h s r
  leave_frame-Returned =
      let p = popped_lem in
      let e : u.sp - 1 ≡ popped.sp = omega (arith, p.height) in
      (top.0, returned, ap u.ops e ∙ p.top, leave_frame-returned, returned-Returned)
