-- ===== src/Call/Frame.antt =====
-- src/exec.c: the frame that `exec_call` builds on the operand stack.
use hvme.Prelude.{
  ℕ, zero, suc, ◌+◌, ◌-◌, ◌≤◌, ◌<◌, ◌≡◌, ◌∙◌, refl, ap, some, List, [], ◌∷◌, Bool-cases, inl, inr,
  ltb, ◌==◌, arith, length, get_elem?, replicate, length-replicate,
}
use hvme.Exec.{Run, ok, err, fault, through-ok}
use hvme.Heap.{Heap}
use hvme.Stack.{Stack, store, grow, spush}
use hvme.Stack.Valid.{IsValid, SameRegs, Pushed, spush-Pushed}
use hvme.Call.{spush_all, push_locals, saved_words, enter_frame}

-- A list of words.
abbrev pub AllWords : List ℕ → Type 0
AllWords [] = Unit
AllWords (v ∷ vs) = (v < 65536) × AllWords vs

-- `t` is `s` with the words of a list on top, the last one highest.
pub record PushedAll (block : ℕ) (vs : List ℕ) (s t : Stack) : Type 0 where
  pub height : t.sp ≡ s.sp + length vs
  pub tops : (k : ℕ) → k < length vs → t.ops (s.sp + k) ≡ get_elem? vs k
  pub below : (i : ℕ) → i < s.sp → t.ops i ≡ s.ops i
  pub regs : SameRegs s t
  pub valid : IsValid block t

PushedAll-cons :
    (block v : ℕ) (vs : List ℕ) (s t u : Stack)
    → Pushed block v s t
    → PushedAll block vs t u
    → PushedAll block (v ∷ vs) s u
PushedAll-cons block v vs s t u p q = record {
  height = omega (arith, p.height, q.height);
  tops = tops;
  below = λ i h. q.below i (omega (arith, p.height)) ∙ p.below i h;
  regs = ground (arith, p.regs, q.regs);
  valid = q.valid;
}
  where
    tops : (k : ℕ) → k < length (v ∷ vs) → u.ops (s.sp + k) ≡ get_elem? (v ∷ vs) k
    tops zero h =
        let e : s.sp + zero ≡ s.sp = omega arith in
        rw e (q.below s.sp (omega (arith, p.height)) ∙ p.top)
    tops (suc k) h =
        let e : s.sp + suc k ≡ t.sp + k = omega (arith, p.height) in rw e (q.tops k (omega arith))

pub spush_all-PushedAll :
    (block : ℕ) (vs : List ℕ) (s : Stack)
    → IsValid block s
    → AllWords vs
    → (t : Stack) × (spush_all block vs s ≡ ok t) × PushedAll block vs s t
unfolding spush_all
spush_all-PushedAll block [] s w a = (
  s,
  refl,
  record {
    height = omega arith;
    tops = λ k h. absurd (omega arith);
    below = λ i h. refl;
    regs = ground arith;
    valid = w;
  },
)
spush_all-PushedAll block (v ∷ vs) s w (a, as') =
    let (t, run, p) = spush-Pushed block v s w a in
    let (u, runs, q) = spush_all-PushedAll block vs t p.valid as' in
    (u, rw (run, runs), PushedAll-cons block v vs s t u p q)

-- The stack with other segment registers.
abbrev pub with_regs : ℕ → ℕ → ℕ → ℕ → Stack → Stack
with_regs arg arg_len lcl lcl_len s = record s {
  arg = arg;
  arg_len = arg_len;
  lcl = lcl;
  lcl_len = lcl_len;
}

on_regs : ℕ → ℕ → ℕ → ℕ → Run Stack Stack → Run Stack Stack
on_regs a b c d (ok t) = ok (with_regs a b c d t)
on_regs a b c d (err e t) = err e t
on_regs a b c d (fault u) = fault u

-- `spush` does not look at the segment registers.
spush-on_regs :
    (block v a b c d : ℕ) (s : Stack)
    → spush block v (with_regs a b c d s) ≡ on_regs a b c d (spush block v s)
unfolding spush store grow on_regs
spush-on_regs block v a b c d s = elim (Bool-cases (s.sp == s.len)) [
  | inl e ↦ elim (Bool-cases (ltb s.sp (s.len + block))) [ inl g ↦ rw (e, g) | inr g ↦ rw (e, g) ]
  | inr e ↦ elim (Bool-cases (ltb s.sp s.len)) [ inl g ↦ rw (e, g) | inr g ↦ rw (e, g) ]
]

spush-with_regs :
    (block v a b c d : ℕ) (s t : Stack)
    → spush block v s ≡ ok t
    → spush block v (with_regs a b c d s) ≡ ok (with_regs a b c d t)
unfolding on_regs
spush-with_regs block v a b c d s t run = spush-on_regs block v a b c d s ∙ ap (on_regs a b c d) run

push_locals-with_regs :
    (block n a b c d : ℕ) (s t : Stack)
    → spush_all block (replicate n 0) s ≡ ok t
    → push_locals block n (with_regs a b c d s) ≡ ok (with_regs a b c d t)
unfolding spush_all push_locals on_regs
push_locals-with_regs block zero a b c d s t run = ap (on_regs a b c d) run
push_locals-with_regs block (suc n) a b c d s t run =
    let (u, first, rest) = through-ok (spush block 0 s) run in
    rw (spush-with_regs block 0 a b c d s u first) (push_locals-with_regs block n a b c d u t rest)

get_elem?-zeros : (n k : ℕ) → k < n → get_elem? {A = ℕ} (replicate n 0) k ≡ some 0
get_elem?-zeros zero k h = absurd (omega arith)
get_elem?-zeros (suc n) zero h = refl
get_elem?-zeros (suc n) (suc k) h = get_elem?-zeros n k (omega arith)

-- What `enter_frame` leaves of the caller's stack `s`.
pub record Framed (block ret_ei ret_fi nargs nlocals : ℕ) (h : Heap) (s t : Stack) : Type 0 where
  pub height : t.sp ≡ s.sp + 8 + nlocals
  pub arg : t.arg ≡ s.sp - nargs
  pub arg_len : t.arg_len ≡ nargs
  pub lcl : t.lcl ≡ s.sp + 8
  pub lcl_len : t.lcl_len ≡ nlocals
  pub saved : (k : ℕ) → k < 8 → t.ops (s.sp + k) ≡ get_elem? (saved_words ret_ei ret_fi s h) k
  pub locals : (k : ℕ) → k < nlocals → t.ops (s.sp + 8 + k) ≡ some 0
  pub below : (i : ℕ) → i < s.sp → t.ops i ≡ s.ops i
  pub valid : IsValid block t

AllWords-zeros : (n : ℕ) → AllWords (replicate n 0)
AllWords-zeros zero = tt
AllWords-zeros (suc n) = (omega arith, AllWords-zeros n)

-- On a valid stack with the arguments that a call names, and with a return position of 16 bits,
-- `enter_frame` succeeds: it puts the eight saved words and then the locals, all 0, on the stack,
-- keeps the cells below, and points the registers at the arguments and at the locals.
pub enter_frame-Framed :
    (block ret_ei ret_fi nargs nlocals : ℕ) (h : Heap) (s : Stack)
    → IsValid block s
    → nargs ≤ s.sp
    → ret_ei < 65536
    → ret_fi < 65536
    → (t : Stack) × (enter_frame block ret_ei ret_fi nargs nlocals h s ≡ ok t)
      × Framed block ret_ei ret_fi nargs nlocals h s t
unfolding enter_frame
enter_frame-Framed block ret_ei ret_fi nargs nlocals h s w n he hf =
    let saved = saved_words ret_ei ret_fi s h in
    let words : AllWords saved = omega arith in
    let (t, run, p) = spush_all-PushedAll block saved s w words in
    let (u, runs, q) =
      spush_all-PushedAll block (replicate nlocals 0) t p.valid (AllWords-zeros nlocals) in
    let high : t.sp ≡ s.sp + 8 = p.height in
    let eight : length {A = ℕ} (replicate nlocals 0) ≡ nlocals = length-replicate nlocals 0 in
    (
      with_regs (t.sp - 8 - nargs) nargs t.sp nlocals u,
      rw run (push_locals-with_regs block nlocals (t.sp - 8 - nargs) nargs t.sp nlocals t u runs),
      record {
        height = omega (arith, q.height);
        arg = omega arith;
        arg_len = refl;
        lcl = high;
        lcl_len = refl;
        saved = λ k x. q.below (s.sp + k) (omega arith) ∙ p.tops k x;
        locals =
            λ k x. ap u.ops (omega arith) ∙ q.tops k (omega arith) ∙ get_elem?-zeros nlocals k x;
        below = λ i x. q.below i (omega arith) ∙ p.below i x;
        valid = record {
          positive = w.positive;
          within = q.valid.within;
          spare = q.valid.spare;
          blocks = q.valid.blocks;
          base = omega (arith, q.height);
          filled = q.valid.filled;
        };
      },
    )
