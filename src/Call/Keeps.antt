-- ===== src/Call/Keeps.antt =====
-- src/exec.c: what a function keeps of the frame that `exec_call` built, and what its caller gets.
use hvme.Prelude.{ℕ, ◌+◌, ◌-◌, ◌≤◌, ◌<◌, ◌≡◌, ◌∙◌, some, inl, inr, arith, get_elem?}
use hvme.Heap.{Heap}
use hvme.Stack.{Stack}
use hvme.Stack.Valid.{IsValid, SameRegs}
use hvme.Stack.Confined.{Confined}
use hvme.Call.Frame.{Framed}
use hvme.Call.{saved_words, Restored}

-- What a callee has to keep of the frame that `enter_frame` built on `s`: the registers, the
-- eight saved words, and the cells below the arguments.
pub record Keeps (block ret_ei ret_fi nargs nlocals : ℕ) (h : Heap) (s u : Stack) : Type 0 where
  pub arg : u.arg ≡ s.sp - nargs
  pub arg_len : u.arg_len ≡ nargs
  pub lcl : u.lcl ≡ s.sp + 8
  pub lcl_len : u.lcl_len ≡ nlocals
  pub saved : (k : ℕ) → k < 8 → u.ops (s.sp + k) ≡ get_elem? (saved_words ret_ei ret_fi s h) k
  pub below : (i : ℕ) → i < s.sp - nargs → u.ops i ≡ s.ops i
  pub valid : IsValid block u

-- The registers of a caller fit the words in which they are saved.
pub record Fits (s : Stack) (h : Heap) : Type 0 where
  pub sp : s.sp + 8 < 65536
  pub lcl : s.lcl < 65536
  pub lcl_len : s.lcl_len < 65536
  pub arg : s.arg < 65536
  pub arg_len : s.arg_len < 65536
  pub this : h.this < 65536
  pub that : h.that < 65536

-- What `leave_frame` returns to the caller whose stack was `s`.
pub record Returned (block ret_ei ret_fi nargs v : ℕ) (h : Heap) (s : Stack) (r : Restored)
    : Type 0 where
  pub height : r.stack.sp ≡ s.sp - nargs + 1
  pub value : r.stack.ops (s.sp - nargs) ≡ some v
  pub below : (i : ℕ) → i < s.sp - nargs → r.stack.ops i ≡ s.ops i
  pub regs : SameRegs s r.stack
  pub this : r.this ≡ h.this
  pub that : r.that ≡ h.that
  pub back_ei : r.ret_ei ≡ ret_ei
  pub back_fi : r.ret_fi ≡ ret_fi
  pub valid : IsValid block r.stack

-- A frame that has just been built is kept.
pub Framed-Keeps :
    {block ret_ei ret_fi nargs nlocals : ℕ} {h : Heap} {s t : Stack}
    → Framed block ret_ei ret_fi nargs nlocals h s t
    → Keeps block ret_ei ret_fi nargs nlocals h s t
Framed-Keeps f = record {
  arg = f.arg;
  arg_len = f.arg_len;
  lcl = f.lcl;
  lcl_len = f.lcl_len;
  saved = f.saved;
  below = λ i a. f.below i (omega arith);
  valid = f.valid;
}

-- Changes in the frame on top keep it.
pub Keeps-Confined :
    {block ret_ei ret_fi nargs nlocals : ℕ} {h : Heap} {s t u : Stack}
    → nargs ≤ s.sp
    → Keeps block ret_ei ret_fi nargs nlocals h s t
    → Confined block t u
    → Keeps block ret_ei ret_fi nargs nlocals h s u
Keeps-Confined {s} n k c = record {
  arg = c.regs.arg ∙ k.arg;
  arg_len = c.regs.arg_len ∙ k.arg_len;
  lcl = c.regs.lcl ∙ k.lcl;
  lcl_len = c.regs.lcl_len ∙ k.lcl_len;
  saved = λ i a.
      c.outside (s.sp + i) (omega (arith, k.lcl)) (inr (omega (arith, k.arg, k.arg_len)))
      ∙ k.saved i a;
  below = λ i a. c.outside i (omega (arith, k.lcl)) (inl (omega (arith, k.arg))) ∙ k.below i a;
  valid = c.valid;
}
