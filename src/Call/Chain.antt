-- ===== src/Call/Chain.antt =====
-- src/exec.c: the calls that are under way, read off the operand stack.
use hvme.Prelude.{
  ℕ, ◌+◌, ◌≤◌, ◌<◌, ◌≡◌, ◌∙◌, refl, Option, List, [], ◌∷◌, inl, inr, arith, get_elem?,
}
use hvme.Stack.{Stack}
use hvme.Stack.Valid.{SameRegs}
use hvme.Stack.Confined.{Confined}

-- The segment registers of a function.
pub record Frame : Type 0 where
  pub arg : ℕ
  pub arg_len : ℕ
  pub lcl : ℕ
  pub lcl_len : ℕ

-- Those of the running function.
abbrev pub frame_of : Stack → Frame
frame_of s = record { arg = s.arg; arg_len = s.arg_len; lcl = s.lcl; lcl_len = s.lcl_len }

-- `f` is the frame of a function that one with the frame `c` has called, in a program of `nfiles`
-- files: the eight saved words stand between its arguments and its locals and are those of the
-- caller, and its arguments lie above the caller's locals.
pub record Called (nfiles : ℕ) (ops : ℕ → Option ℕ) (c f : Frame) : Type 0 where
  pub ret_ei : ℕ
  pub ret_fi : ℕ
  pub this : ℕ
  pub that : ℕ
  pub place : f.lcl ≡ f.arg + f.arg_len + 8
  pub fits : f.lcl < 65536
  pub room : c.lcl + c.lcl_len ≤ f.arg
  pub args : c.arg + c.arg_len ≤ c.lcl
  pub back : ret_fi < nfiles
  pub this_word : this < 65536
  pub that_word : that < 65536
  pub saved :
      (k : ℕ)
      → k < 8
      → ops (f.arg + f.arg_len + k)
        ≡ get_elem? (ret_ei ∷ ret_fi ∷ c.lcl ∷ c.lcl_len ∷ c.arg ∷ c.arg_len ∷ this ∷ that ∷ []) k

-- The frame `f`, with those of its callers, the nearest first. Outside of every call all
-- registers are 0.
abbrev pub IsChain : ℕ → (ℕ → Option ℕ) → Frame → List Frame → Type 0
IsChain n ops f [] = (f.arg ≡ 0) × (f.arg_len ≡ 0) × (f.lcl ≡ 0) × (f.lcl_len ≡ 0)
IsChain n ops f (c ∷ cs) = Called n ops c f × IsChain n ops c cs

pub IsChain-args :
    (n : ℕ) (ops : ℕ → Option ℕ) (f : Frame) (cs : List Frame)
    → IsChain n ops f cs
    → f.arg + f.arg_len ≤ f.lcl
IsChain-args n ops f [] h = omega arith
IsChain-args n ops f (c ∷ cs) (h, k) = omega (arith, h.place)

Called-agrees :
    {n : ℕ} {ops ops' : ℕ → Option ℕ} {c f : Frame}
    → Called n ops c f
    → ((k : ℕ) → k < 8 → ops' (f.arg + f.arg_len + k) ≡ ops (f.arg + f.arg_len + k))
    → Called n ops' c f
Called-agrees h same = record {
  ret_ei = h.ret_ei;
  ret_fi = h.ret_fi;
  this = h.this;
  that = h.that;
  place = h.place;
  fits = h.fits;
  room = h.room;
  args = h.args;
  back = h.back;
  this_word = h.this_word;
  that_word = h.that_word;
  saved = λ k a. same k a ∙ h.saved k a;
}

-- A chain is a matter of the cells below the locals.
pub IsChain-agrees :
    (n : ℕ) (ops ops' : ℕ → Option ℕ) (f : Frame) (cs : List Frame)
    → ((i : ℕ) → i < f.lcl → ops' i ≡ ops i)
    → IsChain n ops f cs
    → IsChain n ops' f cs
IsChain-agrees n ops ops' f [] same h = h
IsChain-agrees n ops ops' f (c ∷ cs) same (h, k) = (
  Called-agrees h (λ i a. same _ (omega (arith, h.place))),
  IsChain-agrees n ops ops' c cs (λ i a. same i (omega (arith, h.place, h.room))) k,
)

pub frame_of-eq : (s t : Stack) → SameRegs s t → frame_of t ≡ frame_of s
frame_of-eq s t r = rw (r.arg, r.arg_len, r.lcl, r.lcl_len) refl

-- Changes in the frame on top keep the chain.
pub IsChain-Confined :
    (block n : ℕ) (s t : Stack) (cs : List Frame)
    → Confined block s t
    → IsChain n s.ops (frame_of s) cs
    → IsChain n t.ops (frame_of t) cs
IsChain-Confined block n s t [] r h = ground (arith, r.regs, h)
IsChain-Confined block n s t (c ∷ cs) r (h, k) = rw (frame_of-eq s t r.regs) (
  Called-agrees h (λ i a. r.outside _ (omega (arith, h.place)) (inr (omega arith))),
  IsChain-agrees n s.ops t.ops c cs
      (λ i a. r.outside i (omega (arith, h.place, h.room)) (inl (omega (arith, h.room)))) k,
)
