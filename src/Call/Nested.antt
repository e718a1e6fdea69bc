-- ===== src/Call/Nested.antt =====
-- src/exec.c: `exec_call` adds a frame to the chain of calls, and `exec_ret` takes it off.
use hvme.Prelude.{
  ℕ, ◌+◌, ◌≤◌, ◌<◌, ◌≡◌, ◌∙◌, refl, ap, sym, List, [], ◌∷◌, arith, get_elem?, to_word, dec_lt,
}
use hvme.Exec.{Ends, err, stack_underflow}
use hvme.Heap.{Heap}
use hvme.Stack.{Stack}
use hvme.Stack.Valid.{IsValid, pop_word-underflow}
use hvme.Call.Frame.{Framed}
use hvme.Call.Chain.{Frame, frame_of, frame_of-eq, Called, IsChain, IsChain-args, IsChain-agrees}
use hvme.Call.Keeps.{Keeps, Fits, Returned}
use hvme.Call.Return.{leave_frame-Returned, load_below-some}
use hvme.Call.{saved_words, leave_frame, Restored}

-- Words that fit are saved unchanged.
saved_words-Fits :
    (ret_ei ret_fi : ℕ) (s : Stack) (h : Heap)
    → Fits s h
    → saved_words ret_ei ret_fi s h
      ≡ ret_ei ∷ ret_fi ∷ s.lcl ∷ s.lcl_len ∷ s.arg ∷ s.arg_len ∷ h.this ∷ h.that ∷ []
saved_words-Fits ret_ei ret_fi s h f =
    rw
      (
        same s.lcl f.lcl,
        same s.lcl_len f.lcl_len,
        same s.arg f.arg,
        same s.arg_len f.arg_len,
        same h.this f.this,
        same h.that f.that,
      )
      refl
  where
    same : (w : ℕ) → w < 65536 → to_word w ≡ w
    same w x = omega arith

-- The caller's registers all fit a word if the height of the stack does.
Framed-Called :
    (block n ret_ei ret_fi nargs nlocals : ℕ) (h : Heap) (s t : Stack)
    → s.lcl + s.lcl_len + nargs ≤ s.sp
    → s.sp + 8 < 65536
    → s.arg + s.arg_len ≤ s.lcl
    → ret_fi < n
    → h.this < 65536
    → h.that < 65536
    → Framed block ret_ei ret_fi nargs nlocals h s t
    → Called n t.ops (frame_of s) (frame_of t)
Framed-Called block n ret_ei ret_fi nargs nlocals h s t room fit args back a b f = record {
  ret_ei = ret_ei;
  ret_fi = ret_fi;
  this = h.this;
  that = h.that;
  place = omega (arith, f.arg, f.arg_len, f.lcl);
  fits = omega (arith, f.lcl);
  room = omega (arith, f.arg);
  args = args;
  back = back;
  this_word = a;
  that_word = b;
  saved = λ k x.
      ap t.ops (omega (arith, f.arg, f.arg_len))
      ∙ f.saved k x
      ∙ ap (λ ws. get_elem? ws k) (saved_words-Fits ret_ei ret_fi s h fit_all);
}
  where
    fit_all : Fits s h
    fit_all = record {
      sp = fit;
      lcl = omega arith;
      lcl_len = omega arith;
      arg = omega arith;
      arg_len = omega arith;
      this = a;
      that = b;
    }

pub Framed-IsChain :
    (block n ret_ei ret_fi nargs nlocals : ℕ) (h : Heap) (s t : Stack) (cs : List Frame)
    → s.lcl + s.lcl_len + nargs ≤ s.sp
    → s.sp + 8 < 65536
    → ret_fi < n
    → h.this < 65536
    → h.that < 65536
    → IsChain n s.ops (frame_of s) cs
    → Framed block ret_ei ret_fi nargs nlocals h s t
    → IsChain n t.ops (frame_of t) (frame_of s ∷ cs)
Framed-IsChain block n ret_ei ret_fi nargs nlocals h s t cs room fit back a b chain f = (
  Framed-Called block n ret_ei ret_fi nargs nlocals h s t room fit
      (IsChain-args n s.ops (frame_of s) cs chain) back a b f,
  IsChain-agrees n s.ops t.ops (frame_of s) cs (λ i x. f.below i (omega arith)) chain,
)

-- What `exec_ret` restores when the frames of the callers are `c` and `cs`.
pub record BackIn (block n : ℕ) (c : Frame) (cs : List Frame) (r : Restored) : Type 0 where
  pub valid : IsValid block r.stack
  pub frame : frame_of r.stack ≡ c
  pub chain : IsChain n r.stack.ops (frame_of r.stack) cs
  pub this_word : r.this < 65536
  pub that_word : r.that < 65536
  pub back : r.ret_fi < n

module _ (block n : ℕ) (u : Stack) (c : Frame) (cs : List Frame) (w : IsValid block u)
    (called : Called n u.ops c (frame_of u)) (chain : IsChain n u.ops c cs) where
  -- The stack and the heap pointers of the caller, as far as they are known.
  caller : Stack
  caller = record u {
    sp = u.arg + u.arg_len;
    arg = c.arg;
    arg_len = c.arg_len;
    lcl = c.lcl;
    lcl_len = c.lcl_len;
  }

  pointers : Heap
  pointers = record { mem = λ _. 0; this = called.this; that = called.that }

  caller-IsValid : IsValid block caller
  unfolding caller
  caller-IsValid = record {
    positive = w.positive;
    within = omega (arith, called.place, w.base, w.within);
    spare = w.spare;
    blocks = w.blocks;
    base = omega (arith, called.room);
    filled = λ i a. w.filled i (omega (arith, called.place, w.base));
  }

  caller-Fits : Fits caller pointers
  unfolding caller pointers
  caller-Fits = record {
    sp = omega (arith, called.place, called.fits);
    lcl = omega (arith, called.place, called.fits, called.room);
    lcl_len = omega (arith, called.place, called.fits, called.room);
    arg = omega (arith, called.place, called.fits, called.room, called.args);
    arg_len = omega (arith, called.place, called.fits, called.room, called.args);
    this = called.this_word;
    that = called.that_word;
  }

  keeps : Keeps block called.ret_ei called.ret_fi u.arg_len u.lcl_len pointers caller u
  unfolding caller pointers
  keeps = record {
    arg = omega arith;
    arg_len = refl;
    lcl = called.place;
    lcl_len = refl;
    saved = λ k a.
        called.saved k a
        ∙ sym (
            ap (λ ws. get_elem? ws k)
              (saved_words-Fits called.ret_ei called.ret_fi caller pointers caller-Fits));
    below = λ i a. refl;
    valid = w;
  }

  -- Without a word above the locals, `exec_ret` reports an underflow.
  leave_frame-underflow : u.sp ≤ u.lcl + u.lcl_len → leave_frame block u ≡ err stack_underflow u
  unfolding leave_frame
  leave_frame-underflow h =
      let frame : to_word u.lcl ≡ u.arg + u.arg_len + 8 =
        omega (arith, called.place, called.fits) in
      let inside : u.arg + u.arg_len + 8 ≤ u.len = omega (arith, called.place, w.base, w.within) in
      rw (
        frame,
        load_below-some (u.arg + u.arg_len) 8 0 called.ret_ei u (omega arith) (omega arith)
            (called.saved 0 (omega arith)),
        load_below-some (u.arg + u.arg_len) 7 1 called.ret_fi u (omega arith) (omega arith)
            (called.saved 1 (omega arith)),
        pop_word-underflow block u h,
      )

  -- In a function that has been called, `exec_ret` finds the saved words where they belong, and
  -- goes back to the frame of the caller; or it reports that there is nothing to return.
  pub leave_frame-BackIn : Ends (BackIn block n c cs) (leave_frame block u)
  unfolding caller pointers
  leave_frame-BackIn = elim (dec_lt (u.lcl + u.lcl_len) u.sp) [
    | yes value ↦
        let (v, r, top, run, back) =
          leave_frame-Returned block called.ret_ei called.ret_fi u.arg_len u.lcl_len pointers caller
            u caller-IsValid caller-Fits enough keeps value in
        rw run (goes v r back)
    | no h ↦ rw (leave_frame-underflow (omega arith)) tt
  ]
    where
      enough : caller.lcl + caller.lcl_len + u.arg_len ≤ caller.sp
      enough = omega (arith, called.room)

      goes :
          (v : ℕ) (r : Restored)
          → Returned block called.ret_ei called.ret_fi u.arg_len v pointers caller r
          → BackIn block n c cs r
      goes v r back =
          let same : frame_of r.stack ≡ c = frame_of-eq caller r.stack back.regs in
          record {
            valid = back.valid;
            frame = same;
            chain = rw same (
                IsChain-agrees n u.ops r.stack.ops c cs
                  (λ i a. back.below i (omega (arith, called.room))) chain);
            this_word = omega (arith, back.this, called.this_word);
            that_word = omega (arith, back.that, called.that_word);
            back = omega (arith, back.back_fi, called.back);
          }
