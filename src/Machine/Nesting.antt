-- ===== src/Machine/Nesting.antt =====
-- src/exec.c: the calls that are under way in a run.
use hvme.Prelude.{
  ℕ, ◌+◌, ◌≤◌, ◌≡◌, ◌∙◌, ap, sym, subst, some, List, [], ◌∷◌, get_elem?, to_word, arith, refl,
}
use hvme.Exec.{ok, Ends-ok, Gives-ok}
use hvme.Inst.{Ident, Inst, InstCode}
use hvme.Stack.Valid.{IsValid}
use hvme.Stack.Confined.{Confined, Confined-trans}
use hvme.Call.Chain.{Frame, IsChain-args}
use hvme.Call.Frame.{Framed}
use hvme.Call.Keeps.{Keeps, Fits, Framed-Keeps, Keeps-Confined}
use hvme.Program.{File, Program}
use hvme.Machine.Sound.{IsSound, Quiet, get_elem?-lt}
use hvme.Machine.Careful.{StaysIn, IsCareful, exec_inst-Quiet}
use hvme.Machine.Rounds.{next_inst, exec_step-Round}
use hvme.Machine.Listing.{Moved, next_ei-Moved}
use hvme.Machine.Crossed.{Entered, exec_call-Entered}
use hvme.Machine.Steps.{Reach, CarefulAt, StaysCareful, Reach-IsSound}
use hvme.Machine.{exec_inst, next_ei, exec_step}

-- A call that has not returned: the program at the call, and the number of its arguments.
pub record OpenCall : Type 0 where
  pub caller : Program
  pub nargs : ℕ

-- The rounds from `p` on, with the calls that are open after them, the latest first. No `return`
-- leaves the function that runs at `p`.
pub data Calls (block : ℕ) (p : Program) : List OpenCall → Program → Type 0 where
  here : Calls block p [] p
  stays :
      {cs : List OpenCall} {q r : Program} (inst : Inst)
      → Calls block p cs q
      → next_inst q ≡ some inst
      → StaysIn inst.code
      → exec_step block q ≡ ok (some r)
      → Calls block p cs r
  calls :
      {cs : List OpenCall} {q r : Program} (inst : Inst) (ident : Ident) (nargs : ℕ)
      → Calls block p cs q
      → next_inst q ≡ some inst
      → inst.code ≡ InstCode.call ident nargs
      → exec_step block q ≡ ok (some r)
      → Calls block p (record { caller = q; nargs = nargs } ∷ cs) r
  returns :
      {c : OpenCall} {cs : List OpenCall} {q r : Program} (inst : Inst)
      → Calls block p (c ∷ cs) q
      → next_inst q ≡ some inst
      → inst.code ≡ InstCode.ret
      → exec_step block q ≡ ok (some r)
      → Calls block p cs r

-- They are rounds.
pub Calls-Reach :
    (block : ℕ) (p : Program) (cs : List OpenCall) (q : Program)
    → Calls block p cs q
    → Reach block p q
Calls-Reach block p cs q Calls.here = Reach.here
Calls-Reach block p cs q (Calls.stays inst way at inside e) =
    Reach.next (Calls-Reach block p _ _ way) e
Calls-Reach block p cs q (Calls.calls inst ident nargs way at is e) =
    Reach.next (Calls-Reach block p _ _ way) e
Calls-Reach block p cs q (Calls.returns inst way at is e) =
    Reach.next (Calls-Reach block p _ _ way) e

-- The round of an instruction that is known.
pub record Known (block : ℕ) (code : InstCode) (p q : Program) : Type 0 where
  pub after : Program
  pub execs : exec_inst block code p ≡ ok after
  pub counts : next_ei after ≡ ok q

pub exec_step-Known :
    (block : ℕ) (code : InstCode) (inst : Inst) (p q : Program)
    → next_inst p ≡ some inst
    → inst.code ≡ code
    → exec_step block p ≡ ok (some q)
    → Known block code p q
exec_step-Known block code inst p q at is run =
    let r = exec_step-Round block p q run in
    let same : r.inst ≡ inst = cc in
    record {
      after = r.after;
      execs = ap (λ c. exec_inst block c p) (rw same (sym is)) ∙ r.execs;
      counts = r.counts;
    }

module _ (block : ℕ) (fs : List Frame) (p : Program) (h : IsSound block fs p)
    (careful : StaysCareful block p) where
  -- The callee at `q` has kept its frame.
  pub record InCall (c : OpenCall) (q : Program) : Type 0 where
    pub reached : Reach block p c.caller
    pub inst : Inst
    pub at : next_inst c.caller ≡ some inst
    pub file : File
    pub active : get_elem? c.caller.files c.caller.fi ≡ some file
    pub valid : IsValid block c.caller.stack
    pub fits : Fits c.caller.stack c.caller.heap
    pub enough : c.caller.stack.lcl + c.caller.stack.lcl_len + c.nargs ≤ c.caller.stack.sp
    pub nlocals : ℕ
    pub keeps :
        Keeps block
          (to_word file.ei)
          (to_word c.caller.fi)
          c.nargs
          nlocals
          c.caller.heap
          c.caller.stack
          q.stack

  -- What the open calls have kept, and what the function at `p` has changed.
  abbrev pub AllKept : List OpenCall → Program → Type 0
  AllKept [] q = Confined block p.stack q.stack
  AllKept (c ∷ cs) q = InCall c q × AllKept cs c.caller

  pub AllKept-Confined :
      (cs : List OpenCall) (q r : Program)
      → AllKept cs q
      → Confined block q.stack r.stack
      → AllKept cs r
  AllKept-Confined [] q r a c = Confined-trans a c
  AllKept-Confined (o ∷ cs) q r (a, as') c = (
    record {
      reached = a.reached;
      inst = a.inst;
      at = a.at;
      file = a.file;
      active = a.active;
      valid = a.valid;
      fits = a.fits;
      enough = a.enough;
      nlocals = a.nlocals;
      keeps = Keeps-Confined (omega (arith, a.enough)) a.keeps c;
    },
    as',
  )

  -- A round that stays in its function.
  pub stays-Confined :
      (inst : Inst) (q r : Program)
      → Reach block p q
      → next_inst q ≡ some inst
      → StaysIn inst.code
      → exec_step block q ≡ ok (some r)
      → Confined block q.stack r.stack
  stays-Confined inst q r way at inside run =
      let (callers, sound) = Reach-IsSound block fs p h careful q way in
      let now = subst (λ o. CarefulAt o q) at (careful q way) in
      let k = exec_step-Known block inst.code inst q r at refl run in
      let quiet =
        Ends-ok (Quiet block q) k.execs
          (exec_inst-Quiet block q sound.valid sound.wide inst.code inside now) in
      let moved = Gives-ok (Moved k.after) k.counts (next_ei-Moved k.after) in
      subst (Confined block q.stack) (sym moved.1) quiet.stack

  pub calls-InCall :
      (inst : Inst) (ident : Ident) (nargs : ℕ) (q r : Program)
      → Reach block p q
      → next_inst q ≡ some inst
      → inst.code ≡ InstCode.call ident nargs
      → exec_step block q ≡ ok (some r)
      → InCall (record { caller = q; nargs = nargs }) r
  unfolding exec_inst
  calls-InCall inst ident nargs q r way at is run =
      let (callers, sound) = Reach-IsSound block fs p h careful q way in
      let now = subst (λ c. IsCareful c q) is (subst (λ o. CarefulAt o q) at (careful q way)) in
      let k = exec_step-Known block (InstCode.call ident nargs) inst q r at is run in
      let (f, active) = get_elem?-lt q.files q.fi sound.wide.running in
      let moved = Gives-ok (Moved k.after) k.counts (next_ei-Moved k.after) in
      let args = IsChain-args _ _ _ _ sound.chain in
      let entered =
        Gives-ok (Entered block nargs q f) k.execs
          (exec_call-Entered block nargs q f sound.valid (omega (arith, now.0)) ident active) in
      record {
        reached = way;
        inst = inst;
        at = at;
        file = f;
        active = active;
        valid = sound.valid;
        fits = record {
          sp = now.1;
          lcl = omega (arith, now.0, now.1);
          lcl_len = omega (arith, now.0, now.1);
          arg = omega (arith, now.0, now.1, args);
          arg_len = omega (arith, now.0, now.1, args);
          this = sound.wide.heap.this;
          that = sound.wide.heap.that;
        };
        enough = now.0;
        nlocals = entered.nlocals;
        keeps = Framed-Keeps (
            subst (Framed block (to_word f.ei) (to_word q.fi) nargs entered.nlocals q.heap q.stack)
              (sym moved.1) entered.framed);
      }
