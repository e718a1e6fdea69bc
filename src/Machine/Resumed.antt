-- ===== src/Machine/Resumed.antt =====
-- src/exec.c: after a `return`, the caller goes on behind its call.
use hvme.Prelude.{
  dec_lt, to_word, subst, ℕ, zero, suc, ◌+◌, ◌≤◌, ◌<◌, ◌≡◌, ◌∙◌, refl, ap, sym, Option, some, none,
  List, [], ◌∷◌, length, get_elem?, arith,
}
use hvme.Exec.{stack_underflow, Run, ok, err, ◌>>=◌, Ends, Errless}
use hvme.Inst.{Inst, InstCode}
use hvme.Call.Chain.{Frame}
use hvme.Program.{File, Program}
use hvme.Machine.Sound.{IsSound, get_elem?-some}
use hvme.Machine.Rounds.{next_inst, exec_step-inst}
use hvme.Machine.Crossed.{exec_ret-underflow, next_ei-Errless, exec_ret-Errless}
use hvme.Machine.Listing.{listing, listings}
use hvme.Machine.Listed.{exec_step-SameListings}
use hvme.Machine.Steps.{Reach, StaysCareful, Reach-IsSound, Stepped, exec_step-Stepped}
use hvme.Machine.Nesting.{OpenCall, Calls, Calls-Reach, InCall}
use hvme.Machine.Matched.{Answers, returned, Calls-AllKept}
use hvme.Machine.{exec_inst, next_ei, exec_step}

-- The rounds of `exec_prog` never change the name, the symbol table or the instructions of a file,
-- nor the number or the order of the files.
pub Reach-SameListings :
    (block : ℕ) (p q : Program) → Reach block p q → listings q.files ≡ listings p.files
Reach-SameListings block p q Reach.here = refl
Reach-SameListings block p q (Reach.next {q = r} way run) =
    exec_step-SameListings block r q run ∙ Reach-SameListings block p r way

length-listings : (fs : List File) → length (listings fs) ≡ length fs
length-listings [] = refl
length-listings (f ∷ fs) = ap suc (length-listings fs)

get_elem?-listings :
    (fs : List File) (i : ℕ)
    → get_elem? (listings fs) i ≡ elim (get_elem? fs i) [ none ↦ none | some f ↦ some (listing f) ]
get_elem?-listings [] i = refl
get_elem?-listings (f ∷ fs) zero = refl
get_elem?-listings (f ∷ fs) (suc i) = get_elem?-listings fs i

-- The same file, at two times.
listed :
    (fs gs : List File) (i : ℕ) (f : File)
    → listings fs ≡ listings gs
    → get_elem? fs i ≡ some f
    → (g : File) × (get_elem? gs i ≡ some g) × (listing g ≡ listing f)
listed fs gs i f same e = goes (get_elem? gs i) refl (
    sym (get_elem?-listings gs i)
    ∙ ap (λ ls. get_elem? ls i) (sym same)
    ∙ get_elem?-listings fs i
    ∙ ap (λ o. elim o [ none ↦ none | some f ↦ some (listing f) ]) e)
  where
    goes :
        (o : Option File)
        → get_elem? gs i ≡ o
        → (elim o [ none ↦ none | some f ↦ some (listing f) ]) ≡ some (listing f)
        → (g : File) × (get_elem? gs i ≡ some g) × (listing g ≡ listing f)
    goes none at e = cc
    goes (some g) at e = (g, at, cc)

-- The instruction behind the one that is executed.
abbrev pub inst_behind : Program → Option Inst
inst_behind p = elim (get_elem? p.files p.fi) [
  | none ↦ none
  | some f ↦ get_elem? f.insts (f.ei + 1)
]

-- Positions in the program fit 16 bits.
pub record FitsWords (p : Program) : Type 0 where
  pub files : length p.files ≤ 65536
  pub insts : (i : ℕ) (f : File) → get_elem? p.files i ≡ some f → length f.insts < 65536

-- The answer to a call reaches the caller, which goes on behind the call.
pub record Resumes (c : OpenCall) (q r : Program) : Type 0 where
  pub answers : Answers c q r
  pub fi : r.fi ≡ c.caller.fi
  pub next : next_inst r ≡ inst_behind c.caller

-- How the round of a `return` ends.
pub data Answered (c : OpenCall) (q : Program) (run : Run Program (Option Program)) : Type 0 where
  resumed :
      (r : Program)
      → q.stack.lcl + q.stack.lcl_len < q.stack.sp
      → run ≡ ok (some r)
      → Resumes c q r
      → Answered c q run
  empty :
      q.stack.sp ≤ q.stack.lcl + q.stack.lcl_len → run ≡ err stack_underflow q → Answered c q run

-- A round without errors and faults goes on.
goes_on :
    (block : ℕ) (cs : List Frame) (p : Program) (k : Run Program Program)
    → Errless k
    → Ends (Stepped block cs p) (k >>= λ r. next_ei r >>= λ s. ok (some s))
    → (r : Program) × ((k >>= λ r. next_ei r >>= λ s. ok (some s)) ≡ ok (some r))
goes_on block cs p (ok r) errless ends = counted (next_ei r) (next_ei-Errless r) ends
  where
    counted :
        (m : Run Program Program)
        → Errless m
        → Ends (Stepped block cs p) (m >>= λ s. ok (some s))
        → (r : Program) × ((m >>= λ s. ok (some s)) ≡ ok (some r))
    counted (ok s) errless ends = (s, refl)
    counted (err e s) errless ends = absurd errless
    counted (Run.fault u) errless ends = absurd ends
goes_on block cs p (err e r) errless ends = absurd errless
goes_on block cs p (Run.fault u) errless ends = absurd ends

module _ (block : ℕ) (fs : List Frame) (p : Program) (h : IsSound block fs p)
    (careful : StaysCareful block p) (small : FitsWords p) where
  -- The position of an open call fits 16 bits.
  position_fits :
      (c : OpenCall) (q : Program) (a : InCall block fs p h careful c q)
      → (c.caller.fi < 65536) × (a.file.ei + 1 < 65536)
  position_fits c q a =
      let same = Reach-SameListings block p c.caller a.reached in
      let many : length c.caller.files ≡ length p.files =
        sym (length-listings c.caller.files) ∙ ap length same ∙ length-listings p.files in
      let inside = get_elem?-some c.caller.files c.caller.fi a.file a.active in
      let (g, there, alike) = listed c.caller.files p.files c.caller.fi a.file same a.active in
      let here : get_elem? a.file.insts a.file.ei ≡ some a.inst =
        ap {B = Option Inst} (λ o. elim o [ none ↦ none | some f ↦ get_elem? f.insts f.ei ])
          (sym a.active)
        ∙ a.at in
      let short = small.insts c.caller.fi g there in
      let insts : length g.insts ≡ length a.file.insts = ap (λ l. length l.insts) alike in
      let before = get_elem?-some a.file.insts a.file.ei a.inst here in
      (omega (arith, small.files), omega arith)

  -- A `return` that has gone on to `r`.
  exec_step-back :
      (c : OpenCall) (cs : List OpenCall) (q r : Program) (inst : Inst)
      → Calls block p (c ∷ cs) q
      → next_inst q ≡ some inst
      → inst.code ≡ InstCode.ret
      → exec_step block q ≡ ok (some r)
      → Resumes c q r
  exec_step-back c cs q r inst way at is run =
      let (a, rest) = Calls-AllKept block fs p h careful (c ∷ cs) q way in
      let (answers, position, confined) = returned block fs p h careful inst c q r a at is run in
      let (fi_fits, ei_fits) = position_fits c q a in
      let reached = Reach.next (Calls-Reach block p (c ∷ cs) q way) run in
      let same : listings r.files ≡ listings c.caller.files =
        Reach-SameListings block p r reached
        ∙ sym (Reach-SameListings block p c.caller a.reached) in
      let fi : r.fi ≡ c.caller.fi = position.fi_same ∙ omega arith in
      let (g, there, alike) =
        listed r.files c.caller.files r.fi position.file same position.active in
      let found : get_elem? c.caller.files c.caller.fi ≡ some g =
        ap (get_elem? c.caller.files) (sym fi) ∙ there in
      let ei : position.file.ei ≡ a.file.ei + 1 = position.at ∙ omega arith in
      let ours : g ≡ a.file = cc in
      let insts : position.file.insts ≡ a.file.insts =
        ap (λ l. l.insts) (sym alike) ∙ ap (λ f. f.insts) ours in
      record {
        answers = answers;
        fi = fi;
        next =
            ap {B = Option Inst} (λ o. elim o [ none ↦ none | some f ↦ get_elem? f.insts f.ei ])
              position.active
            ∙ ap (get_elem? position.file.insts) ei
            ∙ ap (λ is. get_elem? is (a.file.ei + 1)) insts
            ∙ ap {B = Option Inst}
                (λ o. elim o [ none ↦ none | some f ↦ get_elem? f.insts (f.ei + 1) ])
                (sym a.active);
      }

  -- With a word to return, the round goes on.
  exec_step-Resumes :
      (c : OpenCall) (cs : List OpenCall) (q : Program) (inst : Inst)
      → Calls block p (c ∷ cs) q
      → next_inst q ≡ some inst
      → inst.code ≡ InstCode.ret
      → q.stack.lcl + q.stack.lcl_len < q.stack.sp
      → (r : Program) × (exec_step block q ≡ ok (some r)) × Resumes c q r
  unfolding exec_inst
  exec_step-Resumes c cs q inst way at is value =
      let (a, rest) = Calls-AllKept block fs p h careful (c ∷ cs) q way in
      let reach = Calls-Reach block p (c ∷ cs) q way in
      let (callers, sound) = Reach-IsSound block fs p h careful q reach in
      let errless : Errless (exec_inst block inst.code q) =
        subst (λ code. Errless (exec_inst block code q)) (sym is)
          (exec_ret-Errless block (to_word a.file.ei) (to_word c.caller.fi) c.nargs a.nlocals
            c.caller.heap c.caller.stack q a.valid a.fits a.enough a.keeps value) in
      let round = exec_step-inst block q inst at in
      let (r, run) = goes_on block callers q (exec_inst block inst.code q) errless (
        subst (Ends (Stepped block callers q)) round
          (exec_step-Stepped block callers q sound (careful q reach))) in
      (r, round ∙ run, exec_step-back c cs q r inst way at is (round ∙ run))

  -- Every `return` on the way answers the latest call that is open, however many calls its function
  -- has made. If the function has a word above its locals, the round succeeds, and the caller finds
  -- the word in the place of the arguments, the cells below the arguments, its segment registers and
  -- the heap pointers as they were at the call, and goes on with the instruction behind it. If not,
  -- the round reports the underflow and changes nothing. The program satisfies the invariant, the
  -- instructions on the way are careful, and the positions in the program fit 16 bits.
  pub exec_step-Answered :
      (c : OpenCall) (cs : List OpenCall) (q : Program) (inst : Inst)
      → Calls block p (c ∷ cs) q
      → next_inst q ≡ some inst
      → inst.code ≡ InstCode.ret
      → Answered c q (exec_step block q)
  unfolding exec_inst
  exec_step-Answered c cs q inst way at is =
      elim (dec_lt (q.stack.lcl + q.stack.lcl_len) q.stack.sp) [
        | yes value ↦
            let (r, run, back) = exec_step-Resumes c cs q inst way at is value in
            resumed r value run back
        | no low ↦
            let (a, rest) = Calls-AllKept block fs p h careful (c ∷ cs) q way in
            let fails : exec_inst block inst.code q ≡ err stack_underflow q =
              ap (λ code. exec_inst block code q) is
              ∙ exec_ret-underflow block (to_word a.file.ei) (to_word c.caller.fi) c.nargs a.nlocals
                  c.caller.heap c.caller.stack q a.valid a.fits a.enough a.keeps (omega arith) in
            empty (omega arith) (
              exec_step-inst block q inst at
              ∙ ap (λ m. m >>= λ r. next_ei r >>= λ s. ok (some s)) fails)
      ]
