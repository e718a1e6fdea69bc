-- ===== src/Machine/Steps.antt =====
-- src/exec.c: the rounds of `exec_prog` and the invariant of the program.
use hvme.Prelude.{ℕ, zero, suc, ◌≡◌, ◌∙◌, refl, ap, subst, Option, none, some, List, get_elem?}
use hvme.Exec.{Run, ok, err, fault, ◌>>=◌, Ends, Ends-bind, Ends-option}
use hvme.Inst.{Inst}
use hvme.Console.{clean_stdout}
use hvme.Call.Chain.{Frame}
use hvme.Program.{Program}
use hvme.Machine.Sound.{get_elem?-lt, IsSound, IsSound-Quiet}
use hvme.Machine.Lifted.{next_ei-Ends, active_file-some}
use hvme.Machine.Rounds.{next_inst}
use hvme.Machine.Careful.{IsCareful}
use hvme.Machine.Advanced.{Advanced, exec_inst-Advanced}
use hvme.Machine.{exec_inst, exec_step, next_ei, exec_prog}

abbrev pub CarefulAt : Option Inst → Program → Type 0
CarefulAt none p = Unit
CarefulAt (some inst) p = IsCareful inst.code p

-- That instruction, if there is one, is careful.
abbrev pub IsCarefulNow : Program → Type 0
IsCarefulNow p = CarefulAt (next_inst p) p

-- What a round does: nothing at the end of the file, else the next instruction.
abbrev pub Stepped : ℕ → List Frame → Program → Option Program → Type 0
Stepped block cs p none = Unit
Stepped block cs p (some q) =
    (inst : Inst) × (next_inst p ≡ some inst) × Advanced block inst.code cs p q

module _ (block : ℕ) (cs : List Frame) (p : Program) (h : IsSound block cs p) where
  -- `active_file(prog).ei ++` keeps what the instruction has reached.
  next_ei-Stepped :
      (inst : Inst) (q : Program)
      → next_inst p ≡ some inst
      → Advanced block inst.code cs p q
      → Ends (Stepped block cs p) (next_ei q >>= λ r. ok (some r))
  next_ei-Stepped inst q at a =
      Ends-bind _ _ (next_ei q) _ (next_ei-Ends block q a.sound.valid a.sound.wide) (λ r b. (
        inst,
        at,
        record { callers = a.callers; sound = IsSound-Quiet a.sound b.0; frames = rw b.1 a.frames },
      ))

  -- From a program that satisfies the invariant and whose next instruction is careful, a round of
  -- `exec_prog` never faults. If it goes on, the invariant holds again and the frames of the
  -- callers are those that the instruction leaves.
  pub exec_step-Stepped : IsCarefulNow p → Ends (Stepped block cs p) (exec_step block p)
  unfolding exec_step
  exec_step-Stepped careful =
      let (f, e) = get_elem?-lt p.files p.fi h.wide.running in
      rw (active_file-some p f e) (
        Ends-option (Stepped block cs p) (get_elem? f.insts f.ei) _ _ (λ _. tt)
          (λ inst at.
            let next : next_inst p ≡ some inst =
              ap {B = Option Inst} (λ o. elim o [ none ↦ none | some f ↦ get_elem? f.insts f.ei ]) e
              ∙ at in
            Ends-bind (Advanced block inst.code cs p) _ (exec_inst block inst.code p) _
              (exec_inst-Advanced block cs p h inst.code (subst (λ o. CarefulAt o p) next careful))
              (λ q a. next_ei-Stepped inst q next a)))

-- The programs that the rounds of `exec_prog` go through from `p`.
pub data Reach (block : ℕ) (p : Program) : Program → Type 0 where
  here : Reach block p p
  next : {q r : Program} → Reach block p q → exec_step block q ≡ ok (some r) → Reach block p r

-- Every instruction that is executed from `p` on is careful.
abbrev pub StaysCareful : ℕ → Program → Type 0
StaysCareful block p = (q : Program) → Reach block p q → IsCarefulNow q

-- How a run of `exec_prog` from `p` ends, if it does.
abbrev pub Finishes : ℕ → Program → Option (Run Program Program) → Type 0
Finishes block p none = Unit
Finishes block p (some r) =
    Ends (λ q. Reach block p q × ((callers : List Frame) × IsSound block callers q)) r

module _ (block : ℕ) (cs : List Frame) (p : Program) (h : IsSound block cs p)
    (careful : StaysCareful block p) where
  -- Every program that is reached satisfies the invariant, with some frames of callers.
  pub Reach-IsSound :
      (q : Program) → Reach block p q → (callers : List Frame) × IsSound block callers q
  Reach-IsSound q Reach.here = (cs, h)
  Reach-IsSound q (Reach.next {q = r} way e) =
      let (callers, sound) = Reach-IsSound r way in
      let ends : Stepped block callers r (some q) =
        subst (Ends (Stepped block callers r)) e
          (exec_step-Stepped block callers r sound (careful r way)) in
      (ends.2.callers, ends.2.sound)

  round-Finishes :
      (fuel : ℕ) (q : Program)
      → Reach block p q
      → (callers : List Frame) → IsSound block callers q
      → ((r : Program)
          → exec_step block q ≡ ok (some r)
          → Finishes block p (exec_prog fuel block r))
      → (m : Run Program (Option Program)) → exec_step block q ≡ m
      → Ends (Stepped block callers q) m
      → Finishes block p (elim m [
        | ok none ↦ some (ok q)
        | ok (some r) ↦ exec_prog fuel block r
        | err e r ↦ some (err e (record r { io = clean_stdout r.io }))
        | fault u ↦ some (fault u)
      ])
  round-Finishes fuel q way callers sound rest (ok none) e a = (way, (callers, sound))
  round-Finishes fuel q way callers sound rest (ok (some r)) e a = rest r e
  round-Finishes fuel q way callers sound rest (err x r) e a = tt
  round-Finishes fuel q way callers sound rest (Run.fault u) e a = absurd a

  rounds-Finishes :
      (fuel : ℕ) (q : Program) → Reach block p q → Finishes block p (exec_prog fuel block q)
  unfolding exec_prog
  rounds-Finishes zero q way = tt
  rounds-Finishes (suc fuel) q way =
      let (callers, sound) = Reach-IsSound q way in
      round-Finishes fuel q way callers sound (λ r e. rounds-Finishes fuel r (Reach.next way e))
        (exec_step block q) refl (exec_step-Stepped block callers q sound (careful q way))

  -- A run of `exec_prog`, for any fuel, from a program that satisfies the invariant never faults if
  -- every instruction on the way is careful; if it comes to the end of a file without an error, the
  -- program that it returns has been reached by its rounds and satisfies the invariant.
  pub exec_prog-Finishes : (fuel : ℕ) → Finishes block p (exec_prog fuel block p)
  exec_prog-Finishes fuel = rounds-Finishes fuel p Reach.here

-- The run from `p` ends within `n` rounds, and its instructions are careful.
abbrev pub CarefulFor : ℕ → ℕ → Program → Type 0
CarefulFor zero block p = ⊥
CarefulFor (suc n) block p = IsCarefulNow p × elim (exec_step block p) [
  | ok none ↦ Unit
  | ok (some q) ↦ CarefulFor n block q
  | err e q ↦ Unit
  | fault u ↦ Unit
]

Reach-CarefulFor :
    (n block : ℕ) (p q : Program)
    → CarefulFor n block p
    → Reach block p q
    → (m : ℕ) × CarefulFor m block q
Reach-CarefulFor n block p q h Reach.here = (n, h)
Reach-CarefulFor n block p q h (Reach.next {q = r} way e) =
    goes (Reach-CarefulFor n block p r h way)
  where
    goes : (m : ℕ) × CarefulFor m block r → (m : ℕ) × CarefulFor m block q
    goes (zero, c) = absurd c
    goes (suc m, (now, c)) = (
      m,
      subst
          (λ o. elim o [
            | ok none ↦ Unit
            | ok (some q) ↦ CarefulFor m block q
            | err e q ↦ Unit
            | fault u ↦ Unit
          ])
          e c,
    )

-- A run that ends can be checked round by round.
pub CarefulFor-StaysCareful :
    (n block : ℕ) (p : Program) → CarefulFor n block p → StaysCareful block p
CarefulFor-StaysCareful n block p h q way = goes (Reach-CarefulFor n block p q h way)
  where
    goes : (m : ℕ) × CarefulFor m block q → IsCarefulNow q
    goes (zero, c) = absurd c
    goes (suc m, (now, c)) = now
