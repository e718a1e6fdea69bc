-- ===== src/Machine/Halts.antt =====
-- src/exec.c: `exec_prog` ends on a file without jumps, calls and returns.
use hvme.Prelude.{
  ℕ, zero, suc, ◌+◌, ◌^◌, ◌≤◌, ◌<◌, ◌≡◌, ◌∙◌, refl, ap, sym, subst, Option, none, some, List,
  length, get_elem?, arith, dec_lt,
}
use hvme.Exec.{Run, ok, err, fault, ◌>>=◌, Ends, Gives, Gives-bind}
use hvme.Call.Chain.{Frame}
use hvme.Inst.{Inst}
use hvme.Console.{clean_stdout}
use hvme.Program.{File, Program}
use hvme.Machine.Lifted.{active_file-some}
use hvme.Machine.Straight.{
  AreStraight, StandsAt, get_elem?-AreStraight, get_elem?-end, exec_inst-StandsAt, next_ei-StandsAt,
}
use hvme.Machine.Sound.{IsSound}
use hvme.Machine.Rounds.{next_inst, exec_step-none}
use hvme.Machine.Steps.{Reach, StaysCareful, Finishes, exec_prog-Finishes}
use hvme.Machine.{exec_inst, next_ei, exec_step, exec_prog}

-- What a round leaves in such a file: nothing more to do, or the next instruction.
abbrev Onwards : List Inst → ℕ → Option Program → Type 0
Onwards is ei none = Unit
Onwards is ei (some q) = StandsAt is (ei + 1) q

exec_step-Onwards :
    (block : ℕ) (is : List Inst) (ei : ℕ) (p : Program)
    → StandsAt is ei p
    → AreStraight is
    → ei + 1 < 2 ^ 32
    → Gives (Onwards is ei) (exec_step block p)
unfolding exec_step
exec_step-Onwards block is ei p h straight small =
    rw (active_file-some p h.file h.active) (goes (get_elem? h.file.insts h.file.ei) refl)
  where
    goes :
        (o : Option Inst)
        → get_elem? h.file.insts h.file.ei ≡ o
        → Gives (Onwards is ei) (elim o [
          | none ↦ ok none
          | some inst ↦ exec_inst block inst.code p >>= λ q. next_ei q >>= λ r. ok (some r)
        ])
    goes none e = tt
    goes (some inst) e =
        let fits : AreStraight h.file.insts = subst AreStraight (sym h.insts) straight in
        Gives-bind (StandsAt is ei) (Onwards is ei) (exec_inst block inst.code p) _
          (exec_inst-StandsAt block is ei p h inst.code
            (get_elem?-AreStraight h.file.insts h.file.ei inst fits e))
          (λ q a.
            Gives-bind (StandsAt is (ei + 1)) (Onwards is ei) (next_ei q) _
              (next_ei-StandsAt block is ei q a small) (λ r b. b))

exec_step-end :
    (block : ℕ) (is : List Inst) (ei : ℕ) (p : Program)
    → StandsAt is ei p
    → length is ≤ ei
    → exec_step block p ≡ ok none
unfolding exec_step
exec_step-end block is ei p h done =
    let e : get_elem? h.file.insts h.file.ei ≡ none =
      ap (λ is. get_elem? is h.file.ei) h.insts
      ∙ get_elem?-end is h.file.ei (omega (arith, h.at)) in
    rw (active_file-some p h.file h.active) (
      ap {B = Run Program (Option Program)}
        (λ o. elim o [
          | none ↦ ok none
          | some inst ↦ exec_inst block inst.code p >>= λ q. next_ei q >>= λ r. ok (some r)
        ])
        e)

-- One round, and what follows it.
round-ends :
    (block : ℕ) (is : List Inst) (ei n : ℕ) (p : Program) (m : Run Program (Option Program))
    → Gives (Onwards is ei) m
    → ((q : Program)
        → StandsAt is (ei + 1) q
        → (r : Run Program Program) × (exec_prog n block q ≡ some r))
    → (r : Run Program Program) × (elim m [
      | ok none ↦ some (ok p)
      | ok (some q) ↦ exec_prog n block q
      | err e q ↦ some (err e (record q { io = clean_stdout q.io }))
      | fault u ↦ some (fault u)
    ]
        ≡ some r)
round-ends block is ei n p (ok none) a rest = (ok p, refl)
round-ends block is ei n p (ok (some q)) a rest = rest q a
round-ends block is ei n p (err e q) a rest = (err e (record q { io = clean_stdout q.io }), refl)
round-ends block is ei n p (Run.fault u) a rest = (fault u, refl)

module _ (block : ℕ) (is : List Inst) (straight : AreStraight is) (small : length is < 2 ^ 32) where
  at_end :
      (n ei : ℕ) (p : Program)
      → StandsAt is ei p
      → length is ≤ ei
      → (r : Run Program Program) × (exec_prog (suc n) block p ≡ some r)
  unfolding exec_prog
  at_end n ei p h done = (
    ok p,
    ap
        (λ m. elim m [
          | ok none ↦ some (ok p)
          | ok (some q) ↦ exec_prog n block q
          | err e q ↦ some (err e (record q { io = clean_stdout q.io }))
          | fault u ↦ some (fault u)
        ])
        (exec_step-end block is ei p h done),
  )

  -- The rest of the file, with a round for each instruction in it and one for the test at its end.
  rest-ends :
      (n ei : ℕ) (p : Program)
      → StandsAt is ei p
      → length is ≤ ei + n
      → (r : Run Program Program) × (exec_prog (suc n) block p ≡ some r)
  unfolding exec_prog
  rest-ends zero ei p h enough = at_end zero ei p h (omega arith)
  rest-ends (suc n) ei p h enough = elim (dec_lt ei (length is)) [
    | no done ↦ at_end (suc n) ei p h (omega arith)
    | yes more ↦
        round-ends block is ei (suc n) p (exec_step block p)
          (exec_step-Onwards block is ei p h straight (omega arith))
          (λ q a. rest-ends n (ei + 1) q a (omega arith))
  ]

-- The rounds are enough for a result, which may still be a fault, such as `endless`.
exec_prog-result :
    (block : ℕ) (p : Program) (f : File)
    → get_elem? p.files p.fi ≡ some f
    → AreStraight f.insts
    → length f.insts < 2 ^ 32
    → (r : Run Program Program) × (exec_prog (suc (length f.insts)) block p ≡ some r)
exec_prog-result block p f active straight small =
    let h : StandsAt f.insts f.ei p = record {
      file = f;
      active = active;
      insts = refl;
      at = refl;
    } in
    rest-ends block f.insts straight small (length f.insts) f.ei p h (omega arith)

-- A run that comes to its end stands behind the last instruction of a file.
exec_prog-stops :
    (fuel block : ℕ) (p q : Program) → exec_prog fuel block p ≡ some (ok q) → next_inst q ≡ none
unfolding exec_prog
exec_prog-stops zero block p q run = cc
exec_prog-stops (suc fuel) block p q run =
    goes (exec_step block p) refl run (λ r. exec_prog-stops fuel block r q)
  where
    goes :
        (m : Run Program (Option Program))
        → exec_step block p ≡ m
        → (elim m [
          | ok none ↦ some (ok p)
          | ok (some r) ↦ exec_prog fuel block r
          | err e r ↦ some (err e (record r { io = clean_stdout r.io }))
          | fault u ↦ some (fault u)
        ])
          ≡ some (ok q)
        → ((r : Program) → exec_prog fuel block r ≡ some (ok q) → next_inst q ≡ none)
        → next_inst q ≡ none
    goes (ok none) e run rest = let same : p ≡ q = cc in rw (← same) (exec_step-none block p e)
    goes (ok (some r)) e run rest = rest r run
    goes (err x r) e run rest = cc
    goes (Run.fault u) e run rest = cc

-- How such a run ends: with an error, or behind the file, but never with a fault.
abbrev pub HasEnded : ℕ → Program → Run Program Program → Type 0
HasEnded block p = Ends (λ q. Reach block p q × (next_inst q ≡ none))

-- `exec_prog` ends on a program whose active file holds less than 2^32 instructions and no jump,
-- call or return among them: as many rounds as the file has instructions, and one more, are enough,
-- wherever in the file it starts. It ends behind the file, or with an error, and never with a
-- fault, a loop of an instruction that does not end being one. The program satisfies the invariant,
-- and the instructions on the way are careful.
pub exec_prog-ends :
    (block : ℕ) (cs : List Frame) (p : Program) (f : File)
    → IsSound block cs p
    → StaysCareful block p
    → get_elem? p.files p.fi ≡ some f
    → AreStraight f.insts
    → length f.insts < 2 ^ 32
    → (r : Run Program Program) × (exec_prog (suc (length f.insts)) block p ≡ some r)
      × HasEnded block p r
exec_prog-ends block cs p f h careful active straight small =
    let (r, run) = exec_prog-result block p f active straight small in
    let ends : Finishes block p (some r) =
      subst (Finishes block p) run
        (exec_prog-Finishes block cs p h careful (suc (length f.insts))) in
    (r, run, goes r run ends)
  where
    goes :
        (r : Run Program Program)
        → exec_prog (suc (length f.insts)) block p ≡ some r
        → Finishes block p (some r)
        → HasEnded block p r
    goes (ok q) run (way, sound) = (way, exec_prog-stops (suc (length f.insts)) block p q run)
    goes (err e q) run ends = tt
    goes (Run.fault u) run ends = absurd ends
