-- ===== src/Machine/Rounds.antt =====
-- src/exec.c: the parts of a round of `exec_prog`.
use hvme.Prelude.{sym, ℕ, ◌≡◌, ◌∙◌, refl, ap, Option, none, some, get_elem?}
use hvme.Exec.{ok, fault, ◌>>=◌, out_of_bounds, through-ok}
use hvme.Inst.{Inst}
use hvme.Program.{File, Program, active_file}
use hvme.Machine.{exec_inst, next_ei, exec_step}

-- The instruction that the next round executes, if there is one.
abbrev pub next_inst : Program → Option Inst
next_inst p = elim (get_elem? p.files p.fi) [ none ↦ none | some f ↦ get_elem? f.insts f.ei ]

-- A round that goes on executes the next instruction and counts it.
pub record Round (block : ℕ) (p q : Program) : Type 0 where
  pub inst : Inst
  pub after : Program
  pub at : next_inst p ≡ some inst
  pub execs : exec_inst block inst.code p ≡ ok after
  pub counts : next_ei after ≡ ok q

pub exec_step-Round :
    (block : ℕ) (p q : Program) → exec_step block p ≡ ok (some q) → Round block p q
unfolding exec_step active_file
exec_step-Round block p q run = goes (get_elem? p.files p.fi) refl run
  where
    execs :
        (inst : Inst)
        → next_inst p ≡ some inst
        → (exec_inst block inst.code p >>= λ r. next_ei r >>= λ s. ok (some s)) ≡ ok (some q)
        → Round block p q
    execs inst at run =
        let (r, first, rest) = through-ok (exec_inst block inst.code p) run in
        let (s, counts, last) = through-ok (next_ei r) rest in
        let same : s ≡ q = cc in
        record { inst = inst; after = r; at = at; execs = first; counts = counts ∙ ap ok same }

    in_file :
        (o : Option Inst)
        → next_inst p ≡ o
        → (elim o [
          | none ↦ ok none
          | some inst ↦ exec_inst block inst.code p >>= λ r. next_ei r >>= λ s. ok (some s)
        ])
          ≡ ok (some q)
        → Round block p q
    in_file none e run = cc
    in_file (some inst) e run = execs inst e run

    goes :
        (o : Option File)
        → get_elem? p.files p.fi ≡ o
        → ((elim o [ none ↦ fault out_of_bounds | some f ↦ ok f ]) >>= λ f.
            elim (get_elem? f.insts f.ei) [
              | none ↦ ok none
              | some inst ↦ exec_inst block inst.code p >>= λ r. next_ei r >>= λ s. ok (some s)
            ])
          ≡ ok (some q)
        → Round block p q
    goes none e run = cc
    goes (some f) e run =
        in_file (get_elem? f.insts f.ei)
          (ap {B = Option Inst} (λ o. elim o [ none ↦ none | some f ↦ get_elem? f.insts f.ei ]) e)
          run

-- The round of an instruction that is there.
pub exec_step-inst :
    (block : ℕ) (p : Program) (inst : Inst)
    → next_inst p ≡ some inst
    → exec_step block p ≡ (exec_inst block inst.code p >>= λ r. next_ei r >>= λ s. ok (some s))
unfolding exec_step active_file
exec_step-inst block p inst at = goes (get_elem? p.files p.fi) at
  where
    goes :
        (o : Option File)
        → (elim o [ none ↦ none | some f ↦ get_elem? f.insts f.ei ]) ≡ some inst
        → ((elim o [ none ↦ fault out_of_bounds | some f ↦ ok f ]) >>= λ f.
            elim (get_elem? {A = Inst} f.insts f.ei) [
              | none ↦ ok none
              | some inst ↦ exec_inst block inst.code p >>= λ r. next_ei r >>= λ s. ok (some s)
            ])
          ≡ (exec_inst block inst.code p >>= λ r. next_ei r >>= λ s. ok (some s))
    goes none e = cc
    goes (some f) e =
        ap
          (λ o. elim o [
            | none ↦ ok none
            | some inst ↦ exec_inst block inst.code p >>= λ r. next_ei r >>= λ s. ok (some s)
          ])
          e

-- A round that does nothing stands behind the file.
pub exec_step-none : (block : ℕ) (p : Program) → exec_step block p ≡ ok none → next_inst p ≡ none
exec_step-none block p run = goes (next_inst p) refl
  where
    goes : (o : Option Inst) → next_inst p ≡ o → o ≡ none
    goes none at = refl
    goes (some inst) at =
        let there = sym (exec_step-inst block p inst at) ∙ run in
        let (r, first, rest) = through-ok (exec_inst block inst.code p) there in
        let (s, counts, last) = through-ok (next_ei r) rest in cc
