-- ===== src/Jump.antt =====
-- src/exec.c: `jump_to`, `goto` and `if-goto`.
pub mod Search
pub mod Goto
pub mod Branch
use hvme.Prelude.{◌-◌, ◌%◌, ◌^◌, ℕ, suc, ◌+◌, none, some, List, [], ◌∷◌, ltb, ◌==◌, if◌then◌else◌}
use hvme.Exec.{Run, ok, err, ◌>>=◌, within, ctrl_flow, mult_def}
use hvme.Inst.{Ident}
use hvme.Stack.{pop_word}
use hvme.Table.{SymKey, SymVal, label, mk_key, mk_lbval, get_st}
use hvme.Program.{File, Program, active_file, set_ei}

-- The instruction before an address, as an `unsigned int`: the loop adds one. For address 0 it
-- wraps.
abbrev pub before : ℕ → ℕ
before addr = (addr + (2 ^ 32 - 1)) % 2 ^ 32

-- The variables of the loop over the files.
pub record Defs : Type 0 where
  pub ndefs : ℕ
  pub next_fi : ℕ
  pub val : SymVal

note_def : SymKey → ℕ → ℕ → File → Defs → Defs
note_def key prev_fi i f d = if prev_fi == i then d else elim (get_st f.st key) [
  | none ↦ d
  | some v ↦ record { ndefs = d.ndefs + 1; next_fi = i; val = v }
]

unfoldable pub find_defs : SymKey → ℕ → ℕ → List File → Defs → Defs
unfolding note_def
find_defs key prev_fi i [] d = d
find_defs key prev_fi i (f ∷ fs) d =
    let d' = note_def key prev_fi i f d in
    let rest = find_defs key prev_fi (suc i) fs d' in if ltb 1 d'.ndefs then d' else rest

pub data Jump : Type 0 where
  jmp_ok : SymVal → Program → Jump
  jmp_err jmp_mult_def : Jump

-- The `switch` on the number of definitions in other files.
jump_by : Defs → Program → Run Program Jump
jump_by d p =
    if d.ndefs == 0
    then ok jmp_err
    else if d.ndefs == 1
    then (set_ei (before d.val.inst_addr) (record p { fi = d.next_fi }) >>= λ q.
        ok (jmp_ok d.val q))
    else ok jmp_mult_def

unfoldable pub jump_to : Program → SymKey → Run Program Jump
unfolding jump_by
jump_to p key = do
  f ← active_file p
  elim (get_st f.st key) [
    | some v ↦ set_ei (before v.inst_addr) p >>= λ q. ok (jmp_ok v q)
    | none ↦
        jump_by (find_defs key p.fi 0 p.files (record { ndefs = 0; next_fi = 0; val = mk_lbval 0 }))
          p
  ]

-- The `switch` after a jump; `undo` is what the error case does before it reports.
abbrev pub arrive : Ident → (Program → Program) → Program → Jump → Run Program (SymVal × Program)
arrive ident undo p (jmp_ok v q) = ok (v, q)
arrive ident undo p jmp_err = err (ctrl_flow ident) (undo p)
arrive ident undo p jmp_mult_def = err (mult_def ident) (undo p)

unfoldable pub exec_goto : Ident → Program → Run Program Program
unfolding jump_to
exec_goto ident p = do j ← jump_to p (mk_key ident label); (_, q) ← arrive ident (λ p. p) p j; ok q

-- `prog->stack.sp ++`
abbrev pub unpop : Program → Program
unpop p = record p { stack = record (p.stack) { sp = p.stack.sp + 1 } }

unfoldable pub exec_if_goto : ℕ → Ident → Program → Run Program Program
unfolding jump_to
exec_if_goto block ident p₀ = do
  (val, s) ← within (λ s. record p₀ { stack = s }) (pop_word block p₀.stack)
  let p = record p₀ { stack = s }
  if val == 0
      then ok p
      else (do j ← jump_to p (mk_key ident label); (_, q) ← arrive ident unpop p j; ok q)
