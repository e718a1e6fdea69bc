-- ===== src/Machine/Listing.antt =====
-- src/exec.c: the parts of a file that no instruction changes, and a jump.
use hvme.Prelude.{
  ℕ, zero, suc, ◌≡◌, ◌∙◌, refl, ap, Option, none, some, List, [], ◌∷◌, if◌then◌else◌, get_elem?,
  set, ◌==◌,
}
use hvme.Exec.{ok, fault, ◌>>=◌, out_of_bounds, Gives, Gives-bind}
use hvme.Inst.{Ident, Inst}
use hvme.Table.{SymbolTable, SymKey, SymVal, label, mk_key, mk_lbval, get_st}
use hvme.Builtins.Local.{Gives-if, after}
use hvme.Program.{File, Program, active_file, set_ei}
use hvme.Jump.{
  before, Defs, find_defs, Jump, jmp_ok, jmp_err, jmp_mult_def, jump_to, arrive, exec_goto,
}
use hvme.Machine.{next_ei}

-- What the parser has made of a file.
pub record Listing : Type 0 where
  pub filename : Ident
  pub st : SymbolTable
  pub insts : List Inst

abbrev pub listing : File → Listing
listing f = record { filename = f.filename; st = f.st; insts = f.insts }

abbrev pub listings : List File → List Listing
listings [] = []
listings (f ∷ fs) = listing f ∷ listings fs

abbrev pub SameListings : Program → Program → Type 0
SameListings p q = listings q.files ≡ listings p.files

pub set-listings :
    (fs : List File) (i : ℕ) (f g : File)
    → get_elem? fs i ≡ some f
    → listing g ≡ listing f
    → listings (set fs i g) ≡ listings fs
set-listings [] i f g e same = refl
set-listings (h ∷ fs) zero f g e same =
    let first : h ≡ f = cc in ap (λ l. l ∷ listings fs) (same ∙ rw first refl)
set-listings (h ∷ fs) (suc i) f g e same = ap (λ ls. listing h ∷ ls) (set-listings fs i f g e same)

-- `q` is `p` at another position.
abbrev pub Moved : Program → Program → Type 0
Moved p q = SameListings p q × (q.stack ≡ p.stack) × (q.heap ≡ p.heap)

pub active_file-Gives : (p : Program) → Gives (λ f. get_elem? p.files p.fi ≡ some f) (active_file p)
unfolding active_file
active_file-Gives p = goes (get_elem? p.files p.fi) refl
  where
    goes :
        (o : Option File)
        → get_elem? p.files p.fi ≡ o
        → Gives {S = Program}
            (λ f. get_elem? p.files p.fi ≡ some f)
            (elim o [ none ↦ fault out_of_bounds | some f ↦ ok f ])
    goes none e = tt
    goes (some f) e = e

pub set_ei-Moved : (ei : ℕ) (p : Program) → Gives (Moved p) (set_ei ei p)
unfolding set_ei
set_ei-Moved ei p =
    Gives-bind _ (Moved p) (active_file p) _ (active_file-Gives p)
      (λ f e. (set-listings p.files p.fi f _ e refl, refl, refl))

pub next_ei-Moved : (p : Program) → Gives (Moved p) (next_ei p)
unfolding next_ei
next_ei-Moved p = after (Moved p) (active_file p) _ (λ f. set_ei-Moved _ p)

abbrev pub JumpMoved : Program → Jump → Type 0
JumpMoved p (jmp_ok v q) = Moved p q
JumpMoved p jmp_err = Unit
JumpMoved p jmp_mult_def = Unit

module _ (p : Program) where
  -- A jump to an instruction of the active file, or of another one.
  moved :
      (ei fi : ℕ) (v : SymVal)
      → Gives (JumpMoved p) (set_ei ei (record p { fi = fi }) >>= λ q. ok (jmp_ok v q))
  moved ei fi v =
      Gives-bind _ (JumpMoved p) (set_ei ei (record p { fi = fi })) _
        (set_ei-Moved ei (record p { fi = fi })) (λ q a. a)

  searched :
      (d : Defs)
      → Gives (JumpMoved p) (
          if d.ndefs == 0
          then ok jmp_err
          else if d.ndefs == 1
          then (set_ei (before d.val.inst_addr) (record p { fi = d.next_fi }) >>= λ q.
              ok (jmp_ok d.val q))
          else ok jmp_mult_def)
  searched d =
      Gives-if (JumpMoved p) (d.ndefs == 0) _ _ tt
        (Gives-if (JumpMoved p) (d.ndefs == 1) _ _ (moved _ d.next_fi d.val) tt)

  pub jump_to-Moved : (key : SymKey) → Gives (JumpMoved p) (jump_to p key)
  unfolding jump_to
  jump_to-Moved key = after (JumpMoved p) (active_file p) _ (λ f. goes (get_st f.st key))
    where
      d : Defs
      d = find_defs key p.fi 0 p.files (record { ndefs = 0; next_fi = 0; val = mk_lbval 0 })

      goes :
          (o : Option SymVal)
          → Gives (JumpMoved p) (elim o [
            | some v ↦ set_ei (before v.inst_addr) p >>= λ q. ok (jmp_ok v q)
            | none ↦
                if d.ndefs == 0
                then ok jmp_err
                else if d.ndefs == 1
                then (set_ei (before d.val.inst_addr) (record p { fi = d.next_fi }) >>= λ q.
                    ok (jmp_ok d.val q))
                else ok jmp_mult_def
          ])
      goes none = searched d
      goes (some v) = moved _ p.fi v

  pub arrive-Moved :
      (ident : Ident) (undo : Program → Program) (q : Program) (j : Jump)
      → JumpMoved p j
      → Gives (λ r. Moved p r.1) (arrive ident undo q j)
  arrive-Moved ident undo q (jmp_ok v r) a = a
  arrive-Moved ident undo q jmp_err a = tt
  arrive-Moved ident undo q jmp_mult_def a = tt

  pub exec_goto-SameListings : (ident : Ident) → Gives (SameListings p) (exec_goto ident p)
  unfolding exec_goto
  exec_goto-SameListings ident =
      Gives-bind _ (SameListings p) (jump_to p (mk_key ident label)) _
        (jump_to-Moved (mk_key ident label))
        (λ j a.
          Gives-bind _ (SameListings p) (arrive ident (λ p. p) p j) _
            (arrive-Moved ident (λ p. p) p j a) (λ r b. b.0))
