-- ===== src/Machine/Straight.antt =====
-- src/exec.c: files without jumps, calls and returns.
use hvme.Prelude.{
  ℕ, zero, suc, ◌+◌, ◌%◌, ◌^◌, ◌≤◌, ◌<◌, ◌≡◌, ◌∙◌, refl, ap, subst, none, some, List, [], ◌∷◌,
  length, get_elem?, set, arith,
}
use hvme.Exec.{Run, ok, err, within, Gives}
use hvme.Inst.{Inst, InstCode}
use hvme.Stack.{Stack}
use hvme.Segments.{Banks, exec_pop, exec_push}
use hvme.Arith.{
  exec_add, exec_sub, exec_neg, exec_and, exec_or, exec_not, exec_eq, exec_lt, exec_gt,
}
use hvme.Builtins.{
  exec_builtin_print_char, exec_builtin_print_num, exec_builtin_print_str, exec_builtin_read_char,
  exec_builtin_read_num, exec_builtin_read_str,
}
use hvme.Builtins.Local.{SameFiles, after, builtins-SameFiles}
use hvme.Program.{File, Program, set_ei}
use hvme.Machine.Lifted.{active_file-some}
use hvme.Machine.{with_stack, put_banks, with_banks, exec_inst, next_ei}

-- An instruction that goes on with the next one.
abbrev pub IsStraight : InstCode → Type 0
IsStraight (InstCode.goto ident) = ⊥
IsStraight (InstCode.if_goto ident) = ⊥
IsStraight (InstCode.call ident nargs) = ⊥
IsStraight InstCode.ret = ⊥
IsStraight _ = Unit

abbrev pub AreStraight : List Inst → Type 0
AreStraight [] = Unit
AreStraight (i ∷ is) = IsStraight i.code × AreStraight is

pub get_elem?-AreStraight :
    (is : List Inst) (i : ℕ) (inst : Inst)
    → AreStraight is
    → get_elem? is i ≡ some inst
    → IsStraight inst.code
get_elem?-AreStraight [] i inst h e = cc
get_elem?-AreStraight (j ∷ is) zero inst (a, h) e =
    let same : j ≡ inst = cc in subst (λ i. IsStraight i.code) same a
get_elem?-AreStraight (j ∷ is) (suc i) inst (a, h) e = get_elem?-AreStraight is i inst h e

pub get_elem?-set :
    {A : Type 0} (xs : List A) (i : ℕ) (x y : A)
    → get_elem? xs i ≡ some x
    → get_elem? (set xs i y) i ≡ some y
get_elem?-set [] i x y e = cc
get_elem?-set (z ∷ xs) zero x y e = refl
get_elem?-set (z ∷ xs) (suc i) x y e = get_elem?-set xs i x y e

pub get_elem?-end : {A : Type 0} (xs : List A) (i : ℕ) → length xs ≤ i → get_elem? xs i ≡ none
get_elem?-end [] i h = refl
get_elem?-end (x ∷ xs) zero h = absurd (omega arith)
get_elem?-end (x ∷ xs) (suc i) h = get_elem?-end xs i (omega arith)

-- The active file of `q` has these instructions, and stands at `ei`.
pub record StandsAt (is : List Inst) (ei : ℕ) (q : Program) : Type 0 where
  pub file : File
  pub active : get_elem? q.files q.fi ≡ some file
  pub insts : file.insts ≡ is
  pub at : file.ei ≡ ei

module _ (block : ℕ) (is : List Inst) (ei : ℕ) (p : Program) (h : StandsAt is ei p) where
  SameFiles-StandsAt : (q : Program) → SameFiles p q → StandsAt is ei q
  SameFiles-StandsAt q (a, b) = record {
    file = h.file;
    active = ap (λ fs. get_elem? fs q.fi) a ∙ ap (λ i. get_elem? p.files i) b ∙ h.active;
    insts = h.insts;
    at = h.at;
  }

  with_stack-StandsAt : (f : Stack → Run Stack Stack) → Gives (StandsAt is ei) (with_stack f p)
  unfolding with_stack
  with_stack-StandsAt f =
      after (StandsAt is ei) (within (λ s. record p { stack = s }) (f p.stack)) _
        (λ s. SameFiles-StandsAt (record p { stack = s }) (refl, refl))

  put_banks-StandsAt : (b : Banks) → StandsAt is ei (put_banks p h.file b)
  unfolding put_banks
  put_banks-StandsAt b = record {
    file = record (h.file) { mem = b.mem };
    active = get_elem?-set p.files p.fi h.file _ h.active;
    insts = h.insts;
    at = h.at;
  }

  with_banks-StandsAt : (g : Banks → Run Banks Banks) → Gives (StandsAt is ei) (with_banks g p)
  unfolding with_banks
  with_banks-StandsAt g =
      let b : Banks = record { stack = p.stack; heap = p.heap; mem = h.file.mem } in
      rw (active_file-some p h.file h.active) (
        after (StandsAt is ei) (within (put_banks p h.file) (g b)) (λ b. ok (put_banks p h.file b))
          put_banks-StandsAt)

  pub next_ei-StandsAt : ei + 1 < 2 ^ 32 → Gives (StandsAt is (ei + 1)) (next_ei p)
  unfolding next_ei set_ei
  next_ei-StandsAt small = rw (active_file-some p h.file h.active) (record {
    file = record (h.file) { ei = (h.file.ei + 1) % 2 ^ 32 };
    active = get_elem?-set p.files p.fi h.file _ h.active;
    insts = h.insts;
    at = omega (arith, h.at);
  })

  builtin : (m : Run Program Program) → Gives (SameFiles p) m → Gives (StandsAt is ei) m
  builtin (ok q) a = SameFiles-StandsAt q a
  builtin (err e q) a = tt
  builtin (Run.fault u) a = tt

  pub exec_inst-StandsAt :
      (code : InstCode) → IsStraight code → Gives (StandsAt is ei) (exec_inst block code p)
  unfolding exec_inst
  exec_inst-StandsAt (InstCode.pop seg offset) a = with_banks-StandsAt (exec_pop block seg offset)
  exec_inst-StandsAt (InstCode.push seg offset) a = with_banks-StandsAt (exec_push block seg offset)
  exec_inst-StandsAt InstCode.add a = with_stack-StandsAt (exec_add block)
  exec_inst-StandsAt InstCode.sub a = with_stack-StandsAt (exec_sub block)
  exec_inst-StandsAt InstCode.neg a = with_stack-StandsAt (exec_neg block)
  exec_inst-StandsAt InstCode.and a = with_stack-StandsAt (exec_and block)
  exec_inst-StandsAt InstCode.or a = with_stack-StandsAt (exec_or block)
  exec_inst-StandsAt InstCode.not a = with_stack-StandsAt (exec_not block)
  exec_inst-StandsAt InstCode.eq a = with_stack-StandsAt (exec_eq block)
  exec_inst-StandsAt InstCode.lt a = with_stack-StandsAt (exec_lt block)
  exec_inst-StandsAt InstCode.gt a = with_stack-StandsAt (exec_gt block)
  exec_inst-StandsAt (InstCode.goto ident) a = absurd a
  exec_inst-StandsAt (InstCode.if_goto ident) a = absurd a
  exec_inst-StandsAt (InstCode.call ident nargs) a = absurd a
  exec_inst-StandsAt InstCode.ret a = absurd a
  exec_inst-StandsAt InstCode.builtin_print_char a =
      builtin (exec_builtin_print_char block p) (builtins-SameFiles block p).0
  exec_inst-StandsAt InstCode.builtin_print_num a =
      builtin (exec_builtin_print_num block p) (builtins-SameFiles block p).1
  exec_inst-StandsAt InstCode.builtin_print_str a =
      builtin (exec_builtin_print_str block p) (builtins-SameFiles block p).2
  exec_inst-StandsAt InstCode.builtin_read_char a =
      builtin (exec_builtin_read_char block p) (builtins-SameFiles block p).3
  exec_inst-StandsAt InstCode.builtin_read_num a =
      builtin (exec_builtin_read_num block p) (builtins-SameFiles block p).4
  exec_inst-StandsAt InstCode.builtin_read_str a =
      builtin (exec_builtin_read_str block p) (builtins-SameFiles block p).5
  exec_inst-StandsAt InstCode.ic_none a = tt
