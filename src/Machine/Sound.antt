-- ===== src/Machine/Sound.antt =====
-- src/exec.c, src/prog.c: the invariant of a program that runs.
use hvme.Prelude.{
  ℕ, zero, suc, ◌<◌, ◌≡◌, ◌∙◌, refl, some, List, [], ◌∷◌, length, get_elem?, set, arith,
}
use hvme.Heap.{Heap, Memory}
use hvme.Stack.Valid.{IsValid}
use hvme.Stack.Confined.{Confined, Confined-refl, Confined-trans}
use hvme.Call.Chain.{Frame, frame_of, IsChain, IsChain-Confined}
use hvme.Builtins.Strings.{AllBytes}
use hvme.Program.{File, Program}

pub record WideHeap (h : Heap) : Type 0 where
  pub words : (i : ℕ) → h.mem i < 65536
  pub this : h.this < 65536
  pub that : h.that < 65536

pub record WideMemory (m : Memory) : Type 0 where
  pub static : (i : ℕ) → m.static i < 65536
  pub temp : (i : ℕ) → m.tmp i < 65536

-- The memory of every file holds 16-bit words.
abbrev pub WideFiles : List File → Type 0
WideFiles [] = Unit
WideFiles (f ∷ fs) = WideMemory f.mem × WideFiles fs

-- All that is neither the stack nor the chain of calls: the active file exists, memory and
-- pointers are 16-bit, and the standard input holds bytes.
pub record WideProgram (p : Program) : Type 0 where
  pub running : p.fi < length p.files
  pub memory : WideFiles p.files
  pub heap : WideHeap p.heap
  pub bytes : AllBytes p.io.stdin

-- The invariant, with the frames of the callers.
pub record IsSound (block : ℕ) (cs : List Frame) (p : Program) : Type 0 where
  pub valid : IsValid block p.stack
  pub chain : IsChain (length p.files) p.stack.ops (frame_of p.stack) cs
  pub wide : WideProgram p

-- `q` comes from `p` in the same function.
pub record Quiet (block : ℕ) (p q : Program) : Type 0 where
  pub stack : Confined block p.stack q.stack
  pub nfiles : length q.files ≡ length p.files
  pub wide : WideProgram q

pub Quiet-refl : {block : ℕ} {p : Program} → IsValid block p.stack → WideProgram p → Quiet block p p
Quiet-refl w wide = record { stack = Confined-refl w; nfiles = refl; wide = wide }

pub Quiet-trans :
    {block : ℕ} {p q r : Program} → Quiet block p q → Quiet block q r → Quiet block p r
Quiet-trans a b = record {
  stack = Confined-trans a.stack b.stack;
  nfiles = b.nfiles ∙ a.nfiles;
  wide = b.wide;
}

pub IsSound-Quiet :
    {block : ℕ} {cs : List Frame} {p q : Program}
    → IsSound block cs p
    → Quiet block p q
    → IsSound block cs q
IsSound-Quiet {block} {cs} {p} {q} h a = record {
  valid = a.stack.valid;
  chain = rw a.nfiles (IsChain-Confined block (length p.files) p.stack q.stack cs a.stack h.chain);
  wide = a.wide;
}

pub get_elem?-lt :
    {A : Type 0} (xs : List A) (i : ℕ) → i < length xs → (x : A) × (get_elem? xs i ≡ some x)
get_elem?-lt [] i h = absurd (omega arith)
get_elem?-lt (x ∷ xs) zero h = (x, refl)
get_elem?-lt (x ∷ xs) (suc i) h = get_elem?-lt xs i (omega arith)

pub get_elem?-WideFiles :
    (fs : List File) (i : ℕ) (f : File) → WideFiles fs → get_elem? fs i ≡ some f → WideMemory f.mem
get_elem?-WideFiles [] i f h e = cc
get_elem?-WideFiles (g ∷ fs) zero f (a, h) e = let same : g ≡ f = cc in rw (← same) a
get_elem?-WideFiles (g ∷ fs) (suc i) f (a, h) e = get_elem?-WideFiles fs i f h e

pub set-WideFiles :
    (fs : List File) (i : ℕ) (f : File) → WideFiles fs → WideMemory f.mem → WideFiles (set fs i f)
set-WideFiles [] i f h a = tt
set-WideFiles (g ∷ fs) zero f (b, h) a = (a, h)
set-WideFiles (g ∷ fs) (suc i) f (b, h) a = (b, set-WideFiles fs i f h a)

pub get_elem?-some :
    {A : Type 0} (xs : List A) (i : ℕ) (x : A) → get_elem? xs i ≡ some x → i < length xs
get_elem?-some [] i x e = cc
get_elem?-some (y ∷ xs) zero x e = omega arith
get_elem?-some (y ∷ xs) (suc i) x e = let h = get_elem?-some xs i x e in omega arith
