-- ===== src/Machine/Lifted.antt =====
-- src/exec.c: the instructions on a part of the program, on the whole program.
use hvme.Prelude.{ℕ, ◌≡◌, refl, ap, none, some, length-set, get_elem?}
use hvme.Exec.{Run, ok, fault, out_of_bounds, Ends, Ends-bind, Ends-within}
use hvme.Stack.{Stack}
use hvme.Stack.Valid.{IsValid}
use hvme.Stack.Confined.{Confined, Confined-refl}
use hvme.Segments.{Banks}
use hvme.Segments.Kept.{IsWide, Kept}
use hvme.Program.{File, Program, active_file, set_ei}
use hvme.Machine.Sound.{
  WideMemory, WideProgram, Quiet, get_elem?-lt, get_elem?-WideFiles, set-WideFiles,
}
use hvme.Machine.{with_stack, put_banks, with_banks, next_ei}

pub active_file-some :
    (p : Program) (f : File) → get_elem? p.files p.fi ≡ some f → active_file p ≡ ok f
unfolding active_file
active_file-some p f e =
    ap {B = Run Program File} (λ o. elim o [ none ↦ fault out_of_bounds | some f ↦ ok f ]) e

-- The active file is there.
pub active_file-Ends : (p : Program) → WideProgram p → Ends (λ f. WideMemory f.mem) (active_file p)
active_file-Ends p h =
    let (f, e) = get_elem?-lt p.files p.fi h.running in
    rw (active_file-some p f e) (get_elem?-WideFiles p.files p.fi f h.memory e)

-- `q` is `p` but for a file's `ei`.
pub set_ei-Ends :
    (block ei : ℕ) (p : Program)
    → IsValid block p.stack
    → WideProgram p
    → Ends (λ q. Quiet block p q × (q.stack ≡ p.stack)) (set_ei ei p)
unfolding set_ei
set_ei-Ends block ei p w h = Ends-bind _ _ (active_file p) _ (active_file-Ends p h) (λ f a. (
  record {
    stack = Confined-refl w;
    nfiles = length-set p.files p.fi _;
    wide = record {
      running = rw (length-set p.files p.fi (record f { ei = ei })) h.running;
      memory = set-WideFiles p.files p.fi _ h.memory a;
      heap = h.heap;
      bytes = h.bytes;
    };
  },
  refl,
))

pub next_ei-Ends :
    (block : ℕ) (p : Program)
    → IsValid block p.stack
    → WideProgram p
    → Ends (λ q. Quiet block p q × (q.stack ≡ p.stack)) (next_ei p)
unfolding next_ei
next_ei-Ends block p w h =
    Ends-bind _ _ (active_file p) _ (active_file-Ends p h) (λ f a. set_ei-Ends block _ p w h)

pub with_stack-Ends :
    (block : ℕ) (f : Stack → Run Stack Stack) (p : Program)
    → WideProgram p
    → Ends (Confined block p.stack) (f p.stack)
    → Ends (Quiet block p) (with_stack f p)
unfolding with_stack
with_stack-Ends block f p h e =
    Ends-bind (Confined block p.stack) (Quiet block p) _ _ (Ends-within _ _ (f p.stack) e) (λ s c.
      record {
        stack = c;
        nfiles = refl;
        wide = record { running = h.running; memory = h.memory; heap = h.heap; bytes = h.bytes };
      })

-- What `with_banks` hands over.
abbrev pub banks_of : Program → File → Banks
banks_of p f = record { stack = p.stack; heap = p.heap; mem = f.mem }

put_banks-Quiet :
    (block : ℕ) (p : Program) (f : File) (b : Banks)
    → WideProgram p
    → Kept block (banks_of p f) b
    → Quiet block p (put_banks p f b)
unfolding put_banks
put_banks-Quiet block p f b h k = record {
  stack = k.stack;
  nfiles = length-set p.files p.fi _;
  wide = record {
    running = rw (length-set p.files p.fi (record f { mem = b.mem })) h.running;
    memory =
        set-WideFiles p.files p.fi _ h.memory
          (record { static = k.wide.static; temp = k.wide.temp });
    heap = record { words = k.wide.heap; this = k.wide.this; that = k.wide.that };
    bytes = h.bytes;
  };
}

pub with_banks-Ends :
    (block : ℕ) (g : Banks → Run Banks Banks) (p : Program)
    → WideProgram p
    → ((f : File) → IsWide (banks_of p f) → Ends (Kept block (banks_of p f)) (g (banks_of p f)))
    → Ends (Quiet block p) (with_banks g p)
unfolding with_banks
with_banks-Ends block g p h e = Ends-bind _ _ (active_file p) _ (active_file-Ends p h) (λ f a.
    let wide : IsWide (banks_of p f) = record {
      heap = h.heap.words;
      static = a.static;
      temp = a.temp;
      this = h.heap.this;
      that = h.heap.that;
    } in
    Ends-bind (Kept block (banks_of p f)) _ _ _ (Ends-within _ _ (g (banks_of p f)) (e f wide))
      (λ b k. put_banks-Quiet block p f b h k))
