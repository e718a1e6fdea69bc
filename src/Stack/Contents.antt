-- ===== src/Stack/Contents.antt =====
-- src/prog.c: the operand stack as a list of words. `spush` and `spop` are the operations of a
-- list, whatever `realloc` does to the block that holds the words.
use hvme.Prelude.{ℕ, zero, suc, ◌+◌, ◌<◌, ◌≡◌, refl, Option, some, List, [], ◌∷◌, arith, length}
use hvme.Exec.{ok}
use hvme.Stack.{Stack, spush, spop}
use hvme.Stack.Valid.{IsValid, SameRegs, Pushed, Popped, spush-Pushed, spop-Popped}

unfoldable pub contents_below : (ℕ → Option ℕ) → ℕ → List (Option ℕ)
contents_below ops zero = []
contents_below ops (suc n) = ops n ∷ contents_below ops n

-- The words of the stack, the top one first.
unfoldable pub contents : Stack → List (Option ℕ)
unfolding contents_below
contents s = contents_below s.ops s.sp

pub contents_below_congr :
    (f g : ℕ → Option ℕ) (n : ℕ)
    → ((i : ℕ) → i < n → f i ≡ g i)
    → contents_below f n ≡ contents_below g n
unfolding contents_below
contents_below_congr f g zero h = refl
contents_below_congr f g (suc n) h =
    rw (h n (omega arith), contents_below_congr f g n (λ i k. h i (omega arith)))

pub length-contents : (s : Stack) → length (contents s) ≡ s.sp
unfolding contents
length-contents s = count s.sp
  where
    count : (n : ℕ) → length (contents_below s.ops n) ≡ n
    count zero = refl
    count (suc n) = omega (arith, count n)

pub contents-Pushed :
    {block v : ℕ} {s t : Stack} → Pushed block v s t → contents t ≡ some v ∷ contents s
unfolding contents
contents-Pushed {s} {t} p =
    let e : t.sp ≡ suc s.sp = omega (arith, p.height) in
    rw (e, p.top, contents_below_congr t.ops s.ops s.sp p.below)

pub contents-Popped :
    {block v : ℕ} {s t : Stack} → Popped block v s t → contents s ≡ some v ∷ contents t
unfolding contents
contents-Popped {s} {t} p =
    let e : s.sp ≡ suc t.sp = omega (arith, p.height) in
    rw (e, p.top, contents_below_congr t.ops s.ops t.sp p.below)

-- On a valid stack, `spush` of a word succeeds: it puts the word in front of the contents and
-- keeps the segment registers and the invariant.
pub spush-contents :
    (block v : ℕ) (s : Stack)
    → IsValid block s
    → v < 65536
    → (t : Stack) × (spush block v s ≡ ok t)
      × (contents t ≡ some v ∷ contents s)
      × SameRegs s t
      × IsValid block t
spush-contents block v s valid word =
    let (t, run, p) = spush-Pushed block v s valid word in
    (t, run, contents-Pushed p, p.regs, p.valid)

-- On a valid stack with a word above the frame, `spop` succeeds: it returns the first word of the
-- contents and leaves the others, the segment registers and the invariant.
pub spop-contents :
    (block : ℕ) (s : Stack)
    → IsValid block s
    → s.lcl + s.lcl_len < s.sp
    → (v : ℕ) × (t : Stack) × (spop block s ≡ ok (some v, t))
      × (contents s ≡ some v ∷ contents t)
      × SameRegs s t
      × IsValid block t
spop-contents block s valid h =
    let (v, t, run, p) = spop-Popped block s valid h in
    (v, t, run, contents-Popped p, p.regs, p.valid)
