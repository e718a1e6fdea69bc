-- ===== src/Scan/Reading.antt =====
-- src/scan.c: `scan` on regular files, of which `read` returns as many bytes as are asked for and
-- left.
use hvme.Prelude.{
  ℕ, zero, suc, ◌+◌, ◌-◌, ◌<◌, ◌≤◌, ◌≡◌, ◌∙◌, refl, ap, Bool, true, false, Option, none, some, List,
  [], ◌++◌, ltb, ◌==◌, length, drop, take, take-all, length-drop, take-drop, length-append, arith,
  Bool-cases, inl, inr, if-false, le→not_ltb, not_ltb→le, ==_iff,
}
use hvme.Exec.{Run, ok, err, fault}
use hvme.Inst.{Pos}
use hvme.Scan.{Statics}
use hvme.Scan.Block.{Output, scan_blk}
use hvme.Scan.Progress.{scan_blk-ends}
use hvme.Scan.File.{
  Scanned, scan_err, scan_ok, scan_fault, end_line, copy_trailing, next_block, after_scan,
  scan_blocks, scan, max_token_len,
}

-- What `read` documents for regular files. `Holds fd s` says that `s` is left to be read.
pub record RegularFiles {Fd : Type 0} (read : Fd → ℕ → Option (List ℕ × Fd)) : Type 1 where
  pub Holds : Fd → List ℕ → Type 0
  pub reads :
      (fd : Fd) (s : List ℕ) (n : ℕ)
      → Holds fd s
      → (fd' : Fd) × (read fd n ≡ some (take n s, fd')) × Holds fd' (drop n s)

pub length-take : (n : ℕ) (s : List ℕ) → length s ≡ length (take n s) + length (drop n s)
length-take n s =
    omega
      (arith, length-append (take n s) (drop n s), ap (λ (l : List ℕ). length l) (take-drop n s))

-- A full block is left as it is.
pub end_line-full : (size : ℕ) (text : List ℕ) → length text ≡ size → end_line size text ≡ text
unfolding end_line
end_line-full size text h =
    let not_short : ltb (length text) size ≡ false = ground arith in
    elim (Bool-cases (ltb 0 (length text))) [ inl t ↦ rw (t, not_short) refl | inr t ↦ rw t refl ]

-- What a full block leaves to be copied is at most half a block.
abbrev pub HalfBlock : ℕ → Run Statics (List ℕ) → Type 0
HalfBlock size (ok copied) = length copied + length copied ≤ size
HalfBlock size (err e v) = Unit
HalfBlock size (fault u) = Unit

pub copy_trailing-HalfBlock :
    (size res : ℕ) (text : List ℕ)
    → length text ≡ size
    → HalfBlock size (copy_trailing size res text)
unfolding copy_trailing
copy_trailing-HalfBlock size res text h = elim (Bool-cases (ltb 0 res)) [
  | inl t ↦ elim (Bool-cases (ltb size (res + res))) [
    | inl k ↦ rw (t, k) tt
    | inr k ↦
        rw (t, k) (omega (arith, length-drop (size - res) text, not_ltb→le size (res + res) k))
  ]
  | inr t ↦ rw t (omega arith)
]

next_block-ends :
    (full : Bool) (size : ℕ) (m : Run Statics (List ℕ)) (done : Scanned)
    (rest : List ℕ → Option Scanned)
    → (full ≡ true → HalfBlock size m)
    → ((copied : List ℕ)
        → full ≡ true
        → length copied + length copied ≤ size
        → (r : Scanned) × (rest copied ≡ some r))
    → (r : Scanned) × (next_block full m done rest ≡ some r)
next_block-ends full size (fault u) done rest h go = (scan_fault u, refl)
next_block-ends full size (err e v) done rest h go = (scan_err v, refl)
next_block-ends true size (ok copied) done rest h go = go copied refl (h refl)
next_block-ends false size (ok copied) done rest h go = (done, refl)

after_scan-ends :
    (full : Bool) (size : ℕ) (blk : List ℕ) (m : Option (Option ℕ × Pos × Output))
    (q : Option ℕ × Pos × Output) (rest : List ℕ → Pos → Output → Option Scanned)
    → m ≡ some q
    → (full ≡ true → length blk ≡ size)
    → ((copied : List ℕ) (pos : Pos) (o : Output)
        → full ≡ true
        → length copied + length copied ≤ size
        → (r : Scanned) × (rest copied pos o ≡ some r))
    → (r : Scanned) × (after_scan full size blk m rest ≡ some r)
after_scan-ends full size blk m (none, pos, o) rest e h go = rw e (scan_err o.vars, refl)
after_scan-ends full size blk m (some res, pos, o) rest e h go = rw e (
    next_block-ends full size (copy_trailing size res blk) (scan_ok pos o)
      (λ copied. rest copied pos o) (λ f. copy_trailing-HalfBlock size res blk (h f))
      (λ copied f half. go copied pos o f half))

-- A block after its `read`, and a file after its `open`.
module _ {Fd : Type 0} (read : Fd → ℕ → Option (List ℕ × Fd)) (size : ℕ) where
  pub scan_blocks-read :
      (fuel : ℕ) (fd fd' : Fd) (copied bytes : List ℕ) (pos : Pos) (o : Output)
      → read fd (size - length copied) ≡ some (bytes, fd')
      → (let blk = end_line size (copied ++ bytes) in
          scan_blocks read (suc fuel) size fd copied pos o
          ≡ after_scan
              (length (copied ++ bytes) == size)
              size
              blk
              (scan_blk (length blk) blk pos o)
              (λ copied' pos' o'. scan_blocks read fuel size fd' copied' pos' o'))
  unfolding scan_blocks
  scan_blocks-read fuel fd fd' copied bytes pos o e = goes _ e
    where
      goes :
          {r : Option (List ℕ × Fd)} (f : List ℕ → Fd → Option Scanned)
          → r ≡ some (bytes, fd')
          → (elim r [ none ↦ some (scan_err o.vars) | some (bytes, fd') ↦ f bytes fd' ])
            ≡ f bytes fd'
      goes f e = rw e refl

  pub scan-open :
      (fuel : ℕ) (open_file : List ℕ → Option Fd) (filename : List ℕ) (fd : Fd) (v : Statics)
      → max_token_len ≤ size
      → open_file filename ≡ some fd
      → scan read fuel size open_file filename v
        ≡ scan_blocks read fuel size fd []
            (record { ln = 0; cl = 0 })
            (record { cells = []; vars = v })
  unfolding scan
  scan-open fuel open_file filename fd v wide e =
      if-false _ _ (le→not_ltb size max_token_len wide) ∙ goes _ e
    where
      goes :
          {r : Option Fd} (f : Fd → Option Scanned)
          → r ≡ some fd
          → (elim r [ none ↦ some (scan_err v) | some fd ↦ f fd ]) ≡ f fd
      goes f e = rw e refl

module _ {Fd : Type 0} (read : Fd → ℕ → Option (List ℕ × Fd)) (regular : RegularFiles read)
    (size : ℕ) (wide : max_token_len ≤ size) where
  scan_blocks-from :
      (fuel : ℕ) (fd : Fd) (s copied : List ℕ) (pos : Pos) (o : Output)
      → regular.Holds fd s
      → length s < fuel
      → length copied + length copied ≤ size
      → (r : Scanned) × (scan_blocks read fuel size fd copied pos o ≡ some r)
  scan_blocks-from zero fd s copied pos o holds h half = absurd (omega arith)
  scan_blocks-from (suc fuel) fd s copied pos o holds h half =
      let asked = size - length copied in
      let (fd', took, left) = regular.reads fd s asked holds in
      let text = copied ++ take asked s in
      let blk = end_line size text in
      let (q, run, leaves) = scan_blk-ends blk pos o in
      let full_length : (length text == size) ≡ true → length text ≡ size =
        λ f. (==_iff (length text) size).0 f in
      rw (scan_blocks-read read size fuel fd fd' copied (take asked s) pos o took) (
        after_scan-ends (length text == size) size blk (scan_blk (length blk) blk pos o) q
          (λ copied' pos' o'. scan_blocks read fuel size fd' copied' pos' o') run
          (λ f.
            ap (λ (t : List ℕ). length t) (end_line-full size text (full_length f)) ∙ full_length f)
          (λ copied' pos' o' f half'.
            scan_blocks-from fuel fd' (drop asked s) copied' pos' o' left
              (omega (
                arith,
                full_length f,
                length-append copied (take asked s),
                length-take asked s,
                length-drop asked s,
              ))
              half'))

  -- `scan` of a regular file ends if a block can hold the longest token, which `scan` asserts: every
  -- full block takes a byte at least from the file, since what is copied from the block before is
  -- half a block at most.
  pub scan-ends :
      (open_file : List ℕ → Option Fd) (filename s : List ℕ) (fd : Fd) (v : Statics)
      → open_file filename ≡ some fd
      → regular.Holds fd s
      → (r : Scanned) × (scan read (suc (length s)) size open_file filename v ≡ some r)
  scan-ends open_file filename s fd v opens holds =
      rw (scan-open read size (suc (length s)) open_file filename fd v wide opens) (
        scan_blocks-from (suc (length s)) fd s [] (record { ln = 0; cl = 0 })
          (record { cells = []; vars = v }) holds (omega arith) (omega arith))

module _ {Fd : Type 0} (read : Fd → ℕ → Option (List ℕ × Fd)) (regular : RegularFiles read)
    (fuel size : ℕ) where
  -- `scan` of a regular file that can be opened and is shorter than a block, which can hold the
  -- longest token, is one call of `scan_blk` on its bytes, with a newline behind them if they do
  -- not end in one: if that call takes them all, `scan` succeeds with its position and output.
  pub scan-short :
      (open_file : List ℕ → Option Fd) (filename s : List ℕ) (fd : Fd) (v : Statics) (pos : Pos)
      (o : Output)
      → open_file filename ≡ some fd
      → regular.Holds fd s
      → max_token_len ≤ size
      → length s < size
      → (let blk = end_line size s in
          scan_blk (length blk) blk (record { ln = 0; cl = 0 }) (record { cells = []; vars = v })
          ≡ some (some 0, pos, o))
      → scan read (suc fuel) size open_file filename v ≡ some (scan_ok pos o)
  unfolding copy_trailing
  scan-short open_file filename s fd v pos o opens holds wide short run =
      let asked = size - 0 in
      let (fd', took, left) = regular.reads fd s asked holds in
      let whole : take asked s ≡ s = take-all asked s (omega arith) in
      let not_full : (length s == size) ≡ false = ground arith in
      let start : Pos = record { ln = 0; cl = 0 } in
      let out : Output = record { cells = []; vars = v } in
      scan-open read size (suc fuel) open_file filename fd v wide opens
      ∙ scan_blocks-read read size fuel fd fd' [] (take asked s) start out took
      ∙ ap
          (λ t.
            after_scan (length t == size) size (end_line size t)
              (scan_blk (length (end_line size t)) (end_line size t) start out)
              (λ copied' pos' o'. scan_blocks read fuel size fd' copied' pos' o'))
          whole
      ∙ (rw (run, not_full) refl)
