-- ===== src/Scan/Agree.antt =====
-- src/scan.c: the blocks of `scan`, as pieces of the text of a file.
use hvme.Prelude.{
  ℕ, ◌+◌, ◌-◌, ◌≡◌, ◌∙◌, ◌⊎◌, refl, sym, ap, ◌&&◌, Option, none, some, List, [], ◌∷◌, ◌++◌,
  append_nil, ltb, ◌==◌, Bool-cases, inl, inr, if-true, if-false, length, drop, length-append,
  arith, not_ltb→le,
}
use hvme.Exec.{ok, fault, overlap}
use hvme.Inst.{Pos}
use hvme.Console.{newline, last_char}
use hvme.Scan.Block.{Output, scan_blk}
use hvme.Scan.Rest.{Suffix}
use hvme.Scan.File.{Scanned, scan_err, scan_ok, scan_fault, end_line, copy_trailing}
use hvme.Scan.Whole.{scan_all}
use hvme.Scan.Split.{Continues, scan_blk-Continues}

-- Nothing, or the newline that ends a last line.
abbrev pub IsTail : List ℕ → Type 0
IsTail tail = (tail ≡ []) ⊎ (tail ≡ newline ∷ [])

-- A result of `scan` is that of `scan_blk` on the text in one piece, perhaps with a newline behind
-- it; the only fault is the one of copying too much.
abbrev pub Agrees : List ℕ → Pos → Output → Scanned → Type 0
Agrees text pos o (scan_ok end o') =
    (tail : List ℕ) × (n : ℕ) × IsTail tail
    × (scan_all (record { text = text ++ tail; pos = pos }) o ≡ some (some n, end, o'))
Agrees text pos o (scan_err v) =
    (tail : List ℕ) × (end : Pos) × (o' : Output) × IsTail tail
    × (scan_all (record { text = text ++ tail; pos = pos }) o ≡ some (none, end, o'))
    × (o'.vars ≡ v)
Agrees text pos o (scan_fault u) = u ≡ overlap

pub Agrees-move :
    (x y : List ℕ) (pos end : Pos) (o o' : Output) (r : Scanned)
    → ((tail : List ℕ)
        → scan_all (record { text = x ++ tail; pos = pos }) o
          ≡ scan_all (record { text = y ++ tail; pos = end }) o')
    → Agrees y end o' r
    → Agrees x pos o r
Agrees-move x y pos end o o' (scan_ok p out) same (tail, n, t, run) = (tail, n, t, same tail ∙ run)
Agrees-move x y pos end o o' (scan_err v) same (tail, p, out, t, run, e) =
    (tail, p, out, t, same tail ∙ run, e)
Agrees-move x y pos end o o' (scan_fault u) same h = h

pub Agrees-text :
    {x y : List ℕ} (pos : Pos) (o : Output) (r : Scanned)
    → x ≡ y
    → Agrees x pos o r
    → Agrees y pos o r
Agrees-text pos o r e h = rw e at h

pub end_line-IsTail :
    (size : ℕ) (text : List ℕ) → (tail : List ℕ) × IsTail tail × (end_line size text ≡ text ++ tail)
unfolding end_line
end_line-IsTail size text = elim (Bool-cases (ltb 0 (length text) && ltb (length text) size)) [
  | inl t ↦ elim (Bool-cases (last_char text == newline)) [
    | inl e ↦ ([], inl refl, if-true _ _ t ∙ if-true _ _ e ∙ sym (append_nil text))
    | inr e ↦ (newline ∷ [], inr refl, if-true _ _ t ∙ if-false _ _ e)
  ]
  | inr t ↦ ([], inl refl, if-false _ _ t ∙ sym (append_nil text))
]

-- The continuation of a block whose result is known.
pub Continues-at :
    (a b : List ℕ) (pos : Pos) (o : Output) (q : Option ℕ × Pos × Output)
    → scan_blk (length a) a pos o ≡ some q
    → Continues a b pos o q
Continues-at a b pos o q run =
    let (q', run', k) = scan_blk-Continues a b pos o in
    let same : q' ≡ q = ap (from q') (sym run' ∙ run) in rw same at k
  where
    from : Option ℕ × Pos × Output → Option (Option ℕ × Pos × Output) → Option ℕ × Pos × Output
    from d none = d
    from d (some q) = q

-- What is left of a block is what is copied.
pub Suffix-rest : (rest a : List ℕ) → Suffix rest a → drop (length a - length rest) a ≡ rest
Suffix-rest rest a s = rw s.splits (
    ap (λ n. drop n (s.read ++ rest)) (omega (arith, length-append s.read rest)) ∙ drop-read s.read)
  where
    drop-read : (read : List ℕ) → drop (length read) (read ++ rest) ≡ rest
    drop-read [] = refl
    drop-read (c ∷ read) = drop-read read

drop-all : (t : List ℕ) → drop (length t) t ≡ []
drop-all [] = refl
drop-all (c ∷ t) = drop-all t

pub copy_trailing_cases :
    (size n : ℕ) (blk : List ℕ)
    → (copy_trailing size n blk ≡ fault overlap)
      ⊎ ((copied : List ℕ) × (copy_trailing size n blk ≡ ok copied)
          × (length blk ≡ size → copied ≡ drop (length blk - n) blk))
unfolding copy_trailing
copy_trailing_cases size n blk = elim (Bool-cases (ltb 0 n)) [
  | inr zero_left ↦ inr (
    [],
    if-false _ _ zero_left,
    λ full. sym (ap (λ k. drop k blk) (omega (arith, not_ltb→le 0 n zero_left)) ∙ drop-all blk),
  )
  | inl some_left ↦ elim (Bool-cases (ltb size (n + n))) [
    | inl much ↦ inl (if-true _ _ some_left ∙ if-true _ _ much)
    | inr little ↦ inr (
      drop (size - n) blk,
      if-true _ _ some_left ∙ if-false _ _ little,
      λ full. ap (λ k. drop (k - n) blk) (sym full),
    )
  ]
]
