-- ===== src/Scan/Pieces.antt =====
-- src/scan.c: `scan`, over all the blocks of a file, against `scan_blk` of the file in one piece.
use hvme.Prelude.{
  ℕ, zero, suc, ◌+◌, ◌-◌, ◌<◌, ◌≤◌, ◌≡◌, ◌∙◌, refl, sym, ap, true, false, Option, none, some, List,
  [], ◌∷◌, ◌++◌, append_assoc, ◌==◌, Bool-cases, inl, inr, length, drop, take, take-all, take-drop,
  length-append, length-drop, arith, ==_iff,
}
use hvme.Exec.{overlap}
use hvme.Inst.{Pos}
use hvme.Scan.{Statics}
use hvme.Scan.Block.{Output, scan_blk}
use hvme.Scan.Rest.{Suffix-drop}
use hvme.Scan.Progress.{scan_blk-ends}
use hvme.Scan.File.{
  Scanned, scan_err, scan_ok, scan_fault, end_line, after_scan, scan_blocks, scan, max_token_len,
}
use hvme.Scan.Reading.{
  RegularFiles, scan_blocks-read, scan-open, copy_trailing-HalfBlock, end_line-full, length-take,
}
use hvme.Scan.Whole.{scan_all}
use hvme.Scan.Plain.{NoSlash, NoSlash-append, Suffix-NoSlash, scan_blk-EndsOutside}
use hvme.Scan.Agree.{
  Agrees, Agrees-move, Agrees-text, end_line-IsTail, Continues-at, Suffix-rest, copy_trailing_cases,
}

-- The last block.
last-Agrees :
    (size : ℕ) (text : List ℕ) (pos : Pos) (o : Output) (q : Option ℕ × Pos × Output)
    (rest : List ℕ → Pos → Output → Option Scanned)
    → (let blk = end_line size text in scan_blk (length blk) blk pos o ≡ some q)
    → (r : Scanned) × (after_scan false size (end_line size text) (some q) rest ≡ some r)
      × Agrees text pos o r
last-Agrees size text pos o (none, end, o') rest run =
    let (tail, t, e) = end_line-IsTail size text in
    (scan_err o'.vars, refl, (tail, end, o', t, rw e at run, refl))
last-Agrees size text pos o (some n, end, o') rest run =
    let (tail, t, e) = end_line-IsTail size text in
    elim (copy_trailing_cases size n (end_line size text)) [
      | inl much ↦ (scan_fault overlap, rw much refl, refl)
      | inr (copied, fine, _) ↦ (scan_ok end o', rw fine refl, (tail, n, t, rw e at run))
    ]

-- A full block, with the blocks behind it.
full-Agrees :
    (size : ℕ) (text later : List ℕ) (pos : Pos) (o : Output) (q : Option ℕ × Pos × Output)
    (rest : List ℕ → Pos → Output → Option Scanned)
    → length text ≡ size
    → scan_blk (length text) text pos o ≡ some q
    → NoSlash text
    → o.vars.inside_comment ≡ false
    → ((copied : List ℕ) (end : Pos) (o' : Output)
        → NoSlash copied
        → o'.vars.inside_comment ≡ false
        → length copied + length copied ≤ size
        → (r : Scanned) × (rest copied end o' ≡ some r) × Agrees (copied ++ later) end o' r)
    → (r : Scanned) × (after_scan true size text (some q) rest ≡ some r)
      × Agrees (text ++ later) pos o r
full-Agrees size text later pos o (none, end, o') rest full run clean outside go =
    let k = Continues-at text (later ++ []) pos o (none, end, o') run in
    (
      scan_err o'.vars,
      refl,
      (
        [],
        end,
        o',
        inl refl,
        ap (λ t. scan_all (record { text = t; pos = pos }) o) (append_assoc text later []) ∙ k,
        refl,
      ),
    )
full-Agrees size text later pos o (some n, end, o') rest full run clean outside go =
    elim (copy_trailing_cases size n text) [
      | inl much ↦ (scan_fault overlap, rw much refl, refl)
      | inr (copied, fine, from_end) ↦
          let out : o'.vars.inside_comment ≡ false =
            rw run at (scan_blk-EndsOutside (length text) text pos o clean outside) in
          let half : length copied + length copied ≤ size =
            rw fine at (copy_trailing-HalfBlock size n text full) in
          let left : copied ≡ drop (length text - n) text = from_end full in
          let kept : NoSlash copied = rw left (
            Suffix-NoSlash (drop (length text - n) text) text (Suffix-drop (length text - n) text)
              clean) in
          let (r, ran, agrees) = go copied end o' kept out half in
          (
            r,
            rw fine ran,
            Agrees-move (text ++ later) (copied ++ later) pos end o o' r
                (λ tail.
                  (let k = Continues-at text (later ++ tail) pos o (some n, end, o') run out in
                    let rest_copied : k.rest ≡ copied =
                      sym (Suffix-rest k.rest text k.suffix)
                      ∙ ap (λ m. drop (length text - m) text) k.size
                      ∙ sym left in
                    ap (λ t. scan_all (record { text = t; pos = pos }) o)
                      (append_assoc text later tail)
                    ∙ k.goes_on
                    ∙ ap (λ c. scan_all (record { text = c ++ (later ++ tail); pos = end }) o')
                        rest_copied
                    ∙ ap (λ t. scan_all (record { text = t; pos = end }) o')
                        (sym (append_assoc copied later tail))))
                agrees,
          )
    ]

take-NoSlash : (n : ℕ) (s : List ℕ) → NoSlash s → NoSlash (take n s)
take-NoSlash zero s h = tt
take-NoSlash (suc n) [] h = tt
take-NoSlash (suc n) (c ∷ s) (h, hs) = (h, take-NoSlash n s hs)

-- A block that is not full has all that was left of the file.
short_read :
    (size : ℕ) (copied s : List ℕ)
    → length copied + length copied ≤ size
    → (length (copied ++ take (size - length copied) s) == size) ≡ false
    → length s ≤ size - length copied
short_read size copied s half f =
    let asked = size - length copied in
    let a = length-append copied (take asked s) in
    let b = length-take asked s in let c = length-drop asked s in ground (arith, a, b, c)

module _ {Fd : Type 0} (read : Fd → ℕ → Option (List ℕ × Fd)) (regular : RegularFiles read)
    (size : ℕ) (wide : max_token_len ≤ size) where
  scan_blocks-Agrees :
      (fuel : ℕ) (fd : Fd) (s copied : List ℕ) (pos : Pos) (o : Output)
      → regular.Holds fd s
      → length s < fuel
      → length copied + length copied ≤ size
      → NoSlash copied
      → NoSlash s
      → o.vars.inside_comment ≡ false
      → (r : Scanned) × (scan_blocks read fuel size fd copied pos o ≡ some r)
        × Agrees (copied ++ s) pos o r
  scan_blocks-Agrees zero fd s copied pos o holds h half kept clean outside = absurd (omega arith)
  scan_blocks-Agrees (suc fuel) fd s copied pos o holds h half kept clean outside =
      let asked = size - length copied in
      let (fd', took, left) = regular.reads fd s asked holds in
      let later = drop asked s in
      let text = copied ++ take asked s in
      let blk = end_line size text in
      let rest = λ (c : List ℕ) (p : Pos) (o' : Output). scan_blocks read fuel size fd' c p o' in
      let start = scan_blocks-read read size fuel fd fd' copied (take asked s) pos o took in
      let (q, run, leaves) = scan_blk-ends blk pos o in
      let step : scan_blocks read (suc fuel) size fd copied pos o
          ≡ after_scan (length text == size) size blk (some q) rest =
        start ∙ ap (λ m. after_scan (length text == size) size blk m rest) run in
      elim (Bool-cases (length text == size)) [
        | inl t ↦
            let full : length text ≡ size = (==_iff (length text) size).0 t in
            let same : blk ≡ text = end_line-full size text full in
            let (r, ran, agrees) =
              full-Agrees size text later pos o q rest full
                (ap (λ u. scan_blk (length u) u pos o) (sym same) ∙ run)
                (NoSlash-append copied (take asked s) kept (take-NoSlash asked s clean)) outside
                (λ c p o' k out half'.
                  scan_blocks-Agrees fuel fd' later c p o' left
                    (omega (arith, full, length-append copied (take asked s), length-take asked s))
                    half' k (Suffix-NoSlash later s (Suffix-drop asked s) clean) out) in
            let whole : text ++ later ≡ copied ++ s =
              append_assoc copied (take asked s) later
              ∙ ap (λ u. copied ++ u) (take-drop asked s) in
            (
              r,
              step
                  ∙ ap (λ f. after_scan f size blk (some q) rest) t
                  ∙ ap (λ u. after_scan true size u (some q) rest) same
                  ∙ ran,
              Agrees-text pos o r whole agrees,
            )
        | inr f ↦
            let short : length s ≤ asked = short_read size copied s half f in
            let whole : text ≡ copied ++ s = ap (λ u. copied ++ u) (take-all asked s short) in
            let (r, ran, agrees) = last-Agrees size text pos o q rest run in
            (
              r,
              step ∙ ap (λ f. after_scan f size blk (some q) rest) f ∙ ran,
              Agrees-text pos o r whole agrees,
            )
      ]

  -- `scan` of a regular file without slashes, outside of a comment, ends, whatever the number of its
  -- blocks, if a block can hold the longest token, which `scan` asserts. If it succeeds, its position
  -- and output are those of `scan_blk` on the whole file in one piece, perhaps with a newline behind
  -- it; if it fails, `scan_blk` has the error on it; and its only fault is that of copying more than
  -- half a block.
  pub scan-Agrees :
      (open_file : List ℕ → Option Fd) (filename s : List ℕ) (fd : Fd) (v : Statics)
      → open_file filename ≡ some fd
      → regular.Holds fd s
      → NoSlash s
      → v.inside_comment ≡ false
      → (r : Scanned) × (scan read (suc (length s)) size open_file filename v ≡ some r)
        × Agrees s (record { ln = 0; cl = 0 }) (record { cells = []; vars = v }) r
  scan-Agrees open_file filename s fd v opens holds clean outside =
      let (r, run, agrees) =
        scan_blocks-Agrees (suc (length s)) fd s [] (record { ln = 0; cl = 0 })
          (record { cells = []; vars = v }) holds (omega arith) (omega arith) tt clean outside in
      (r, scan-open read size (suc (length s)) open_file filename fd v wide opens ∙ run, agrees)
