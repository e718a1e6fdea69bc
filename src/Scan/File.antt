-- ===== src/Scan/File.antt =====
-- src/scan.c: `scan`, over the blocks of a file. `read` and `open` are the parameters of the model:
-- `none` is their result -1. Closing the file and freeing the block are not modelled.
use hvme.Prelude.{
  ℕ, zero, suc, ◌+◌, ◌-◌, ◌&&◌, Bool, true, false, Option, none, some, List, [], ◌∷◌, ◌++◌, ltb,
  ◌==◌, if◌then◌else◌, length, drop,
}
use hvme.Exec.{Run, ok, err, fault, Fault, overlap, assertion}
use hvme.Inst.{Pos}
use hvme.Console.{newline, last_char}
use hvme.Scan.{Statics, max_ident_len}
use hvme.Scan.Block.{Output, scan_blk}

-- `scan_err` and `scan_ok` are `SCAN_ERR` and `SCAN_OK`.
pub data Scanned : Type 0 where
  scan_err : Statics → Scanned
  scan_ok : Pos → Output → Scanned
  scan_fault : Fault → Scanned

abbrev pub scan_block_size : ℕ
scan_block_size = 0x10000

-- `MAX_TOKEN_LEN` is `MAX_IDENT_LEN`.
abbrev pub max_token_len : ℕ
max_token_len = max_ident_len

-- A newline is put behind the last block, if it has none.
unfoldable pub end_line : ℕ → List ℕ → List ℕ
unfolding last_char
end_line size text =
    let len = length text in
    let ends = last_char text == newline in
    if ltb 0 len && ltb len size then (if ends then text else text ++ newline ∷ []) else text

-- `bytes_copied = res`, and the `memcpy` from the end of the block to its start: the two places must
-- not overlap.
unfoldable pub copy_trailing : ℕ → ℕ → List ℕ → Run Statics (List ℕ)
copy_trailing size res text =
    if ltb 0 res
    then (if ltb size (res + res) then fault overlap else ok (drop (size - res) text))
    else ok []

-- The end of a round: the loop goes on if the block was full.
abbrev pub next_block :
    Bool → Run Statics (List ℕ) → Scanned → (List ℕ → Option Scanned) → Option Scanned
next_block full (fault u) done rest = some (scan_fault u)
next_block full (err e v) done rest = some (scan_err v)
next_block true (ok copied) done rest = rest copied
next_block false (ok copied) done rest = some done

-- What follows the call of `scan_blk`.
abbrev pub after_scan :
    Bool
    → ℕ
    → List ℕ
    → Option (Option ℕ × Pos × Output)
    → (List ℕ → Pos → Output → Option Scanned)
    → Option Scanned
after_scan full size blk none rest = none
after_scan full size blk (some (none, pos, o)) rest = some (scan_err o.vars)
after_scan full size blk (some (some res, pos, o)) rest =
    next_block full (copy_trailing size res blk) (scan_ok pos o) (λ copied. rest copied pos o)

module _ {Fd : Type 0} (read : Fd → ℕ → Option (List ℕ × Fd)) where
  -- The loop of `scan`, on fuel for its rounds. `copied` stands at the start of the block.
  unfoldable pub scan_blocks : ℕ → ℕ → Fd → List ℕ → Pos → Output → Option Scanned
  unfolding end_line scan_blk
  scan_blocks zero size fd copied pos o = none
  scan_blocks (suc fuel) size fd copied pos o = elim (read fd (size - length copied)) [
    | none ↦ some (scan_err o.vars)
    | some (bytes, fd') ↦
        let text = copied ++ bytes in
        let blk = end_line size text in
        after_scan (length text == size) size blk (scan_blk (length blk) blk pos o)
          (λ copied' pos' o'. scan_blocks fuel size fd' copied' pos' o')
  ]

  -- `scan(new_tokens(filename))`. A block has to hold the longest token.
  unfoldable pub scan : ℕ → ℕ → (List ℕ → Option Fd) → List ℕ → Statics → Option Scanned
  unfolding scan_blocks
  scan fuel size open_file filename v =
      let opened : Option Scanned = elim (open_file filename) [
        | none ↦ some (scan_err v)
        | some fd ↦
            let start : Pos = record { ln = 0; cl = 0 } in
            scan_blocks fuel size fd [] start (record { cells = []; vars = v })
      ] in
      if ltb size max_token_len then some (scan_fault assertion) else opened
