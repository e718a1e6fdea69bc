-- ===== src/Table/Refines.antt =====
-- src/st.c: `new_st` and `insert_st` as operations on a map from keys to values.
use hvme.Prelude.{ℕ, ◌+◌, ◌≤◌, ◌≡◌, ◌∙◌, sym, ap, true, none, some, [], inl, inr, if◌then◌else◌}
use hvme.Exec.{ok}
use hvme.Table.{
  SymKey, SymVal, SymbolTable, keys_are_eq, is_unused, at, free_cell, new_st, get_st, grow_st,
  insert_st, inres_ok,
}
use hvme.Table.Search.{IsValid, get_st_lem}
use hvme.Table.Cells.{at-free, grow_st-cells, grow_st-offset, grow_st-IsValid, new_st-IsValid}
use hvme.Table.Insert.{moved, added, refused, aborted, insert_st_lem}
use hvme.Table.Map.{
  IsNamed, IsUnique, IsAbsent, free_cell-differs, get_st-cell, get_st-absent, IsAbsent-get_st,
  Updated, Entered-Updated,
}

module _ (block : ℕ) (st : SymbolTable) (w : IsValid block st) (unique : IsUnique st) where
  grown-IsUnique : IsUnique (grow_st block st)
  grown-IsUnique i j used hit =
      unique i j (rw (grow_st-cells block st i) at used)
        (rw (grow_st-cells block st i, grow_st-cells block st j) at hit)

  -- Growth does not show in `get_st`.
  grown-reads : (k : SymKey) → IsNamed k → get_st (grow_st block st) k ≡ get_st st k
  grown-reads k named =
      let w' = (grow_st-IsValid block st w).0 in
      elim (get_st_lem block st k w) [
        | inl (v, run, f) ↦
            let cell = grow_st-cells block st f.index in
            get_st-cell block (grow_st block st) w' k named f.index grown-IsUnique (rw cell f.fits)
            ∙ ap some (
                ap (λ c. record (c.val) { inst_addr = c.val.inst_addr + (grow_st block st).offset })
                  cell
                ∙ ap
                    (λ n. record ((at st.cell f.index).val) {
                      inst_addr = (at st.cell f.index).val.inst_addr + n;
                    })
                    (grow_st-offset block st)
                ∙ sym f.reads)
            ∙ sym run
        | inr (run, miss) ↦
            get_st-absent block (grow_st block st) w' k named
              (λ i. rw (grow_st-cells block st i) (IsAbsent-get_st block st w k named run i))
            ∙ sym run
      ]

  -- `insert_st` of a function's or a label's key for which `get_st` finds nothing returns
  -- `INRES_OK`, also when the table is full and has to grow. Afterwards `get_st` finds the value,
  -- its address moved by the table's offset, under the key, and under every other such key what it
  -- found before. The table stays valid, and no key has two entries, if this was so before.
  pub insert_st-Updated :
      (key : SymKey) (val : SymVal)
      → IsNamed key
      → get_st st key ≡ none
      → (new : SymbolTable) × (insert_st block st key val ≡ ok (inres_ok, new))
        × Updated block st key val new
  insert_st-Updated key val named missing =
      let st' = grow_st block st in
      let w' = (grow_st-IsValid block st w).0 in
      let absent : IsAbsent st' key =
        IsAbsent-get_st block st' w' key named (grown-reads key named ∙ missing) in
      elim (insert_st_lem block st key val w named) [
        | added new run a ↦
            let u = Entered-Updated block st' key val new grown-IsUnique absent a w' in
            (
              new,
              run,
              record {
                valid = u.valid;
                unique = u.unique;
                offset = u.offset ∙ grow_st-offset block st;
                reads = λ k n.
                    u.reads k n
                    ∙ ap
                        (λ o.
                          if keys_are_eq key k
                          then some (record val { inst_addr = val.inst_addr + o })
                          else get_st st' k)
                        (grow_st-offset block st)
                    ∙ ap (λ g. if keys_are_eq key k then some (moved st val) else g)
                        (grown-reads k n);
              },
            )
        | refused run (i, h, s) ↦ let hit = s.0 in let miss = absent i in cc
        | aborted run (i, h, s) ↦ let hit = s.0 in let miss = absent i in cc
      ]

new_st-cells : (block i : ℕ) → at (new_st block).cell i ≡ free_cell
unfolding new_st
new_st-cells block i = at-free [] (block + 1) i

pub new_st-IsUnique : (block : ℕ) → IsUnique (new_st block)
new_st-IsUnique block i j used hit =
    let free : is_unused (at (new_st block).cell i) ≡ true = ap is_unused (new_st-cells block i) in
    cc

pub new_st-get_st :
    (block : ℕ) (key : SymKey) → 4 ≤ block → IsNamed key → get_st (new_st block) key ≡ none
new_st-get_st block key h named =
    get_st-absent block (new_st block) (new_st-IsValid block h) key named
      (λ i. rw (new_st-cells block i) (free_cell-differs key named))
