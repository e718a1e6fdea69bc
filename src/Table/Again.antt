-- ===== src/Table/Again.antt =====
-- src/st.c: a second `insert_st` of a key.
use hvme.Prelude.{
  ℕ, zero, suc, ◌+◌, ◌-◌, ◌≤◌, ◌<◌, ◌≡◌, refl, Bool, true, false, Option, none, some, List, ◌==◌,
  ◌∙◌, sym, ap, leb, if◌then◌else◌, arith, length, dec_lt,
}
use hvme.Exec.{Run, ok, fault, assertion}
use hvme.Table.{
  SymKey, SymVal, Symbol, SymbolTable, type_code, vals_are_eq, is_unused, at, probe, probe_both,
  place, delim_hash, djb2hash_key, insert_st, InsertResult, inres_ok, inres_exists,
}
use hvme.Table.Search.{IsValid, start-lt}
use hvme.Table.Cells.{keys_are_eq_refl, grow_st-room}
use hvme.Table.Probe.{
  Passed, Same, OnPath, ahead, round, OnPath-lt, End, clash, full, vacant, present, probe_both-End,
}
use hvme.Table.Insert.{written, enter-added, enter-aborted, not_full, OnPath-written, at-written}

-- What the loops answer at a cell with the key.
abbrev verdict : Bool → ℕ → Option ℕ
verdict true j = some j
verdict false j = none

probe-hit :
    (cells : List Symbol) (key : SymKey) (val : SymVal) (b : Bool) (rounds lo j : ℕ)
    → lo ≤ j
    → j < lo + rounds
    → Passed cells key lo j
    → is_unused (at cells j) ≡ false
    → Same cells key val b j
    → probe cells key val rounds lo ≡ verdict b j
unfolding probe
probe-hit cells key val b zero lo j x y p u s = absurd (omega arith)
probe-hit cells key val b (suc rounds) lo j x y p u s = elim (dec_lt lo j) [
  | yes h ↦
      rw (p.taken lo (omega arith) h, p.miss lo (omega arith) h)
        (probe-hit cells key val b rounds (suc lo) j h (omega arith)
          (record {
            taken = λ k c d. p.taken k (omega arith) d;
            miss = λ k c d. p.miss k (omega arith) d;
          })
          u s)
  | no h ↦ let e : lo ≡ j = omega arith in rw (e, u, s.0, s.1) (both b)
]
  where
    both : (b : Bool) → (if b then some j else none) ≡ verdict b j
    both true = refl
    both false = refl

probe-Passed :
    (cells : List Symbol) (key : SymKey) (val : SymVal) (rounds lo : ℕ)
    → Passed cells key lo (lo + rounds)
    → probe cells key val rounds lo ≡ some (lo + rounds)
unfolding probe
probe-Passed cells key val zero lo p = ap some (omega arith)
probe-Passed cells key val (suc rounds) lo p =
    let e : suc lo + rounds ≡ lo + suc rounds = omega arith in
    rw (p.taken lo (omega arith) (omega arith), p.miss lo (omega arith) (omega arith))
      (probe-Passed cells key val rounds (suc lo) (record {
        taken = λ k c d. p.taken k (omega arith) (omega arith);
        miss = λ k c d. p.miss k (omega arith) (omega arith);
      })
        ∙ ap some e)

probe_both-hit :
    (st : SymbolTable) (key : SymKey) (val : SymVal) (b : Bool) (start j : ℕ)
    → OnPath st.cell key start st.len j
    → is_unused (at st.cell j) ≡ false
    → Same st.cell key val b j
    → probe_both st key val start ≡ verdict b j
unfolding probe_both
probe_both-hit st key val true start j (ahead x y p) u s =
    let inside : leb st.len j ≡ false = ground arith in
    rw (
      probe_both,
      probe-hit st.cell key val true (st.len - start) start j x (omega arith) p u s,
      inside,
    )
probe_both-hit st key val false start j (ahead x y p) u s =
    rw (probe_both, probe-hit st.cell key val false (st.len - start) start j x (omega arith) p u s)
probe_both-hit st key val b start j (round x y p q) u s =
    let e : start + (st.len - start) ≡ st.len = omega arith in
    let end : leb st.len st.len ≡ true = ground arith in
    rw (probe_both, probe-Passed st.cell key val (st.len - start) start (rw e p), e, end)
      (probe-hit st.cell key val b start 0 j (omega arith) (omega arith) q u s)

-- What `insert_st` answers to a key that is there: `INRES_EXISTS` for another value, and a failed
-- `assert` for the same value.
abbrev pub repeated : SymbolTable → Bool → Run SymbolTable (InsertResult × SymbolTable)
repeated st true = fault assertion
repeated st false = ok (inres_exists, st)

start_of : SymbolTable → SymKey → ℕ
start_of st key = delim_hash (djb2hash_key key) (st.len - 1)

insert_st-room :
    (block : ℕ) (st : SymbolTable) (key : SymKey) (val : SymVal)
    → st.used < st.len
    → insert_st block st key val ≡ place st key val (probe_both st key val (start_of st key))
unfolding insert_st start_of
insert_st-room block st key val h = rw (grow_st-room block st h)

place-verdict :
    (st : SymbolTable) (key : SymKey) (val : SymVal) (b : Bool) (j : ℕ)
    → j < st.len
    → is_unused (at st.cell j) ≡ false
    → place st key val (verdict b j) ≡ repeated st b
unfolding place
place-verdict st key val true j h u = enter-aborted st key val j h u
place-verdict st key val false j h u = refl

written_again :
    (block : ℕ) (st : SymbolTable) (key : SymKey) (val val' : SymVal) (j : ℕ)
    → IsValid block st
    → (type_code key.type == 0) ≡ false
    → st.used + 1 < st.len
    → OnPath st.cell key (start_of st key) st.len j
    → insert_st block (written st key val j) key val'
      ≡ repeated (written st key val j) (vals_are_eq val val')
unfolding written start_of
written_again block st key val val' j w t room path =
    let new = written st key val j in
    let h : j < length st.cell = omega (arith, w.width, OnPath-lt path) in
    let cell = at-written block st key val j h in
    let taken : is_unused (at new.cell j) ≡ false = rw cell t in
    let hit =
      probe_both-hit new key val' (vals_are_eq val val') (start_of st key) j
        (OnPath-written block st key val j (start_of st key) h path) taken
        (rw cell (keys_are_eq_refl key), rw cell) in
    insert_st-room block new key val' (omega arith)
    ∙ ap (place new key val') hit
    ∙ place-verdict new key val' (vals_are_eq val val') j (OnPath-lt path) taken

from_End :
    (block : ℕ) (st new : SymbolTable) (key : SymKey) (val val' : SymVal) (r : Option ℕ)
    → IsValid block st
    → (type_code key.type == 0) ≡ false
    → st.used + 1 < st.len
    → place st key val r ≡ ok (inres_ok, new)
    → End st.cell key val st.len (start_of st key) r
    → insert_st block new key val' ≡ repeated new (vals_are_eq val val')
unfolding place
from_End block st new key val val' r w t room run (clash i h s e) = let run' = rw e at run in cc
from_End block st new key val val' r w t room run (full p e) =
    absurd (not_full block st key w (omega arith) p)
from_End block st new key val val' r w t room run (present j path u s e) =
    let run' = rw (e, enter-aborted st key val j (OnPath-lt path) u) at run in cc
from_End block st new key val val' r w t room run (vacant j path u e) =
    let run' = rw (e, enter-added st key val j (OnPath-lt path) u) at run in
    let same : written st key val j ≡ new = cc in
    rw (← same) (written_again block st key val val' j w t room path)

-- Into a table with room for two more entries, a key is entered; a second `insert_st` of the key
-- then returns `INRES_EXISTS` if its value is another one, and aborts the process if its value is
-- the same.
pub insert_st_again :
    (block : ℕ) (st new : SymbolTable) (key : SymKey) (val val' : SymVal)
    → IsValid block st
    → (type_code key.type == 0) ≡ false
    → st.used + 1 < st.len
    → insert_st block st key val ≡ ok (inres_ok, new)
    → insert_st block new key val' ≡ repeated new (vals_are_eq val val')
insert_st_again block st new key val val' w t room run =
    from_End block st new key val val' (probe_both st key val (start_of st key)) w t room
      (sym (insert_st-room block st key val (omega arith)) ∙ run)
      (probe_both-End st key val (start_of st key) (unfold start_of in start-lt st key w))
