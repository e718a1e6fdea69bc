-- ===== src/Table/Insert.antt =====
-- src/st.c: `insert_st`, on every branch, and `get_st` after it.
use hvme.Prelude.{
  ℕ, ◌+◌, ◌-◌, ◌≤◌, ◌<◌, ◌≡◌, inl, inr, refl, Bool, true, false, Option, some, ◌==◌, ◌∙◌, leb,
  if◌then◌else◌, Bool-cases, arith, length, set, length-set, ==_iff,
}
use hvme.Exec.{Run, ok, fault, assertion}
use hvme.Table.{
  SymKey, SymVal, SymbolTable, type_code, is_unused, at, get_st, place, delim_hash, djb2hash_key,
  grow_st, enter, insert_st, InsertResult, inres_ok, inres_exists,
}
use hvme.Table.Search.{IsValid, start-lt}
use hvme.Table.Cells.{at-set, count_used-set, count_used-full, keys_are_eq_refl, grow_st-IsValid}
use hvme.Table.Lookup.{get_st-OnPath}
use hvme.Table.Probe.{
  Passed, Same, OnPath, ahead, round, OnPath-lt, End, clash, full, vacant, present, probe_both-End,
}

-- The table after the two `memcpy`.
unfoldable pub written : SymbolTable → SymKey → SymVal → ℕ → SymbolTable
written st key val j = record st {
  cell = set st.cell j (record { key = key; val = val });
  used = st.used + 1;
}

-- An address as `get_st` returns it.
abbrev pub moved : SymbolTable → SymVal → SymVal
moved st v = record v { inst_addr = v.inst_addr + st.offset }

-- What a call of `insert_st` that returned `INRES_OK` has done to `st`, which became `new`.
pub record Entered (block : ℕ) (st : SymbolTable) (key : SymKey) (val : SymVal) (new : SymbolTable)
    : Type 0 where
  pub valid : IsValid block new
  pub used : new.used ≡ st.used + 1
  pub reads : get_st new key ≡ some (moved st val)
  pub keeps : (i : ℕ) → i < st.len → is_unused (at st.cell i) ≡ false → at new.cell i ≡ at st.cell i
  pub index : ℕ
  pub free : is_unused (at st.cell index) ≡ true
  pub cells :
      (i : ℕ)
      → at new.cell i ≡ (if i == index then record { key = key; val = val } else at st.cell i)
  pub len : new.len ≡ st.len
  pub offset : new.offset ≡ st.offset

module _ (block : ℕ) (st : SymbolTable) (key : SymKey) (val : SymVal) (j : ℕ) where
  written-IsValid :
      IsValid block st
      → (type_code key.type == 0) ≡ false
      → j < st.len
      → is_unused (at st.cell j) ≡ true
      → st.used < st.len
      → IsValid block (written st key val j)
  unfolding written
  written-IsValid w t h u room = record {
    width = length-set st.cell j _ ∙ w.width;
    wide = w.wide;
    chunk = w.chunk;
    counted = count_used-set st.cell j _ (omega (arith, w.width)) u t ∙ omega (arith, w.counted);
    fits = omega arith;
  }

  pub Passed-written :
      (lo hi : ℕ)
      → j < length st.cell
      → ((k : ℕ) → lo ≤ k → k < hi → (k == j) ≡ false)
      → Passed st.cell key lo hi
      → Passed (written st key val j).cell key lo hi
  unfolding written
  Passed-written lo hi h ne p = record {
    taken = λ k a b. rw (at-set st.cell j k _ h, ne k a b) (p.taken k a b);
    miss = λ k a b. rw (at-set st.cell j k _ h, ne k a b) (p.miss k a b);
  }

  pub OnPath-written :
      (start : ℕ)
      → j < length st.cell
      → OnPath st.cell key start st.len j
      → OnPath (written st key val j).cell key start st.len j
  OnPath-written start h (ahead a b p) =
      ahead a b (Passed-written start j h (λ k x y. ground arith) p)
  OnPath-written start h (round a b p q) =
      round a b (Passed-written start st.len h (λ k x y. ground arith) p)
        (Passed-written 0 j h (λ k x y. ground arith) q)

  pub at-written :
      j < length st.cell → at (written st key val j).cell j ≡ record { key = key; val = val }
  unfolding written
  at-written h = let e : (j == j) ≡ true = ground arith in rw (at-set st.cell j j _ h, e)

  written-keeps :
      (i : ℕ)
      → j < length st.cell
      → is_unused (at st.cell j) ≡ true
      → is_unused (at st.cell i) ≡ false
      → at (written st key val j).cell i ≡ at st.cell i
  unfolding written
  written-keeps i h u taken = elim (Bool-cases (i == j)) [
    | inl e ↦
        let same : i ≡ j = (==_iff i j).0 e in
        let taken' : is_unused (at st.cell j) ≡ false = rw same at taken in cc
    | inr e ↦ rw (at-set st.cell j i _ h, e)
  ]

  pub written-Entered :
      IsValid block st
      → (type_code key.type == 0) ≡ false
      → OnPath st.cell key (delim_hash (djb2hash_key key) (st.len - 1)) st.len j
      → is_unused (at st.cell j) ≡ true
      → st.used < st.len
      → Entered block st key val (written st key val j)
  unfolding written
  written-Entered w t path u room =
      let h : j < length st.cell = omega (arith, w.width, OnPath-lt path) in
      let valid = written-IsValid w t (OnPath-lt path) u room in
      let cell = at-written h in
      record {
        valid = valid;
        used = refl;
        reads =
            get_st-OnPath block (written st key val j) key j valid
              (OnPath-written (delim_hash (djb2hash_key key) (st.len - 1)) h path)
              (rw cell (keys_are_eq_refl key))
            ∙ rw cell;
        keeps = λ i a taken. written-keeps i h u taken;
        index = j;
        free = u;
        cells = λ i. at-set st.cell j i _ h;
        len = refl;
        offset = refl;
      }

-- The entry that stands in the way: one with the key, and the same value or another.
abbrev pub Holds : SymbolTable → SymKey → SymVal → Bool → Type 0
Holds st key val b = (i : ℕ) × (i < st.len) × Same st.cell key val b i

-- How `insert_st` ends.
pub data Outcome (block : ℕ) (st : SymbolTable) (key : SymKey) (val : SymVal)
    (r : Run SymbolTable (InsertResult × SymbolTable)) : Type 0 where
  added :
      (new : SymbolTable)
      → r ≡ ok (inres_ok, new)
      → Entered block st key val new
      → Outcome block st key val r
  refused : r ≡ ok (inres_exists, st) → Holds st key val false → Outcome block st key val r
  aborted : r ≡ fault assertion → Holds st key val true → Outcome block st key val r

pub enter-added :
    (st : SymbolTable) (key : SymKey) (val : SymVal) (j : ℕ)
    → j < st.len
    → is_unused (at st.cell j) ≡ true
    → enter st key val j ≡ ok (inres_ok, written st key val j)
unfolding enter written
enter-added st key val j h u = let e : leb st.len j ≡ false = ground arith in rw (e, u)

pub enter-aborted :
    (st : SymbolTable) (key : SymKey) (val : SymVal) (j : ℕ)
    → j < st.len
    → is_unused (at st.cell j) ≡ false
    → enter st key val j ≡ fault assertion
unfolding enter
enter-aborted st key val j h u = let e : leb st.len j ≡ false = ground arith in rw (e, u)

pub not_full :
    (block : ℕ) (st : SymbolTable) (key : SymKey)
    → IsValid block st
    → st.used < st.len
    → ¬ Passed st.cell key 0 st.len
not_full block st key w room p = omega (
  arith,
  w.width,
  w.counted,
  count_used-full st.cell (λ j h. p.taken j (omega arith) (omega (arith, w.width))),
)

place-Outcome :
    (block : ℕ) (st : SymbolTable) (key : SymKey) (val : SymVal) (r : Option ℕ)
    → IsValid block st
    → (type_code key.type == 0) ≡ false
    → st.used < st.len
    → End st.cell key val st.len (delim_hash (djb2hash_key key) (st.len - 1)) r
    → Outcome block st key val (place st key val r)
unfolding place
place-Outcome block st key val r w t room (clash i h s e) = rw e (refused refl (i, h, s))
place-Outcome block st key val r w t room (full p e) = absurd (not_full block st key w room p)
place-Outcome block st key val r w t room (vacant j path u e) = rw e (
    added (written st key val j) (enter-added st key val j (OnPath-lt path) u)
      (written-Entered block st key val j w t path u room))
place-Outcome block st key val r w t room (present j path u s e) =
    rw e (aborted (enter-aborted st key val j (OnPath-lt path) u) (j, OnPath-lt path, s))

-- `insert_st` on a valid table, with a function's or a label's key, ends in one of three ways,
-- after it has made room if the table was full. It enters the key: the table stays valid, one more
-- entry is counted, `get_st` returns the value for the key, and the other entries stay. Or it
-- returns `INRES_EXISTS` and changes nothing, and there is an entry with the key and another
-- value. Or its `assert` fails, and there is an entry with the same key and the same value; it
-- never fails for want of a free cell.
pub insert_st_lem :
    (block : ℕ) (st : SymbolTable) (key : SymKey) (val : SymVal)
    → IsValid block st
    → (type_code key.type == 0) ≡ false
    → Outcome block (grow_st block st) key val (insert_st block st key val)
unfolding insert_st
insert_st_lem block st key val w t =
    let (w', room) = grow_st-IsValid block st w in
    let st' = grow_st block st in
    place-Outcome block st' key val _ w' t room (
      probe_both-End st' key val (delim_hash (djb2hash_key key) (st'.len - 1))
        (start-lt st' key w'))
