-- ===== src/Table/Search.antt =====
-- src/st.c: what the loops of `get_st` and `insert_st` find.
use hvme.Prelude.{
  ℕ, zero, suc, ◌+◌, ◌-◌, ◌≤◌, ◌<◌, ◌≡◌, ◌⊎◌, inl, inr, refl, true, false, none, some, List, [],
  ◌∷◌, ◌==◌, if◌then◌else◌, Bool-cases, arith, length, dec_lt,
}
use hvme.Table.{
  SymKey, SymVal, Symbol, SymbolTable, keys_are_eq, is_unused, at, search_from, get_st, entry,
  delim_hash, djb2hash_key, picked,
}
use hvme.Table.Hash.{delim_hash-lt}

-- The number of cells that are taken.
unfoldable pub count_used : List Symbol → ℕ
count_used [] = 0
count_used (c ∷ cs) = if is_unused c then count_used cs else suc (count_used cs)

-- The invariant of a table.
pub record IsValid (block : ℕ) (st : SymbolTable) : Type 0 where
  pub width : length st.cell ≡ st.len
  pub wide : 5 ≤ st.len
  pub chunk : 4 ≤ block
  pub counted : count_used st.cell ≡ st.used
  pub fits : st.used ≤ st.len

-- No cell in a range has the key.
abbrev pub Misses : List Symbol → SymKey → ℕ → ℕ → Type 0
Misses cells key lo hi = (j : ℕ) → lo ≤ j → j < hi → keys_are_eq (at cells j).key key ≡ false

-- `search_from` stops at the first cell with the key, or behind the range.
pub search_from_lem :
    (cells : List Symbol) (key : SymKey) (rounds idx : ℕ)
    → (i : ℕ) × (search_from cells key rounds idx ≡ i)
      × (idx ≤ i)
      × Misses cells key idx i
      × ((i ≡ idx + rounds) ⊎ ((i < idx + rounds) × (keys_are_eq (at cells i).key key ≡ true)))
unfolding search_from
search_from_lem cells key zero idx =
    (idx, refl, omega arith, (λ j a b. absurd (omega arith)), inl (omega arith))
search_from_lem cells key (suc rounds) idx =
    let (i, run, above, miss, stop) = search_from_lem cells key rounds (suc idx) in
    elim (Bool-cases (keys_are_eq (at cells idx).key key)) [
      | inl hit ↦
          (idx, rw hit, omega arith, (λ j a b. absurd (omega arith)), inr (omega arith, hit))
      | inr miss_here ↦ (
        i,
        rw miss_here run,
        omega arith,
        (λ j a b. elim (dec_lt idx j) [
          | yes h ↦ miss j h b
          | no h ↦ let e : j ≡ idx = omega arith in rw e miss_here
        ]),
        elim stop [ inl e ↦ inl (omega arith) | inr (h, hit) ↦ inr (omega arith, hit) ],
      )
    ]

-- What `get_st` returns for an entry of the table.
pub record Found (st : SymbolTable) (key : SymKey) (v : SymVal) : Type 0 where
  pub index : ℕ
  pub inside : index < st.len
  pub fits : keys_are_eq (at st.cell index).key key ≡ true
  pub reads : v ≡ entry st index

pub start-lt :
    {block : ℕ} (st : SymbolTable) (key : SymKey)
    → IsValid block st
    → delim_hash (djb2hash_key key) (st.len - 1) < st.len
start-lt st key w =
    omega (arith, w.wide, delim_hash-lt (djb2hash_key key) (st.len - 1) (omega (arith, w.wide)))

-- The end of `get_st` at indices that the loops can stop at.
picked_lem :
    (st : SymbolTable) (key : SymKey) (start i j : ℕ)
    → start < st.len
    → start ≤ i
    → Misses st.cell key start i
    → (i ≡ start + (st.len - start))
      ⊎ ((i < start + (st.len - start)) × (keys_are_eq (at st.cell i).key key ≡ true))
    → Misses st.cell key 0 j
    → (j ≡ 0 + start) ⊎ ((j < 0 + start) × (keys_are_eq (at st.cell j).key key ≡ true))
    → ((v : SymVal) × (picked st start i j ≡ some v) × Found st key v)
      ⊎ ((picked st start i j ≡ none) × Misses st.cell key 0 st.len)
unfolding picked
picked_lem st key start i j h above miss (inr (inside, hit)) miss' stop' =
    let other : (i == st.len) ≡ false = ground arith in
    inl (entry st i, rw other, record { index = i; inside = omega arith; fits = hit; reads = refl })
picked_lem st key start i j h above miss (inl e) miss' (inr (inside, hit)) =
    let end : (i == st.len) ≡ true = ground arith in
    let other : (j == start) ≡ false = ground arith in
    inl (
      entry st j,
      rw (end, other),
      record { index = j; inside = omega arith; fits = hit; reads = refl },
    )
picked_lem st key start i j h above miss (inl e) miss' (inl e') =
    let end : (i == st.len) ≡ true = ground arith in
    let end' : (j == start) ≡ true = ground arith in
    inr (
      rw (end, end'),
      λ k a b. elim (dec_lt k start) [
        | yes p ↦ miss' k a (omega arith)
        | no p ↦ miss k (omega arith) (omega arith)
      ],
    )

-- `get_st` on a valid table returns the value of an entry with the key, its address moved by the
-- table's offset, or there is no entry with the key and it returns `GTRES_ERR`.
pub get_st_lem :
    (block : ℕ) (st : SymbolTable) (key : SymKey)
    → IsValid block st
    → ((v : SymVal) × (get_st st key ≡ some v) × Found st key v)
      ⊎ ((get_st st key ≡ none) × Misses st.cell key 0 st.len)
unfolding get_st
get_st_lem block st key w =
    let start = delim_hash (djb2hash_key key) (st.len - 1) in
    let (i, run, above, miss, stop) = search_from_lem st.cell key (st.len - start) start in
    let (j, run', above', miss', stop') = search_from_lem st.cell key start 0 in
    rw (run, run') (picked_lem st key start i j (start-lt st key w) above miss stop miss' stop')
