-- ===== src/Table/Lookup.antt =====
-- src/st.c: where `get_st` finds a key.
use hvme.Prelude.{
  ℕ, zero, suc, ◌+◌, ◌-◌, ◌≤◌, ◌<◌, ◌≡◌, true, false, some, List, ◌==◌, ◌∙◌, arith, dec_lt,
}
use hvme.Table.{
  SymKey, Symbol, SymbolTable, keys_are_eq, at, search_from, get_st, entry, delim_hash,
  djb2hash_key,
}
use hvme.Table.Search.{IsValid, Misses}
use hvme.Table.Probe.{OnPath, ahead, round}

-- A search whose range begins with cells that miss the key.
search_from-hit :
    (cells : List Symbol) (key : SymKey) (rounds lo j : ℕ)
    → lo ≤ j
    → j < lo + rounds
    → Misses cells key lo j
    → keys_are_eq (at cells j).key key ≡ true
    → search_from cells key rounds lo ≡ j
unfolding search_from
search_from-hit cells key zero lo j a b miss hit = absurd (omega arith)
search_from-hit cells key (suc rounds) lo j a b miss hit = elim (dec_lt lo j) [
  | yes h ↦ rw (miss lo (omega arith) h) (
      search_from-hit cells key rounds (suc lo) j h (omega arith) (λ k x y. miss k (omega arith) y)
        hit)
  | no h ↦ let e : j ≡ lo = omega arith in let hit' = rw e at hit in rw (hit', e)
]

search_from-miss :
    (cells : List Symbol) (key : SymKey) (rounds lo : ℕ)
    → Misses cells key lo (lo + rounds)
    → search_from cells key rounds lo ≡ lo + rounds
unfolding search_from
search_from-miss cells key zero lo miss = omega arith
search_from-miss cells key (suc rounds) lo miss = rw (miss lo (omega arith) (omega arith)) (
    search_from-miss cells key rounds (suc lo) (λ k x y. miss k (omega arith) (omega arith))
    ∙ omega arith)

-- `get_st` finds a key at the first cell on its path that has it.
pub get_st-OnPath :
    (block : ℕ) (st : SymbolTable) (key : SymKey) (j : ℕ)
    → IsValid block st
    → OnPath st.cell key (delim_hash (djb2hash_key key) (st.len - 1)) st.len j
    → keys_are_eq (at st.cell j).key key ≡ true
    → get_st st key ≡ some (entry st j)
unfolding get_st
get_st-OnPath block st key j w (ahead a b p) hit =
    let start = delim_hash (djb2hash_key key) (st.len - 1) in
    let other : (j == st.len) ≡ false = ground arith in
    rw (search_from-hit st.cell key (st.len - start) start j a (omega arith) p.miss hit, other)
get_st-OnPath block st key j w (round a b p q) hit =
    let start = delim_hash (djb2hash_key key) (st.len - 1) in
    let e : start + (st.len - start) ≡ st.len = omega arith in
    let end : (st.len == st.len) ≡ true = ground arith in
    let other : (j == start) ≡ false = ground arith in
    rw (
      search_from-miss st.cell key (st.len - start) start (rw e p.miss),
      e,
      search_from-hit st.cell key start 0 j (omega arith) (omega arith) q.miss hit,
      end,
      other,
    )
