-- ===== src/Table/Probe.antt =====
-- src/st.c: where the loops of `insert_st` stop.
use hvme.Prelude.{
  ℕ, zero, suc, ◌+◌, ◌-◌, ◌≤◌, ◌<◌, ◌≡◌, inl, inr, refl, Bool, true, false, Option, none, some,
  List, leb, if◌then◌else◌, Bool-cases, arith, dec_lt,
}
use hvme.Table.{
  SymKey, SymVal, Symbol, SymbolTable, keys_are_eq, vals_are_eq, is_unused, at, probe, probe_both,
}
use hvme.Table.Search.{Misses}

-- The cells of a range are taken, by other keys.
pub record Passed (cells : List Symbol) (key : SymKey) (lo hi : ℕ) : Type 0 where
  pub taken : (j : ℕ) → lo ≤ j → j < hi → is_unused (at cells j) ≡ false
  pub miss : Misses cells key lo hi

-- The cell has the key, with the value or with another one.
abbrev pub Same : List Symbol → SymKey → SymVal → Bool → ℕ → Type 0
Same cells key val b i =
    (keys_are_eq (at cells i).key key ≡ true) × (vals_are_eq (at cells i).val val ≡ b)

-- How `probe` ends.
data Stop (cells : List Symbol) (key : SymKey) (val : SymVal) (lo hi : ℕ) (r : Option ℕ)
    : Type 0 where
  other :
      (i : ℕ) → lo ≤ i → i < hi → Same cells key val false i → r ≡ none → Stop cells key val lo hi r
  behind : Passed cells key lo hi → r ≡ some hi → Stop cells key val lo hi r
  free :
      (i : ℕ)
      → lo ≤ i
      → i < hi
      → Passed cells key lo i
      → is_unused (at cells i) ≡ true
      → r ≡ some i
      → Stop cells key val lo hi r
  same :
      (i : ℕ)
      → lo ≤ i
      → i < hi
      → Passed cells key lo i
      → is_unused (at cells i) ≡ false
      → Same cells key val true i
      → r ≡ some i
      → Stop cells key val lo hi r

Passed-none : {cells : List Symbol} {key : SymKey} (lo : ℕ) → Passed cells key lo lo
Passed-none lo = record {
  taken = λ j a b. absurd (omega arith);
  miss = λ j a b. absurd (omega arith);
}

Passed-cons :
    {cells : List Symbol} {key : SymKey} (lo hi : ℕ)
    → is_unused (at cells lo) ≡ false
    → keys_are_eq (at cells lo).key key ≡ false
    → Passed cells key (suc lo) hi
    → Passed cells key lo hi
Passed-cons lo hi u m p = record {
  taken = λ j a b. elim (dec_lt lo j) [
    | yes h ↦ p.taken j h b
    | no h ↦ let e : j ≡ lo = omega arith in rw e u
  ];
  miss = λ j a b. elim (dec_lt lo j) [
    | yes h ↦ p.miss j h b
    | no h ↦ let e : j ≡ lo = omega arith in rw e m
  ];
}

Stop-suc :
    {cells : List Symbol} {key : SymKey} {val : SymVal} {r : Option ℕ} (lo hi : ℕ)
    → is_unused (at cells lo) ≡ false
    → keys_are_eq (at cells lo).key key ≡ false
    → Stop cells key val (suc lo) hi r
    → Stop cells key val lo hi r
Stop-suc lo hi u m (other i a b s e) = other i (omega arith) b s e
Stop-suc lo hi u m (behind p e) = behind (Passed-cons lo hi u m p) e
Stop-suc lo hi u m (free i a b p f e) = free i (omega arith) b (Passed-cons lo i u m p) f e
Stop-suc lo hi u m (same i a b p f s e) = same i (omega arith) b (Passed-cons lo i u m p) f s e

probe_lem :
    (cells : List Symbol) (key : SymKey) (val : SymVal) (rounds lo hi : ℕ)
    → hi ≡ lo + rounds
    → Stop cells key val lo hi (probe cells key val rounds lo)
unfolding probe
probe_lem cells key val zero lo hi e =
    let e' : hi ≡ lo = omega arith in rw e' (behind (Passed-none lo) refl)
probe_lem cells key val (suc rounds) lo hi e =
    let rest = probe_lem cells key val rounds (suc lo) hi (omega arith) in
    let c = at cells lo in
    elim (Bool-cases (is_unused c)) [
      | inl u ↦ rw u (free lo (omega arith) (omega arith) (Passed-none lo) u refl)
      | inr u ↦ elim (Bool-cases (keys_are_eq c.key key)) [
        | inr m ↦ rw (u, m) (Stop-suc lo hi u m rest)
        | inl k ↦ elim (Bool-cases (vals_are_eq c.val val)) [
          | inl v ↦
              rw (u, k, v) (same lo (omega arith) (omega arith) (Passed-none lo) u (k, v) refl)
          | inr v ↦ rw (u, k, v) (other lo (omega arith) (omega arith) (k, v) refl)
        ]
      ]
    ]

-- The cells that are probed before `j`, from `start` on and round the end of the table.
pub data OnPath (cells : List Symbol) (key : SymKey) (start len j : ℕ) : Type 0 where
  ahead : start ≤ j → j < len → Passed cells key start j → OnPath cells key start len j
  round :
      j < start
      → start < len
      → Passed cells key start len
      → Passed cells key 0 j
      → OnPath cells key start len j

-- How both loops end.
pub data End (cells : List Symbol) (key : SymKey) (val : SymVal) (len start : ℕ) (r : Option ℕ)
    : Type 0 where
  clash : (i : ℕ) → i < len → Same cells key val false i → r ≡ none → End cells key val len start r
  full : Passed cells key 0 len → r ≡ some start → End cells key val len start r
  vacant :
      (j : ℕ)
      → OnPath cells key start len j
      → is_unused (at cells j) ≡ true
      → r ≡ some j
      → End cells key val len start r
  present :
      (j : ℕ)
      → OnPath cells key start len j
      → is_unused (at cells j) ≡ false
      → Same cells key val true j
      → r ≡ some j
      → End cells key val len start r

pub OnPath-lt :
    {cells : List Symbol} {key : SymKey} {start len j : ℕ} → OnPath cells key start len j → j < len
OnPath-lt (ahead a b p) = b
OnPath-lt (round a b p q) = omega arith

Passed-join :
    {cells : List Symbol} {key : SymKey} (mid hi : ℕ)
    → Passed cells key 0 mid
    → Passed cells key mid hi
    → Passed cells key 0 hi
Passed-join mid hi p q = record {
  taken = λ j a b. elim (dec_lt j mid) [ yes h ↦ p.taken j a h | no h ↦ q.taken j (omega arith) b ];
  miss = λ j a b. elim (dec_lt j mid) [ yes h ↦ p.miss j a h | no h ↦ q.miss j (omega arith) b ];
}

-- The part of `probe_both` behind its first loop.
second_loop : SymbolTable → SymKey → SymVal → ℕ → Option ℕ → Option ℕ
second_loop st key val start none = none
second_loop st key val start (some idx) =
    if leb st.len idx then probe st.cell key val start 0 else some idx

End-round :
    (st : SymbolTable) (key : SymKey) (val : SymVal) (start : ℕ) {r : Option ℕ}
    → start < st.len
    → Passed st.cell key start st.len
    → Stop st.cell key val 0 start r
    → End st.cell key val st.len start r
End-round st key val start h p (other i a b s e) = clash i (omega arith) s e
End-round st key val start h p (behind q e) = full (Passed-join start st.len q p) e
End-round st key val start h p (free i a b q u e) = vacant i (round b h p q) u e
End-round st key val start h p (same i a b q u s e) = present i (round b h p q) u s e

End-loops :
    (st : SymbolTable) (key : SymKey) (val : SymVal) (start : ℕ) (r : Option ℕ)
    → start < st.len
    → Stop st.cell key val start st.len r
    → End st.cell key val st.len start (second_loop st key val start r)
unfolding second_loop
End-loops st key val start r h (other i a b s e) = rw e (clash i b s refl)
End-loops st key val start r h (behind p e) =
    let end : leb st.len st.len ≡ true = ground arith in
    rw (e, end)
      (End-round st key val start h p (probe_lem st.cell key val start 0 start (omega arith)))
End-loops st key val start r h (free i a b p u e) =
    let inside : leb st.len i ≡ false = ground arith in
    rw (e, inside) (vacant i (ahead a b p) u refl)
End-loops st key val start r h (same i a b p u s e) =
    let inside : leb st.len i ≡ false = ground arith in
    rw (e, inside) (present i (ahead a b p) u s refl)

pub probe_both-End :
    (st : SymbolTable) (key : SymKey) (val : SymVal) (start : ℕ)
    → start < st.len
    → End st.cell key val st.len start (probe_both st key val start)
unfolding probe_both second_loop
probe_both-End st key val start h = go (probe st.cell key val (st.len - start) start) (
    End-loops st key val start (probe st.cell key val (st.len - start) start) h
      (probe_lem st.cell key val (st.len - start) start st.len (omega arith)))
  where
    go :
        (r : Option ℕ)
        → End st.cell key val st.len start (second_loop st key val start r)
        → End st.cell key val st.len start (elim r [
          | none ↦ none
          | some idx ↦ if leb st.len idx then probe st.cell key val start 0 else some idx
        ])
    go none x = x
    go (some i) x = x
