-- ===== src/Table/Map.antt =====
-- src/st.c: the symbol table is a map from keys to values.
use hvme.Prelude.{
  ℕ, ◌+◌, ◌<◌, ◌≡◌, ◌∙◌, sym, ap, inl, inr, true, false, none, some, ◌==◌, if◌then◌else◌,
  Bool-cases, arith, length, dec_lt, if-true, if-false,
}
use hvme.Table.{
  SymKey, SymVal, SymbolTable, type_code, keys_are_eq, is_unused, at, free_cell, entry, get_st,
}
use hvme.Table.Search.{IsValid, get_st_lem}
use hvme.Table.Cells.{keys_are_eq_refl, keys_are_eq-eq, at-beyond}
use hvme.Table.Insert.{moved, Entered}

-- A key of a function or a label.
abbrev pub IsNamed : SymKey → Type 0
IsNamed key = (type_code key.type == 0) ≡ false

-- No two cells that are taken have the same key.
abbrev pub IsUnique : SymbolTable → Type 0
IsUnique st =
    (i j : ℕ)
    → is_unused (at st.cell i) ≡ false
    → keys_are_eq (at st.cell j).key (at st.cell i).key ≡ true
    → j ≡ i

-- No cell has the key.
abbrev pub IsAbsent : SymbolTable → SymKey → Type 0
IsAbsent st key = (i : ℕ) → keys_are_eq (at st.cell i).key key ≡ false

pub free_cell-differs : (key : SymKey) → IsNamed key → keys_are_eq free_cell.key key ≡ false
free_cell-differs key named = elim (Bool-cases (keys_are_eq free_cell.key key)) [
  | inl e ↦
      let same = keys_are_eq-eq free_cell.key key e in
      let zero_code : (type_code key.type == 0) ≡ true =
        ap (λ k. type_code k.type == 0) (sym same) in
      cc
  | inr e ↦ e
]

-- A cell with the key of a function or a label is taken.
taken :
    (st : SymbolTable) (key : SymKey) (i : ℕ)
    → IsNamed key
    → keys_are_eq (at st.cell i).key key ≡ true
    → is_unused (at st.cell i) ≡ false
taken st key i named hit =
    ap (λ k. type_code k.type == 0) (keys_are_eq-eq (at st.cell i).key key hit) ∙ named

module _ (block : ℕ) (st : SymbolTable) (w : IsValid block st) (key : SymKey)
    (named : IsNamed key) where
  taken-lt : (i : ℕ) → keys_are_eq (at st.cell i).key key ≡ true → i < st.len
  taken-lt i hit = elim (dec_lt i (length st.cell)) [
    | yes h ↦ omega (arith, w.width)
    | no h ↦
        let e = at-beyond st.cell i (omega arith) in
        let miss : keys_are_eq (at st.cell i).key key ≡ false =
          ap (λ c. keys_are_eq c.key key) e ∙ free_cell-differs key named in
        cc
  ]

  -- `get_st` finds the one cell with the key.
  pub get_st-cell :
      (i : ℕ)
      → IsUnique st
      → keys_are_eq (at st.cell i).key key ≡ true
      → get_st st key ≡ some (entry st i)
  get_st-cell i unique hit = elim (get_st_lem block st key w) [
    | inl (v, run, f) ↦
        let same = keys_are_eq-eq (at st.cell i).key key hit in
        let there : keys_are_eq (at st.cell f.index).key (at st.cell i).key ≡ true =
          ap (keys_are_eq (at st.cell f.index).key) same ∙ f.fits in
        let e = unique i f.index (taken st key i named hit) there in
        run ∙ ap some (f.reads ∙ ap (entry st) e)
    | inr (run, miss) ↦ let missed = miss i (omega arith) (taken-lt i hit) in cc
  ]

  -- `get_st` finds nothing just if no cell has the key.
  pub get_st-absent : IsAbsent st key → get_st st key ≡ none
  get_st-absent absent = elim (get_st_lem block st key w) [
    | inl (v, run, f) ↦ let miss = absent f.index in let hit = f.fits in cc
    | inr (run, miss) ↦ run
  ]

  pub IsAbsent-get_st : get_st st key ≡ none → IsAbsent st key
  IsAbsent-get_st e i = elim (Bool-cases (keys_are_eq (at st.cell i).key key)) [
    | inl hit ↦ elim (get_st_lem block st key w) [
      | inl (v, run, f) ↦ cc
      | inr (run, miss) ↦ miss i (omega arith) (taken-lt i hit)
    ]
    | inr miss ↦ miss
  ]

-- `new` is `st` with one more entry, as a map from keys to values.
pub record Updated (block : ℕ) (st : SymbolTable) (key : SymKey) (val : SymVal) (new : SymbolTable)
    : Type 0 where
  pub valid : IsValid block new
  pub unique : IsUnique new
  pub offset : new.offset ≡ st.offset
  pub reads :
      (k : SymKey)
      → IsNamed k
      → get_st new k ≡ (if keys_are_eq key k then some (moved st val) else get_st st k)

module _ (block : ℕ) (st : SymbolTable) (key : SymKey) (val : SymVal) (new : SymbolTable)
    (unique : IsUnique st) (absent : IsAbsent st key) (a : Entered block st key val new) where
  added_cell : (i : ℕ) → (i == a.index) ≡ true → at new.cell i ≡ record { key = key; val = val }
  added_cell i e = a.cells i ∙ if-true _ _ e

  kept_cell : (i : ℕ) → (i == a.index) ≡ false → at new.cell i ≡ at st.cell i
  kept_cell i e = a.cells i ∙ if-false _ _ e

  Entered-IsUnique : IsUnique new
  Entered-IsUnique i j used hit = elim (Bool-cases (i == a.index)) [
    | inl ei ↦ elim (Bool-cases (j == a.index)) [
      | inl ej ↦ ground arith
      | inr ej ↦
          let hit' : keys_are_eq (at st.cell j).key key ≡ true =
            rw (added_cell i ei, kept_cell j ej) at hit in
          let miss = absent j in cc
    ]
    | inr ei ↦ elim (Bool-cases (j == a.index)) [
      | inl ej ↦
          let hit' : keys_are_eq key (at st.cell i).key ≡ true =
            rw (kept_cell i ei, added_cell j ej) at hit in
          let same = keys_are_eq-eq key (at st.cell i).key hit' in
          let back : keys_are_eq (at st.cell i).key key ≡ true =
            ap (λ k. keys_are_eq k key) (sym same) ∙ keys_are_eq_refl key in
          let miss = absent i in cc
      | inr ej ↦
          let used' : is_unused (at st.cell i) ≡ false = rw (kept_cell i ei) at used in
          let hit' : keys_are_eq (at st.cell j).key (at st.cell i).key ≡ true =
            rw (kept_cell i ei, kept_cell j ej) at hit in
          unique i j used' hit'
    ]
  ]

  -- The other keys.
  others :
      (k : SymKey)
      → IsValid block st
      → IsNamed k
      → keys_are_eq key k ≡ false
      → get_st new k ≡ get_st st k
  others k w named other = elim (get_st_lem block st k w) [
    | inl (v, run, f) ↦
        let stays = taken st k f.index named f.fits in
        let apart : (f.index == a.index) ≡ false = elim (Bool-cases (f.index == a.index)) [
          | inl e ↦
              let same : f.index ≡ a.index = ground arith in
              let gone : is_unused (at st.cell f.index) ≡ true = rw same a.free in cc
          | inr e ↦ e
        ] in
        let cell = kept_cell f.index apart in
        get_st-cell block new a.valid k named f.index Entered-IsUnique (rw cell f.fits)
        ∙ ap some (
            ap (λ c. record (c.val) { inst_addr = c.val.inst_addr + new.offset }) cell
            ∙ ap
                (λ n. record ((at st.cell f.index).val) {
                  inst_addr = (at st.cell f.index).val.inst_addr + n;
                })
                a.offset
            ∙ sym f.reads)
        ∙ sym run
    | inr (run, miss) ↦
        let none_before = IsAbsent-get_st block st w k named run in
        get_st-absent block new a.valid k named (λ i. elim (Bool-cases (i == a.index)) [
          | inl e ↦ rw (added_cell i e) other
          | inr e ↦ rw (kept_cell i e) (none_before i)
        ])
        ∙ sym run
  ]

  pub Entered-Updated : IsValid block st → Updated block st key val new
  Entered-Updated w = record {
    valid = a.valid;
    unique = Entered-IsUnique;
    offset = a.offset;
    reads = λ k named. elim (Bool-cases (keys_are_eq key k)) [
      | inl e ↦
          let same = keys_are_eq-eq key k e in
          ap (get_st new) (sym same) ∙ a.reads ∙ sym (if-true _ _ e)
      | inr e ↦ others k w named e ∙ sym (if-false _ _ e)
    ];
  }
