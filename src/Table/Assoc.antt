-- ===== src/Table/Assoc.antt =====
-- src/st.c: a table that is filled with entries, next to a list of these entries.
use hvme.Prelude.{
  ℕ, ◌+◌, ◌≤◌, ◌≡◌, ◌∙◌, refl, sym, ap, true, false, Option, none, some, List, [], ◌∷◌, inl, inr,
  if◌then◌else◌, Bool-cases, arith, if-false,
}
use hvme.Exec.{Run, ok, ◌>>=◌}
use hvme.Table.{SymKey, SymVal, Symbol, SymbolTable, keys_are_eq, new_st, get_st, insert_st}
use hvme.Table.Search.{IsValid}
use hvme.Table.Cells.{keys_are_eq_refl, keys_are_eq-eq, new_st-IsValid}
use hvme.Table.Insert.{moved}
use hvme.Table.Map.{IsNamed, IsUnique, Updated}
use hvme.Table.Refines.{insert_st-Updated, new_st-IsUnique, new_st-get_st}

-- A row of calls of `insert_st`.
unfoldable pub insert_all : ℕ → List Symbol → SymbolTable → Run SymbolTable SymbolTable
insert_all block [] st = ok st
insert_all block (e ∷ es) st = insert_st block st e.key e.val >>= λ r. insert_all block es r.1

-- The value in a list of entries.
abbrev pub lookup : List Symbol → SymKey → Option SymVal
lookup [] key = none
lookup (e ∷ es) key = if keys_are_eq e.key key then some e.val else lookup es key

abbrev pub Differs : SymKey → List Symbol → Type 0
Differs key [] = Unit
Differs key (e ∷ es) = (keys_are_eq key e.key ≡ false) × Differs key es

-- Keys of functions and labels, no two of them equal.
abbrev pub AreDistinct : List Symbol → Type 0
AreDistinct [] = Unit
AreDistinct (e ∷ es) = IsNamed e.key × Differs e.key es × AreDistinct es

AreMissing : SymbolTable → List Symbol → Type 0
AreMissing st [] = Unit
AreMissing st (e ∷ es) = (get_st st e.key ≡ none) × AreMissing st es

AreMissing-Updated :
    (block : ℕ) (st new : SymbolTable) (key : SymKey) (val : SymVal) (es : List Symbol)
    → Updated block st key val new
    → Differs key es
    → AreDistinct es
    → AreMissing st es
    → AreMissing new es
unfolding AreMissing
AreMissing-Updated block st new key val [] u d n m = tt
AreMissing-Updated block st new key val (e ∷ es) u (other, d) (named, d', n) (missing, m) = (
  u.reads e.key named ∙ if-false _ _ other ∙ missing,
  AreMissing-Updated block st new key val es u d n m,
)

-- What the lookup in the list and the table before it give.
abbrev over : ℕ → Option SymVal → Option SymVal → Option SymVal
over offset none before = before
over offset (some v) before = some (record v { inst_addr = v.inst_addr + offset })

record Filled (block : ℕ) (es : List Symbol) (st new : SymbolTable) : Type 0 where
  pub valid : IsValid block new
  pub reads : (k : SymKey) → IsNamed k → get_st new k ≡ over st.offset (lookup es k) (get_st st k)

Differs-lookup : (key : SymKey) (es : List Symbol) → Differs key es → lookup es key ≡ none
Differs-lookup key [] d = refl
Differs-lookup key (e ∷ es) (other, d) = elim (Bool-cases (keys_are_eq e.key key)) [
  | inl same ↦
      let equal = keys_are_eq-eq e.key key same in
      let back : keys_are_eq key e.key ≡ true = ap (keys_are_eq key) equal ∙ keys_are_eq_refl key in
      cc
  | inr ne ↦ if-false _ _ ne ∙ Differs-lookup key es d
]

-- The first entry, and then the others.
Filled-cons :
    (block : ℕ) (e : Symbol) (es : List Symbol) (st mid new : SymbolTable)
    → Differs e.key es
    → Updated block st e.key e.val mid
    → Filled block es mid new
    → Filled block (e ∷ es) st new
Filled-cons block e es st mid new d u f = record {
  valid = f.valid;
  reads = λ k named.
      f.reads k named
      ∙ ap (λ o. over o (lookup es k) (get_st mid k)) u.offset
      ∙ ap (over st.offset (lookup es k)) (u.reads k named)
      ∙ joined k;
}
  where
    joined :
        (k : SymKey)
        → over st.offset
            (lookup es k)
            (if keys_are_eq e.key k then some (moved st e.val) else get_st st k)
          ≡ over st.offset (if keys_are_eq e.key k then some e.val else lookup es k) (get_st st k)
    joined k = elim (Bool-cases (keys_are_eq e.key k)) [
      | inl hit ↦
          let gone : lookup es k ≡ none =
            ap (lookup es) (sym (keys_are_eq-eq e.key k hit)) ∙ Differs-lookup e.key es d in
          rw (hit, gone) refl
      | inr miss ↦ rw miss refl
    ]

insert_all-Filled :
    (block : ℕ) (es : List Symbol) (st : SymbolTable)
    → IsValid block st
    → IsUnique st
    → AreDistinct es
    → AreMissing st es
    → (new : SymbolTable) × (insert_all block es st ≡ ok new) × Filled block es st new
unfolding insert_all AreMissing
insert_all-Filled block [] st w u d m = (st, refl, record { valid = w; reads = λ k named. refl })
insert_all-Filled block (e ∷ es) st w u (named, differs, d) (missing, m) =
    let (mid, run, up) = insert_st-Updated block st w u e.key e.val named missing in
    let (new, runs, f) =
      insert_all-Filled block es mid up.valid up.unique d
        (AreMissing-Updated block st mid e.key e.val es up differs d m) in
    (new, rw run runs, Filled-cons block e es st mid new differs up f)

-- An empty table that is filled, one by one, with entries of functions and labels under different
-- keys takes them all, however many they are; then `get_st` gives for each such key what a search
-- in the list of entries gives. Blocks have at least four cells.
pub insert_all-lookup :
    (block : ℕ) (es : List Symbol)
    → 4 ≤ block
    → AreDistinct es
    → (st : SymbolTable) × (insert_all block es (new_st block) ≡ ok st)
      × ((k : SymKey) → IsNamed k → get_st st k ≡ lookup es k)
unfolding AreMissing new_st
insert_all-lookup block es h d =
    let (st, run, f) =
      insert_all-Filled block es (new_st block) (new_st-IsValid block h) (new_st-IsUnique block) d
        (new_st-AreMissing es d) in
    (
      st,
      run,
      λ k named.
          f.reads k named
          ∙ ap (over (new_st block).offset (lookup es k)) (new_st-get_st block k h named)
          ∙ plain (lookup es k),
    )
  where
    new_st-AreMissing : (es : List Symbol) → AreDistinct es → AreMissing (new_st block) es
    new_st-AreMissing [] d = tt
    new_st-AreMissing (e ∷ es) (named, differs, d) =
        (new_st-get_st block e.key h named, new_st-AreMissing es d)

    plain : (o : Option SymVal) → over (new_st block).offset o none ≡ o
    plain none = refl
    plain (some v) =
        let same : v.inst_addr + 0 ≡ v.inst_addr = omega arith in
        ap (λ n. some (record v { inst_addr = n })) same
