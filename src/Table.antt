-- ===== src/Table.antt =====
-- src/st.c, src/st.h: the open-addressed symbol table. `cell` is the list of entries that are
-- allocated; every function that allocates takes `ST_BLOCK_SIZE`.
pub mod Hash
pub mod Search
pub mod Cells
pub mod Probe
pub mod Lookup
pub mod Insert
pub mod Again
pub mod Map
pub mod Refines
pub mod Assoc
use hvme.Prelude.{
  ℕ, zero, suc, ◌+◌, ◌-◌, ◌*◌, ◌/◌, ◌%◌, ◌^◌, Bool, true, false, ◌&&◌, Option, none, some, List, [],
  ◌∷◌, ◌++◌, leb, ltb, ◌==◌, if◌then◌else◌, get_or, set, replicate,
}
use hvme.Exec.{Run, ok, fault, out_of_bounds, assertion}
use hvme.Inst.{Ident}

-- `SymKeyType`
pub data SymKeyType : Type 0 where
  unused func label : SymKeyType

-- The value of the enumeration.
abbrev pub type_code : SymKeyType → ℕ
type_code unused = 0
type_code func = 1
type_code label = 2

pub record SymKey : Type 0 where
  pub type : SymKeyType
  pub ident : Ident

pub record SymVal : Type 0 where
  pub inst_addr : ℕ
  pub nlocals : ℕ

pub record Symbol : Type 0 where
  pub key : SymKey
  pub val : SymVal

pub record SymbolTable : Type 0 where
  pub cell : List Symbol
  pub len : ℕ
  pub used : ℕ
  pub num_inst : ℕ
  pub offset : ℕ

-- A cell that `calloc` or `memset` has cleared.
abbrev pub free_cell : Symbol
free_cell = record {
  key = record { type = unused; ident = [] };
  val = record { inst_addr = 0; nlocals = 0 };
}

unfoldable pub new_st : ℕ → SymbolTable
new_st block = record {
  cell = replicate (block + 1) free_cell;
  len = block + 1;
  used = 0;
  num_inst = 0;
  offset = 0;
}

abbrev pub mk_key : Ident → SymKeyType → SymKey
mk_key ident type = record { type = type; ident = ident }

abbrev pub mk_lbval : ℕ → SymVal
mk_lbval inst_addr = record { inst_addr = inst_addr; nlocals = 0 }

abbrev pub mk_fnval : ℕ → ℕ → SymVal
mk_fnval inst_addr nlocals = record { inst_addr = inst_addr; nlocals = nlocals }

-- `strcmp(a, b) == 0`
unfoldable pub str_eq : Ident → Ident → Bool
str_eq [] [] = true
str_eq [] (b ∷ bs) = false
str_eq (a ∷ as') [] = false
str_eq (a ∷ as') (b ∷ bs) = a == b && str_eq as' bs

unfoldable pub keys_are_eq : SymKey → SymKey → Bool
unfolding str_eq
keys_are_eq a b = str_eq a.ident b.ident && type_code a.type == type_code b.type

unfoldable pub vals_are_eq : SymVal → SymVal → Bool
vals_are_eq a b = a.inst_addr == b.inst_addr && a.nlocals == b.nlocals

-- `unsigned long`
djb2_step : ℕ → ℕ → ℕ
djb2_step hash c = (hash * 33 + c) % 2 ^ 64

djb2_ident : ℕ → Ident → ℕ
unfolding djb2_step
djb2_ident hash [] = hash
djb2_ident hash (c ∷ cs) = djb2_ident (djb2_step hash c) cs

unfoldable pub djb2hash_key : SymKey → ℕ
unfolding djb2_ident
djb2hash_key key = djb2_step (djb2_ident 5381 key.ident) (type_code key.type)

-- `(int) log2(n)`: the number of halvings down to 1, at most 64 for a `size_t`.
unfoldable pub log2_fuel : ℕ → ℕ → ℕ
log2_fuel zero n = 0
log2_fuel (suc f) n = let rest = log2_fuel f (n / 2) in if ltb n 2 then 0 else suc rest

unfoldable pub log2 : ℕ → ℕ
log2 n = log2_fuel 64 n

-- The product is taken modulo 2^64, and the shift is by `64 - (log2(len) - 1)`.
unfoldable pub delim_hash : ℕ → ℕ → ℕ
delim_hash hash len = hash * 11400714819323198485 % 2 ^ 64 / 2 ^ (64 - (log2 len - 1))

abbrev pub is_unused : Symbol → Bool
is_unused c = type_code c.key.type == 0

abbrev pub at : List Symbol → ℕ → Symbol
at cells i = get_or cells i free_cell

-- A loop of `insert_st` over `rounds` cells from `idx`: the index where it stops, or `none` for
-- `return INRES_EXISTS`.
unfoldable pub probe : List Symbol → SymKey → SymVal → ℕ → ℕ → Option ℕ
probe cells key val zero idx = some idx
probe cells key val (suc rounds) idx =
    let rest = probe cells key val rounds (suc idx) in
    let c = at cells idx in
    if is_unused c
    then some idx
    else if keys_are_eq c.key key
    then (if vals_are_eq c.val val then some idx else none)
    else rest

pub data InsertResult : Type 0 where
  inres_exists inres_ok : InsertResult

unfoldable pub grow_st : ℕ → SymbolTable → SymbolTable
grow_st block st =
    if leb st.len st.used
    then record st { cell = st.cell ++ replicate block free_cell; len = st.len + block }
    else st

-- The `assert` and the two `memcpy`.
unfoldable pub enter :
    SymbolTable → SymKey → SymVal → ℕ → Run SymbolTable (InsertResult × SymbolTable)
enter st key val idx =
    if leb st.len idx
    then fault out_of_bounds
    else if is_unused (at st.cell idx)
    then ok (
      inres_ok,
      record st { cell = set st.cell idx (record { key = key; val = val }); used = st.used + 1 },
    )
    else fault assertion

-- The two loops of `insert_st`, from `start` to the end and from 0 to `start`.
unfoldable pub probe_both : SymbolTable → SymKey → SymVal → ℕ → Option ℕ
probe_both st key val start = elim (probe st.cell key val (st.len - start) start) [
  | none ↦ none
  | some idx ↦ if leb st.len idx then probe st.cell key val start 0 else some idx
]

place : SymbolTable → SymKey → SymVal → Option ℕ → Run SymbolTable (InsertResult × SymbolTable)
unfolding enter
place st key val none = ok (inres_exists, st)
place st key val (some idx) = enter st key val idx

unfoldable pub insert_st :
    ℕ → SymbolTable → SymKey → SymVal → Run SymbolTable (InsertResult × SymbolTable)
unfolding grow_st place
insert_st block st₀ key val =
    let st = grow_st block st₀ in
    place st key val (probe_both st key val (delim_hash (djb2hash_key key) (st.len - 1)))

-- A loop of `get_st` over `rounds` cells from `idx`.
unfoldable pub search_from : List Symbol → SymKey → ℕ → ℕ → ℕ
search_from cells key zero idx = idx
search_from cells key (suc rounds) idx =
    let rest = search_from cells key rounds (suc idx) in
    if keys_are_eq (at cells idx).key key then idx else rest

-- `*val = cell[idx].val; val->inst_addr += offset;`
abbrev pub entry : SymbolTable → ℕ → SymVal
entry st i = let v = (at st.cell i).val in record v { inst_addr = v.inst_addr + st.offset }

-- The end of `get_st`, with the indices at which its loops stop; `none` is `GTRES_ERR`.
picked : SymbolTable → ℕ → ℕ → ℕ → Option SymVal
picked st start i j =
    if i == st.len then (if j == start then none else some (entry st j)) else some (entry st i)

-- The start is always an index of the table (`delim_hash`).
unfoldable pub get_st : SymbolTable → SymKey → Option SymVal
unfolding picked
get_st st key =
    let start = delim_hash (djb2hash_key key) (st.len - 1) in
    picked st start (search_from st.cell key (st.len - start) start)
      (search_from st.cell key start 0)
