-- ===== src/Tests/Tables.antt =====
-- The theorems on the symbol table, at a table of five cells.
use hvme.Prelude.{List, [], ◌∷◌, some, ◌≡◌, ◌⊎◌, refl, none, some, arith}
use hvme.Exec.{ok}
use hvme.Table.{
  SymKey, SymVal, Symbol, SymbolTable, str_eq, label, func, mk_key, mk_lbval, mk_fnval, new_st,
  get_st, insert_st, inres_ok, delim_hash, probe_both, probe, djb2hash_key, log2, log2_fuel,
  keys_are_eq, vals_are_eq, grow_st,
}
use hvme.Table.Search.{Misses, Found, get_st_lem}
use hvme.Table.Cells.{new_st-IsValid}
use hvme.Table.Insert.{Outcome, written, insert_st_lem}
use hvme.Table.Again.{repeated, insert_st_again}
use hvme.Table.Map.{IsNamed, Updated}
use hvme.Table.Refines.{insert_st-Updated, new_st-IsUnique, new_st-get_st}
use hvme.Table.Assoc.{insert_all, lookup, AreDistinct, insert_all-lookup}
use hvme.Text.{codes}

abbrev empty : SymbolTable
empty = new_st 4

abbrev pub loop_key : SymKey
loop_key = mk_key (codes "LOOP") label

get_st_lem_example :
    ((v : SymVal) × (get_st empty loop_key ≡ some v) × Found empty loop_key v)
    ⊎ ((get_st empty loop_key ≡ none) × Misses empty.cell loop_key 0 empty.len)
get_st_lem_example = get_st_lem 4 empty loop_key (new_st-IsValid 4 (omega arith))

insert_st_lem_example :
    Outcome 4 (grow_st 4 empty) loop_key (mk_lbval 3) (insert_st 4 empty loop_key (mk_lbval 3))
insert_st_lem_example =
    insert_st_lem 4 empty loop_key (mk_lbval 3) (new_st-IsValid 4 (omega arith)) refl

abbrev pub one_label : SymbolTable
one_label = written empty loop_key (mk_lbval 3) 0

one_label-entered : insert_st 4 empty loop_key (mk_lbval 3) ≡ ok (inres_ok, one_label)
unfolding insert_st written new_st probe_both probe delim_hash djb2hash_key log2 log2_fuel
    keys_are_eq
one_label-entered = refl

insert_st_again_example :
    insert_st 4 one_label loop_key (mk_lbval 3)
    ≡ repeated one_label (vals_are_eq (mk_lbval 3) (mk_lbval 3))
unfolding new_st
insert_st_again_example =
    insert_st_again 4 empty one_label loop_key (mk_lbval 3) (mk_lbval 3)
      (new_st-IsValid 4 (omega arith)) refl (omega arith) one_label-entered

insert_st-Updated_example :
    (new : SymbolTable) × (insert_st 4 empty loop_key (mk_lbval 3) ≡ ok (inres_ok, new))
    × Updated 4 empty loop_key (mk_lbval 3) new
insert_st-Updated_example =
    insert_st-Updated 4 empty (new_st-IsValid 4 (omega arith)) (new_st-IsUnique 4) loop_key
      (mk_lbval 3) refl (new_st-get_st 4 loop_key (omega arith) refl)

-- Six entries, for which the table grows.
abbrev six : List Symbol
six =
    record { key = loop_key; val = mk_lbval 3 }
    ∷ record { key = mk_key (codes "END") label; val = mk_lbval 5 }
    ∷ record { key = mk_key (codes "LOOP") func; val = mk_fnval 7 2 }
    ∷ record { key = mk_key (codes "a") label; val = mk_lbval 8 }
    ∷ record { key = mk_key (codes "b") label; val = mk_lbval 8 }
    ∷ record { key = mk_key (codes "c") label; val = mk_lbval 9 }
    ∷ []

six-AreDistinct : AreDistinct six
unfolding keys_are_eq str_eq
six-AreDistinct = (
  refl,
  (refl, (refl, (refl, (refl, (refl, tt))))),
  (
    refl,
    (refl, (refl, (refl, (refl, tt)))),
    (
      refl,
      (refl, (refl, (refl, tt))),
      (refl, (refl, (refl, tt)), (refl, (refl, tt), (refl, tt, tt))),
    ),
  ),
)

insert_all-lookup_example :
    (st : SymbolTable) × (insert_all 4 six empty ≡ ok st)
    × ((k : SymKey) → IsNamed k → get_st st k ≡ lookup six k)
insert_all-lookup_example = insert_all-lookup 4 six (omega arith) six-AreDistinct
