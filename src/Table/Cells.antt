-- ===== src/Table/Cells.antt =====
-- src/st.c: equality of keys and values, and the cells of a table that is changed.
use hvme.Prelude.{
  ℕ, zero, suc, ◌+◌, ◌≤◌, ◌<◌, ◌≡◌, inl, inr, refl, true, false, List, [], ◌∷◌, ◌++◌, ◌==◌, ◌∙◌, ap,
  leb, if◌then◌else◌, Bool-cases, arith, length, set, replicate, length-append, length-replicate,
  not_leb→lt,
}
use hvme.Inst.{Ident}
use hvme.Table.{
  SymKeyType, SymKey, SymVal, Symbol, SymbolTable, type_code, str_eq, keys_are_eq, vals_are_eq,
  is_unused, at, free_cell, grow_st, new_st,
}
use hvme.Table.Search.{count_used, IsValid}

-- Keys and values compare by `==`.
pub str_eq_refl : (a : Ident) → str_eq a a ≡ true
unfolding str_eq
str_eq_refl [] = refl
str_eq_refl (c ∷ a) = rw (str_eq_refl a) (ground arith)

pub keys_are_eq_refl : (k : SymKey) → keys_are_eq k k ≡ true
unfolding keys_are_eq
keys_are_eq_refl k = rw (str_eq_refl k.ident) (ground arith)

pub vals_are_eq_refl : (v : SymVal) → vals_are_eq v v ≡ true
unfolding vals_are_eq
vals_are_eq_refl v = ground arith

pub at-set :
    (cells : List Symbol) (i j : ℕ) (c : Symbol)
    → i < length cells
    → at (set cells i c) j ≡ (if j == i then c else at cells j)
at-set [] i j c h = absurd (omega arith)
at-set (x ∷ cells) zero zero c h = refl
at-set (x ∷ cells) zero (suc j) c h = ground arith
at-set (x ∷ cells) (suc i) zero c h = ground arith
at-set (x ∷ cells) (suc i) (suc j) c h = at-set cells i j c (omega arith) ∙ ground arith

pub count_used-append :
    (xs ys : List Symbol) → count_used (xs ++ ys) ≡ count_used xs + count_used ys
unfolding count_used
count_used-append [] ys = omega arith
count_used-append (x ∷ xs) ys = ground (arith, count_used-append xs ys)

count_used-free : (n : ℕ) → count_used (replicate n free_cell) ≡ 0
unfolding count_used
count_used-free zero = refl
count_used-free (suc n) = count_used-free n

pub count_used-set :
    (cells : List Symbol) (i : ℕ) (c : Symbol)
    → i < length cells
    → is_unused (at cells i) ≡ true
    → is_unused c ≡ false
    → count_used (set cells i c) ≡ suc (count_used cells)
unfolding count_used
count_used-set [] i c h f u = absurd (omega arith)
count_used-set (x ∷ cells) zero c h f u = rw (f, u)
count_used-set (x ∷ cells) (suc i) c h f u = elim (Bool-cases (is_unused x)) [
  | inl e ↦ rw e (count_used-set cells i c (omega arith) f u)
  | inr e ↦ rw e (ap suc (count_used-set cells i c (omega arith) f u))
]

-- A table with less entries than cells has a free cell.
pub count_used-full :
    (cells : List Symbol)
    → ((j : ℕ) → j < length cells → is_unused (at cells j) ≡ false)
    → count_used cells ≡ length cells
unfolding count_used
count_used-full [] h = refl
count_used-full (c ∷ cells) h =
    rw (h 0 (omega arith)) (ap suc (count_used-full cells (λ j k. h (suc j) (omega arith))))

pub new_st-IsValid : (block : ℕ) → 4 ≤ block → IsValid block (new_st block)
unfolding new_st
new_st-IsValid block h = record {
  width = length-replicate (block + 1) free_cell;
  wide = omega arith;
  chunk = h;
  counted = count_used-free (block + 1);
  fits = omega arith;
}

-- The table with room for one more entry.
pub grow_st-IsValid :
    (block : ℕ) (st : SymbolTable)
    → IsValid block st
    → IsValid block (grow_st block st) × ((grow_st block st).used < (grow_st block st).len)
unfolding grow_st
grow_st-IsValid block st w = elim (Bool-cases (leb st.len st.used)) [
  | inl t ↦ rw t (
    record {
      width =
          length-append st.cell (replicate block free_cell)
          ∙ omega (arith, w.width, length-replicate block free_cell);
      wide = omega (arith, w.wide);
      chunk = w.chunk;
      counted =
          count_used-append st.cell (replicate block free_cell)
          ∙ omega (arith, w.counted, count_used-free block);
      fits = omega (arith, w.fits);
    },
    omega (arith, w.fits, w.chunk),
  )
  | inr t ↦ rw t (w, not_leb→lt st.len st.used t)
]

pub grow_st-len : (block : ℕ) (st : SymbolTable) → st.len ≤ (grow_st block st).len
unfolding grow_st
grow_st-len block st = ground arith

pub grow_st-offset : (block : ℕ) (st : SymbolTable) → (grow_st block st).offset ≡ st.offset
unfolding grow_st
grow_st-offset block st = ground arith

-- A table with room is left as it is.
pub grow_st-room : (block : ℕ) (st : SymbolTable) → st.used < st.len → grow_st block st ≡ st
unfolding grow_st
grow_st-room block st h = let e : leb st.len st.used ≡ false = ground arith in rw e

-- Behind the table there are free cells, and growth adds such cells; the offset stays.
pub at-beyond : (cells : List Symbol) (i : ℕ) → length cells ≤ i → at cells i ≡ free_cell
at-beyond [] i h = refl
at-beyond (x ∷ cells) zero h = absurd (omega arith)
at-beyond (x ∷ cells) (suc i) h = at-beyond cells i (omega arith)

pub at-free : (cells : List Symbol) (n i : ℕ) → at (cells ++ replicate n free_cell) i ≡ at cells i
at-free [] zero i = refl
at-free [] (suc n) zero = refl
at-free [] (suc n) (suc i) = at-free [] n i
at-free (x ∷ cells) n zero = refl
at-free (x ∷ cells) n (suc i) = at-free cells n i

pub grow_st-cells :
    (block : ℕ) (st : SymbolTable) (i : ℕ) → at (grow_st block st).cell i ≡ at st.cell i
unfolding grow_st
grow_st-cells block st i = elim (Bool-cases (leb st.len st.used)) [
  | inl t ↦ rw t (at-free st.cell block i)
  | inr t ↦ rw t
]

-- Keys that compare by `==` are the same.
str_eq-eq : (a b : Ident) → str_eq a b ≡ true → a ≡ b
unfolding str_eq
str_eq-eq [] [] e = refl
str_eq-eq [] (b ∷ bs) e = cc
str_eq-eq (a ∷ as') [] e = cc
str_eq-eq (a ∷ as') (b ∷ bs) e =
    let same : a ≡ b = ground arith in let rest = str_eq-eq as' bs (ground arith) in rw (same, rest)

type_code-eq : (a b : SymKeyType) → type_code a ≡ type_code b → a ≡ b
type_code-eq SymKeyType.unused SymKeyType.unused e = refl
type_code-eq SymKeyType.unused SymKeyType.func e = absurd (omega arith)
type_code-eq SymKeyType.unused SymKeyType.label e = absurd (omega arith)
type_code-eq SymKeyType.func SymKeyType.unused e = absurd (omega arith)
type_code-eq SymKeyType.func SymKeyType.func e = refl
type_code-eq SymKeyType.func SymKeyType.label e = absurd (omega arith)
type_code-eq SymKeyType.label SymKeyType.unused e = absurd (omega arith)
type_code-eq SymKeyType.label SymKeyType.func e = absurd (omega arith)
type_code-eq SymKeyType.label SymKeyType.label e = refl

pub keys_are_eq-eq : (a b : SymKey) → keys_are_eq a b ≡ true → a ≡ b
unfolding keys_are_eq
keys_are_eq-eq a b e =
    let ident : a.ident ≡ b.ident = str_eq-eq a.ident b.ident (ground arith) in
    let type : a.type ≡ b.type = type_code-eq a.type b.type (ground arith) in rw (ident, type)
