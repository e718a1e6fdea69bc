-- ===== src/Scan/Joined.antt =====
-- src/scan.c: what a round makes of a text, and of the same text with more behind it.
use hvme.Prelude.{
  ℕ, ◌+◌, ◌<◌, ◌≡◌, ◌∙◌, ◌⊎◌, refl, sym, ap, true, none, some, List, [], ◌∷◌, ◌++◌, if◌then◌else◌,
  Bool-cases, inl, inr, length, arith,
}
use hvme.Inst.{Pos}
use hvme.Console.{is_space}
use hvme.Scan.{Statics, Cursor, incby, match_fns, token_from_fn}
use hvme.Scan.Block.{eat_ws_from, eat_ws, num_trailing, Output, more, completed, is_comment}
use hvme.Scan.Match.{Hit, find}
use hvme.Scan.Rest.{HasBlank, num_trailing_cases}
use hvme.Scan.Progress.{after_find}
use hvme.Scan.Comments.{Clear, eat_ws-stays}
use hvme.Scan.Extend.{find-HasBlank}
use hvme.Scan.Found.{find-NoBlank}
use hvme.Scan.Whole.{scan_all-eat_ws, scan_all}

pub num_trailing-HasBlank : (k : ℕ) (t b : List ℕ) → HasBlank t → num_trailing k (t ++ b) ≡ none
unfolding num_trailing
num_trailing-HasBlank k [] b h = absurd h
num_trailing-HasBlank k (c ∷ t) b h = elim (Bool-cases (is_space c)) [
  | inl blank ↦ rw blank refl
  | inr solid ↦ elim h [
    | inl blank ↦ absurd (cc (solid, blank))
    | inr later ↦ rw solid (num_trailing-HasBlank (k + 1) t b later)
  ]
]

pub Clear-append : (t b : List ℕ) → Clear t → 0 < length t → Clear (t ++ b)
Clear-append [] b h k = absurd (omega arith)
Clear-append (c ∷ t) b h k = h

pub HasBlank-length : (t : List ℕ) → HasBlank t → 0 < length t
HasBlank-length [] h = absurd h
HasBlank-length (c ∷ t) h = omega arith

-- The output when a function has completed.
unfoldable pub output_of : Hit → Pos → Output → Output
output_of h pos o =
    if is_comment h.fn
    then record o { vars = record (h.vars) { inside_comment = true } }
    else (let (token, vars) = token_from_fn h.fn_idx pos h.vars in
        record { cells = o.cells ++ token ∷ []; vars = vars })

pub after_find-some :
    (c : Cursor) (o : Output) (h : Hit)
    → after_find c o (some h) ≡ more (eat_ws (incby h.count c)) (output_of h c.pos o)
unfolding completed output_of
after_find-some c o h = elim (Bool-cases (is_comment h.fn)) [
  | inl t ↦ rw t refl
  | inr t ↦ rw t refl
]

-- The function that is found in a block is found in the whole text.
pub found-more :
    (t b : List ℕ) (v : Statics) (h : Hit)
    → find match_fns 0 t v ≡ some h
    → find match_fns 0 (t ++ b) v ≡ some h
found-more t b v h e = elim (num_trailing_cases 0 t) [
  | inr (blank, _) ↦ find-HasBlank b t v blank ∙ e
  | inl (solid, _) ↦ elim (find-NoBlank b t v solid) [
    | inl none_found ↦ cc (none_found, e)
    | inr same ↦ same ∙ e
  ]
]

-- White space at the end of a block and at the start of the next, after a token or a comment.
pub joined :
    (u : Cursor) (b : List ℕ) (o : Output)
    → Clear u.text
    → (scan_all (eat_ws_from (u.text ++ b) u.pos) o
        ≡ scan_all (record { text = u.text ++ b; pos = u.pos }) o)
      ⊎ ((u.text ≡ []) × (o.vars.inside_comment ≡ true))
joined u b o clear = elim (Bool-cases o.vars.inside_comment) [
  | inr outside ↦ inl (sym (scan_all-eat_ws (u.text ++ b) u.pos o outside))
  | inl inside ↦ by_text u.text clear inside
]
  where
    by_text :
        (t : List ℕ)
        → Clear t
        → o.vars.inside_comment ≡ true
        → (scan_all (eat_ws_from (t ++ b) u.pos) o
            ≡ scan_all (record { text = t ++ b; pos = u.pos }) o)
          ⊎ ((t ≡ []) × (o.vars.inside_comment ≡ true))
    by_text [] k inside = inr (refl, inside)
    by_text (c ∷ t) k inside = inl (ap (λ e. scan_all e o) (eat_ws-stays (c ∷ t ++ b) u.pos k))
