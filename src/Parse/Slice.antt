-- ===== src/Parse/Slice.antt =====
-- src/parse.c: the slices of the stream that the parser hands to its messages.
use hvme.Prelude.{
  ℕ, suc, ◌+◌, ◌-◌, ◌≤◌, ◌<◌, ◌≡◌, ◌∙◌, refl, sym, ap, leb, ltb, if◌then◌else◌, arith, lt→ltb,
  le→not_ltb, if-true, if-false, ◌⊎◌, inl, inr, dec_lt,
}
use hvme.Parse.{TokenStream, its_lh, its_next, token_at, none_token}
use hvme.Parse.Errors.{its_slice}

module _ (its : TokenStream) (fits : its.idx ≤ its.len) where
  -- The length of a slice that ends one token behind the current one, if there is one.
  cut : ℕ
  cut = if ltb its.idx its.len then suc its.idx else its.len

  cut_cases : ((its.idx < its.len) × (cut ≡ suc its.idx)) ⊎ ((its.idx ≡ its.len) × (cut ≡ its.idx))
  unfolding cut
  cut_cases = elim (dec_lt its.idx its.len) [
    | yes h ↦ inl (h, if-true _ _ (lt→ltb _ _ h))
    | no h ↦
        inr (omega arith, if-false _ _ (le→not_ltb its.idx its.len (omega arith)) ∙ omega arith)
  ]

  -- That slice, at the index `i`.
  pub window : ℕ → TokenStream
  window i = record { tokens = its.tokens; idx = i; len = cut }

  its_slice-window : (ol : ℕ) → ol ≤ its.idx → its_slice its ol 1 ≡ window (its.idx - ol)
  unfolding its_slice window cut
  its_slice-window ol h =
      let start : (if leb its.idx ol then 0 else its.idx - ol) ≡ its.idx - ol = ground arith in
      let end : (if leb (1 + its.idx) its.len then 1 + its.idx else its.len)
          ≡ (if ltb its.idx its.len then suc its.idx else its.len) =
        ground arith in
      rw (start, end) refl

  next_inside : (i : ℕ) → i < cut → its_next (window i) ≡ (token_at its.tokens i, window (suc i))
  unfolding its_next window
  next_inside i h = if-true _ _ (lt→ltb _ _ h)

  next_behind : (i : ℕ) → cut ≤ i → its_next (window i) ≡ (none_token, window i)
  unfolding its_next window
  next_behind i h = if-false _ _ (le→not_ltb _ _ h)

  -- A token before the current one.
  pub next_window :
      (i : ℕ) → i < its.idx → its_next (window i) ≡ (token_at its.tokens i, window (suc i))
  next_window i h = next_inside i (below_cut cut_cases)
    where
      below_cut :
          ((its.idx < its.len) × (cut ≡ suc its.idx)) ⊎ ((its.idx ≡ its.len) × (cut ≡ its.idx))
          → i < cut
      below_cut c = omega arith

  pub its_next-slice :
      (ol : ℕ)
      → 0 < ol
      → ol ≤ its.idx
      → its_next (its_slice its ol 1)
        ≡ (token_at its.tokens (its.idx - ol), window (suc (its.idx - ol)))
  its_next-slice ol a b =
      ap its_next (its_slice-window ol b) ∙ next_window (its.idx - ol) (omega arith)

  -- The current token, and what comes behind it in the slice.
  pub next_current :
      ((its_next (window its.idx)).0 ≡ its_lh its)
      × ((its_next (its_next (window its.idx)).1).0 ≡ none_token)
  unfolding its_lh
  next_current = elim cut_cases [
    | inl (h, e) ↦
        let now = next_inside its.idx (omega arith) in
        (
          ap (λ r. r.0) now ∙ sym (if-true _ _ (lt→ltb _ _ h)),
          ap (λ r. (its_next r.1).0) now ∙ ap (λ r. r.0) (next_behind (suc its.idx) (omega arith)),
        )
    | inr (h, e) ↦
        let now = next_behind its.idx (omega arith) in
        (
          ap (λ r. r.0) now ∙ sym (if-false _ _ (le→not_ltb its.idx its.len (omega arith))),
          ap (λ r. (its_next r.1).0) now ∙ ap (λ r. r.0) now,
        )
  ]
