-- ===== src/Parse/Marked.antt =====
-- src/parse.c: what the messages of the parser show, for the slices of the stream that its
-- functions hand to them.
use hvme.Prelude.{
  ℕ, suc, ◌+◌, ◌-◌, ◌≤◌, ◌<◌, ◌≡◌, ◌∙◌, refl, sym, ap, subst, true, false, List, [], ◌∷◌, ◌++◌,
  length, arith, append_assoc, append_nil, le→not_ltb, if-true, if-false,
}
use hvme.Inst.{Pos}
use hvme.Token.{TokenCode, Token}
use hvme.Scan.Keywords.{token_str}
use hvme.Parse.{TokenStream, its_lh, its_next, is_code, token_at, none_token}
use hvme.Parse.Slice.{window, next_window, next_current, its_next-slice}
use hvme.Parse.Errors.{
  its_slice, Marked, space, caret, below, display_pos, expect3, expect2, expect_ident,
}

-- The carets stand below `self`, and spaces below the text before it.
pub record Marks (self : List ℕ) (m : Marked) : Type 0 where
  pub before : List ℕ
  pub after : List ℕ
  pub line : m.line ≡ before ++ (self ++ after)
  pub marks : m.marks ≡ below space before ++ below caret self

below-append : (c : ℕ) (xs ys : List ℕ) → below c (xs ++ ys) ≡ below c xs ++ below c ys
below-append c [] ys = refl
below-append c (x ∷ xs) ys = ap (λ zs. c ∷ zs) (below-append c xs ys)

-- A word with a space behind it, in front of a text.
word_append : (xs ys : List ℕ) → (xs ++ space ∷ []) ++ ys ≡ xs ++ space ∷ ys
word_append xs ys = append_assoc xs (space ∷ []) ys

below_word : (xs ys : List ℕ) → below space (xs ++ space ∷ []) ++ ys ≡ below space xs ++ space ∷ ys
below_word xs ys =
    ap (λ zs. zs ++ ys) (below-append space xs (space ∷ [])) ∙ word_append (below space xs) ys

-- One word before the marked one, and two.
one_word :
    (pos : Pos) (prev self after : List ℕ)
    → Marks self (record {
      pos = pos;
      line = prev ++ space ∷ (self ++ after);
      marks = below space prev ++ space ∷ below caret self;
    })
one_word pos prev self after = record {
  before = prev ++ space ∷ [];
  after = after;
  line = sym (word_append prev (self ++ after));
  marks = sym (below_word prev (below caret self));
}

two_words :
    (pos : Pos) (first second self : List ℕ)
    → Marks self (record {
      pos = pos;
      line = first ++ space ∷ (second ++ space ∷ self);
      marks = below space first ++ space ∷ (below space second ++ space ∷ below caret self);
    })
two_words pos first second self = record {
  before = (first ++ space ∷ []) ++ (second ++ space ∷ []);
  after = [];
  line = sym (
      append_assoc (first ++ space ∷ []) (second ++ space ∷ []) (self ++ [])
      ∙ word_append first ((second ++ space ∷ []) ++ (self ++ []))
      ∙ ap (λ zs. first ++ space ∷ zs) (word_append second (self ++ []))
      ∙ ap (λ zs. first ++ space ∷ (second ++ space ∷ zs)) (append_nil self));
  marks = sym (
      ap (λ zs. zs ++ below caret self)
        (below-append space (first ++ space ∷ []) (second ++ space ∷ []))
      ∙ append_assoc (below space (first ++ space ∷ [])) (below space (second ++ space ∷ []))
          (below caret self)
      ∙ below_word first (below space (second ++ space ∷ []) ++ below caret self)
      ∙ ap (λ zs. below space first ++ space ∷ zs) (below_word second (below caret self)));
}

-- What a message shows when the current token of the stream is wrong: that token is marked, and the
-- position is its position or, at the end of the stream, one space behind the token before it.
pub record Shows (its : TokenStream) (m : Marked) : Type 0 where
  pub marked : Marks (token_str (its_lh its)) m
  pub at_token : is_code (its_lh its) TokenCode.none ≡ false → m.pos ≡ (its_lh its).pos
  pub at_end :
      let prev = token_at its.tokens (its.idx - 1) in
      its.idx ≡ its.len
      → m.pos ≡ record { ln = prev.pos.ln; cl = prev.pos.cl + length (token_str prev) + 1 }

-- The messages as functions of the tokens that they show.
abbrev mark1 : Token → Token → Marked
mark1 prev_it it = record {
  pos = display_pos prev_it (token_str prev_it) it;
  line = token_str prev_it ++ space ∷ token_str it;
  marks = below space (token_str prev_it) ++ space ∷ below caret (token_str it);
}

abbrev mark2 : Token → Token → Token → Marked
mark2 prev_it it next_it = record (mark1 prev_it it) {
  line = token_str prev_it ++ space ∷ (token_str it ++ space ∷ token_str next_it);
}

abbrev mark3 : Token → Token → Token → Marked
mark3 first_it second_it it = record {
  pos = display_pos second_it (token_str second_it) it;
  line = token_str first_it ++ space ∷ (token_str second_it ++ space ∷ token_str it);
  marks =
      below space (token_str first_it)
      ++ space ∷ (below space (token_str second_it) ++ space ∷ below caret (token_str it));
}

expect2-mark :
    (s w : TokenStream) (prev_it it : Token)
    → its_next s ≡ (prev_it, w)
    → (its_next w).0 ≡ it
    → (its_next (its_next w).1).0 ≡ none_token
    → expect2 s ≡ mark2 prev_it it none_token
unfolding expect2
expect2-mark s w prev_it it e now behind =
    ap (λ r. mark2 r.0 (its_next r.1).0 (its_next (its_next r.1).1).0) e
    ∙ ap (λ t. mark2 prev_it t (its_next (its_next w).1).0) now
    ∙ ap (mark2 prev_it it) behind

expect_ident-mark :
    (s w : TokenStream) (prev_it it : Token)
    → its_next s ≡ (prev_it, w)
    → (its_next w).0 ≡ it
    → expect_ident s ≡ mark1 prev_it it
unfolding expect_ident
expect_ident-mark s w prev_it it e now =
    ap (λ r. mark1 r.0 (its_next r.1).0) e ∙ ap (mark1 prev_it) now

expect3-mark :
    (s v w : TokenStream) (first_it second_it it : Token)
    → its_next s ≡ (first_it, v)
    → its_next v ≡ (second_it, w)
    → (its_next w).0 ≡ it
    → expect3 s ≡ mark3 first_it second_it it
unfolding expect3
expect3-mark s v w first_it second_it it e e' now =
    ap (λ r. mark3 r.0 (its_next r.1).0 (its_next (its_next r.1).1).0) e
    ∙ ap (λ r. mark3 first_it r.0 (its_next r.1).0) e'
    ∙ ap (mark3 first_it second_it) now

its_lh-end : (its : TokenStream) → its.idx ≡ its.len → its_lh its ≡ none_token
unfolding its_lh
its_lh-end its t = if-false _ _ (le→not_ltb its.idx its.len (omega arith))

module _ (its : TokenStream) (fits : its.idx ≤ its.len) where
  prev_it : Token
  prev_it = token_at its.tokens (its.idx - 1)

  display-Shows :
      (m : Marked)
      → Marks (token_str (its_lh its)) m
      → m.pos ≡ display_pos prev_it (token_str prev_it) (its_lh its)
      → Shows its m
  unfolding prev_it
  display-Shows m a e = record {
    marked = a;
    at_token = λ t. e ∙ if-false _ _ t;
    at_end = λ t. e ∙ if-true _ _ (missing t);
  }
    where
      missing : its.idx ≡ its.len → is_code (its_lh its) TokenCode.none ≡ true
      missing t = ap (λ it. is_code it TokenCode.none) (its_lh-end its t)

  one_back : 0 < its.idx → its_next (its_slice its 1 1) ≡ (prev_it, window its fits its.idx)
  unfolding prev_it
  one_back h =
      let e : suc (its.idx - 1) ≡ its.idx = omega arith in
      its_next-slice its fits 1 (omega arith) h
      ∙ ap (λ i. (token_at its.tokens (its.idx - 1), window its fits i)) e

  pub expect2-Shows : 0 < its.idx → Shows its (expect2 (its_slice its 1 1))
  expect2-Shows h =
      let (now, behind) = next_current its fits in
      subst (Shows its)
        (sym
          (expect2-mark _ (window its fits its.idx) prev_it (its_lh its) (one_back h) now behind))
        (display-Shows (mark2 prev_it (its_lh its) none_token)
          (one_word _ (token_str prev_it) (token_str (its_lh its)) (space ∷ token_str none_token))
          refl)

  pub expect_ident-Shows : 0 < its.idx → Shows its (expect_ident (its_slice its 1 1))
  expect_ident-Shows h =
      let (now, behind) = next_current its fits in
      let m = mark1 prev_it (its_lh its) in
      let line : m.line ≡ token_str prev_it ++ space ∷ (token_str (its_lh its) ++ []) =
        ap (λ zs. token_str prev_it ++ space ∷ zs) (sym (append_nil (token_str (its_lh its)))) in
      subst (Shows its)
        (sym (expect_ident-mark _ (window its fits its.idx) prev_it (its_lh its) (one_back h) now))
        (display-Shows m
          (subst (λ l. Marks (token_str (its_lh its)) (record m { line = l })) (sym line)
            (one_word _ (token_str prev_it) (token_str (its_lh its)) []))
          refl)

  pub expect3-Shows : 1 < its.idx → Shows its (expect3 (its_slice its 2 1))
  unfolding prev_it
  expect3-Shows h =
      let (now, behind) = next_current its fits in
      let e : suc (its.idx - 2) ≡ its.idx - 1 = omega arith in
      let e' : suc (its.idx - 1) ≡ its.idx = omega arith in
      let first =
        its_next-slice its fits 2 (omega arith) (omega arith)
        ∙ ap (λ i. (token_at its.tokens (its.idx - 2), window its fits i)) e in
      let second =
        next_window its fits (its.idx - 1) (omega arith)
        ∙ ap (λ i. (prev_it, window its fits i)) e' in
      subst (Shows its)
        (sym (
          expect3-mark _ _ _ (token_at its.tokens (its.idx - 2)) prev_it (its_lh its) first second
            now))
        (display-Shows (mark3 (token_at its.tokens (its.idx - 2)) prev_it (its_lh its))
          (two_words _ (token_str (token_at its.tokens (its.idx - 2))) (token_str prev_it)
            (token_str (its_lh its)))
          refl)
