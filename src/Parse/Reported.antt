-- ===== src/Parse/Reported.antt =====
-- src/parse.c: the messages that the functions of the parser print before they fail.
use hvme.Prelude.{
  ℕ, ◌+◌, ◌≤◌, ◌<◌, ◌≡◌, ◌∙◌, ◌⊎◌, inl, inr, refl, sym, ap, subst, Bool, true, false, Option, none,
  some, ltb, if◌then◌else◌, arith, lt→ltb, le→not_ltb, if-true, if-false, dec_lt,
}
use hvme.Inst.{Inst}
use hvme.Token.{TokenCode, Token}
use hvme.Parse.Errors.{its_slice, Marked, expect3, expect2, expect_ident}
use hvme.Parse.Marked.{Shows, expect2-Shows, expect3-Shows, expect_ident-Shows}
use hvme.Parse.{
  Parsed, parsed, parse_err, TokenStream, its_lh, its_next, is_code, is_segment, none_token,
  memory_inst, goto_inst, if_goto_inst,
}

-- The message of `memory_inst`, and that of `goto_inst` and `if_goto_inst`, if there is one.
unfoldable pub memory_inst_message : TokenStream → Option Marked
unfolding its_next its_lh is_segment its_slice expect3 expect2
memory_inst_message its₀ =
    let (mem_it, its₁) = its_next its₀ in
    let (seg_it, its₂) = its_next its₁ in
    if is_segment (its_lh its₁)
    then if is_code (its_lh its₂) TokenCode.uint then none else some (expect3 (its_slice its₂ 2 1))
    else some (expect2 (its_slice its₁ 1 1))

unfoldable pub goto_inst_message : TokenStream → Option Marked
unfolding its_next its_lh its_slice expect_ident
goto_inst_message its₀ =
    let (goto_it, its₁) = its_next its₀ in
    if is_code (its_lh its₁) TokenCode.ident then none else some (expect_ident (its_slice its₁ 1 1))

-- The stream, `n` tokens on.
abbrev pub ahead : ℕ → TokenStream → TokenStream
ahead n its = record its { idx = n + its.idx }

-- There is a message just if there is an error, and it shows the first token that is wrong, of
-- which `Wrong` tells how far it is ahead.
abbrev pub Reported : {A : Type 0} → (ℕ → Type 0) → TokenStream → Parsed A → Option Marked → Type 0
Reported Wrong its (parsed a) none = Unit
Reported Wrong its parse_err (some m) =
    (n : ℕ) × Wrong n × (n + its.idx ≤ its.len) × Shows (ahead n its) m
Reported Wrong its r o = ⊥

-- The first token of a memory instruction that is wrong.
abbrev pub WrongMemory : TokenStream → ℕ → Type 0
WrongMemory its n =
    ((n ≡ 1) × (is_segment (its_lh (ahead 1 its)) ≡ false))
    ⊎ ((n ≡ 2)
        × (is_segment (its_lh (ahead 1 its)) ≡ true)
        × (is_code (its_lh (ahead 2 its)) TokenCode.uint ≡ false))

abbrev pub WrongName : TokenStream → ℕ → Type 0
WrongName its n = (n ≡ 1) × (is_code (its_lh (ahead 1 its)) TokenCode.ident ≡ false)

its_next-ahead : (its : TokenStream) → its.idx < its.len → (its_next its).1 ≡ ahead 1 its
unfolding its_next
its_next-ahead its h =
    ap {A = Token × TokenStream} (λ r. r.1) (if-true _ _ (lt→ltb _ _ h))
    ∙ ap (λ i. record its { idx = i }) (omega arith)

-- A keyword or a name is not read at the end of the stream.
is_segment-inside : (its : TokenStream) → is_segment (its_lh its) ≡ true → its.idx < its.len
unfolding its_lh is_segment
is_segment-inside its h = elim (dec_lt its.idx its.len) [
  | yes a ↦ a
  | no a ↦
      let e : ltb its.idx its.len ≡ false = le→not_ltb _ _ (omega arith) in
      absurd (goes (its_lh its) (if-false _ _ e) h)
]
  where
    goes : (it : Token) → it ≡ none_token → is_segment it ≡ true → ⊥
    goes it e t = let f : is_segment none_token ≡ true = ap is_segment (sym e) ∙ t in cc

-- Two tests, each with an error.
Reported-two :
    {A : Type 0} (Wrong : ℕ → Type 0) (its : TokenStream) (c d : Bool) (a : A) (m m' : Marked)
    → (c ≡ true → d ≡ false → Reported {A = A} Wrong its parse_err (some m))
    → (c ≡ false → Reported {A = A} Wrong its parse_err (some m'))
    → Reported Wrong its
        (if c then if d then parsed a else parse_err else parse_err)
        (if c then if d then none else some m else some m')
Reported-two Wrong its true true a m m' h k = tt
Reported-two Wrong its true false a m m' h k = h refl refl
Reported-two Wrong its false d a m m' h k = k refl

Reported-one :
    {A : Type 0} (Wrong : ℕ → Type 0) (its : TokenStream) (c : Bool) (a : A) (m : Marked)
    → (c ≡ false → Reported {A = A} Wrong its parse_err (some m))
    → Reported Wrong its (if c then parsed a else parse_err) (if c then none else some m)
Reported-one Wrong its true a m k = tt
Reported-one Wrong its false a m k = k refl

module _ (its : TokenStream) (h : its.idx < its.len) where
  first : (its_next its).1 ≡ ahead 1 its
  first = its_next-ahead its h

  goto_inst-Reported : Reported (WrongName its) its (goto_inst its) (goto_inst_message its)
  unfolding goto_inst goto_inst_message
  goto_inst-Reported =
      let its₁ = (its_next its).1 in
      Reported-one (WrongName its) its (is_code (its_lh its₁) TokenCode.ident) _
        (expect_ident (its_slice its₁ 1 1))
        (λ c. (
          1,
          (refl, subst (λ s. is_code (its_lh s) TokenCode.ident ≡ false) first c),
          omega arith,
          subst (λ s. Shows (ahead 1 its) (expect_ident (its_slice s 1 1))) (sym first)
              (expect_ident-Shows (ahead 1 its) (omega arith) (omega arith)),
        ))

  if_goto_inst-Reported : Reported (WrongName its) its (if_goto_inst its) (goto_inst_message its)
  unfolding if_goto_inst goto_inst_message
  if_goto_inst-Reported =
      let its₁ = (its_next its).1 in
      Reported-one (WrongName its) its (is_code (its_lh its₁) TokenCode.ident) _
        (expect_ident (its_slice its₁ 1 1))
        (λ c. (
          1,
          (refl, subst (λ s. is_code (its_lh s) TokenCode.ident ≡ false) first c),
          omega arith,
          subst (λ s. Shows (ahead 1 its) (expect_ident (its_slice s 1 1))) (sym first)
              (expect_ident-Shows (ahead 1 its) (omega arith) (omega arith)),
        ))

  memory_inst-Reported : Reported (WrongMemory its) its (memory_inst its) (memory_inst_message its)
  unfolding memory_inst memory_inst_message
  memory_inst-Reported =
      let its₁ = (its_next its).1 in
      let its₂ = (its_next its₁).1 in
      Reported-two (WrongMemory its) its (is_segment (its_lh its₁))
        (is_code (its_lh its₂) TokenCode.uint) _ (expect3 (its_slice its₂ 2 1))
        (expect2 (its_slice its₁ 1 1))
        (λ c d. offset (subst (λ s. is_segment (its_lh s) ≡ true) first c) d)
        (λ c. (
          1,
          inl (refl, subst (λ s. is_segment (its_lh s) ≡ false) first c),
          omega arith,
          subst (λ s. Shows (ahead 1 its) (expect2 (its_slice s 1 1))) (sym first)
              (expect2-Shows (ahead 1 its) (omega arith) (omega arith)),
        ))
    where
      offset :
          is_segment (its_lh (ahead 1 its)) ≡ true
          → is_code (its_lh (its_next (its_next its).1).1) TokenCode.uint ≡ false
          → Reported {A = Inst × TokenStream}
              (WrongMemory its)
              its
              parse_err
              (some (expect3 (its_slice (its_next (its_next its).1).1 2 1)))
      offset c d =
          let inside : 1 + its.idx < its.len = is_segment-inside (ahead 1 its) c in
          let second : (its_next (its_next its).1).1 ≡ ahead 2 its =
            ap (λ s. (its_next s).1) first
            ∙ its_next-ahead (ahead 1 its) inside
            ∙ ap (λ i. record its { idx = i }) (omega arith) in
          (
            2,
            inr (refl, c, subst (λ s. is_code (its_lh s) TokenCode.uint ≡ false) second d),
            omega arith,
            subst (λ s. Shows (ahead 2 its) (expect3 (its_slice s 2 1))) (sym second)
                (expect3-Shows (ahead 2 its) (omega arith) (omega arith)),
          )

  -- On a stream that is not at its end, `memory_inst`, `goto_inst` and `if_goto_inst` print a message
  -- just if they fail, and it marks the first token that is wrong: for `memory_inst`, the second if
  -- it is no segment, else the third, which is no number; for the others, the second, which is no
  -- identifier. Carets stand below that token and spaces below the text before it; the position is
  -- the token's or, at the end of the stream, where a token would be, one space behind the one
  -- before it.
  pub inst-Reported :
      Reported (WrongMemory its) its (memory_inst its) (memory_inst_message its)
      × Reported (WrongName its) its (goto_inst its) (goto_inst_message its)
      × Reported (WrongName its) its (if_goto_inst its) (goto_inst_message its)
  inst-Reported = (memory_inst-Reported, goto_inst-Reported, if_goto_inst-Reported)
