-- ===== src/Jump/Search.antt =====
-- src/exec.c: what `jump_to` finds, in terms of the files that define a symbol.
use hvme.Prelude.{
  ℕ, suc, ◌+◌, ◌≤◌, ◌<◌, ◌≡◌, ◌∙◌, refl, Bool, true, false, inl, inr, none, some, List, [], ◌∷◌,
  ltb, ◌==◌, if◌then◌else◌, Bool-cases, Option-cases, arith, ◌≢◌, ◌⊎◌, get_elem?, sym, ap, dec_lt,
  ltb→lt,
}
use hvme.Table.{SymKey, SymVal, get_st}
use hvme.Program.{File}
use hvme.Jump.{Defs, note_def, find_defs}

-- 1 for a file that is not the one at `prev_fi` and defines the key, else 0.
one_def : SymKey → ℕ → ℕ → File → ℕ
one_def key prev_fi i f =
    if prev_fi == i then 0 else elim (get_st f.st key) [ none ↦ 0 | some v ↦ 1 ]

-- The number of such files, the first one of the list being at `i`.
unfoldable pub count_defs : SymKey → ℕ → ℕ → List File → ℕ
unfolding one_def
count_defs key prev_fi i [] = 0
count_defs key prev_fi i (f ∷ fs) = one_def key prev_fi i f + count_defs key prev_fi (suc i) fs

-- The file that the loop has noted.
pub record Noted (key : SymKey) (prev_fi i : ℕ) (fs : List File) (e : Defs) : Type 0 where
  pub offset : ℕ
  pub file : File
  pub next : e.next_fi ≡ i + offset
  pub there : get_elem? fs offset ≡ some file
  pub defines : get_st file.st key ≡ some e.val
  pub other : prev_fi ≢ i + offset

-- What the loop, which starts with `d`, knows at its end.
pub record Counted (key : SymKey) (prev_fi i : ℕ) (fs : List File) (d e : Defs) (n : ℕ)
    : Type 0 where
  pub exact : d.ndefs + n ≤ 1 → e.ndefs ≡ d.ndefs + n
  pub many : 2 ≤ d.ndefs + n → 2 ≤ e.ndefs
  pub same : e.ndefs ≡ d.ndefs → e ≡ d
  pub noted : d.ndefs ≡ 0 → e.ndefs ≡ 1 → Noted key prev_fi i fs e

note_def_cases :
    (key : SymKey) (prev_fi i : ℕ) (f : File) (d : Defs)
    → ((one_def key prev_fi i f ≡ 0) × (note_def key prev_fi i f d ≡ d))
      ⊎ ((one_def key prev_fi i f ≡ 1)
          × (prev_fi ≢ i)
          × ((v : SymVal) × (get_st f.st key ≡ some v)
              × (note_def key prev_fi i f d
                  ≡ record { ndefs = d.ndefs + 1; next_fi = i; val = v })))
unfolding one_def note_def
note_def_cases key prev_fi i f d = elim (Bool-cases (prev_fi == i)) [
  | inl t ↦ inl (rw t refl, rw t refl)
  | inr t ↦ elim (Option-cases (get_st f.st key)) [
    | inl e ↦ inl (rw (t, e) refl, rw (t, e) refl)
    | inr (v, e) ↦
        let apart : prev_fi ≢ i = ground arith in
        inr (rw (t, e) refl, apart, (v, e, rw (t, e) refl))
  ]
]

Counted-if :
    {key : SymKey} {prev_fi i : ℕ} {fs : List File} {d : Defs} {n : ℕ} (c : Bool) (x y : Defs)
    → (c ≡ true → Counted key prev_fi i fs d x n)
    → (c ≡ false → Counted key prev_fi i fs d y n)
    → Counted key prev_fi i fs d (if c then x else y) n
Counted-if true x y h k = h refl
Counted-if false x y h k = k refl

-- A first file that does not count.
skip_first :
    {key : SymKey} {prev_fi i m : ℕ} {f : File} {fs : List File} {d e : Defs}
    → Counted key prev_fi (suc i) fs d e m
    → Counted key prev_fi i (f ∷ fs) d e (0 + m)
skip_first r = record {
  exact = λ a. r.exact (omega arith) ∙ omega arith;
  many = λ a. r.many (omega arith);
  same = r.same;
  noted = λ a b.
      let n = r.noted a b in
      record {
        offset = suc n.offset;
        file = n.file;
        next = omega (arith, n.next);
        there = n.there;
        defines = n.defines;
        other = λ q. n.other (omega arith);
      };
}

-- A first file that counts.
take_first :
    {key : SymKey} {prev_fi i m : ℕ} {f : File} {fs : List File} {d e : Defs} (v : SymVal)
    → d.ndefs ≤ 1
    → prev_fi ≢ i
    → get_st f.st key ≡ some v
    → Counted key prev_fi (suc i) fs (record { ndefs = d.ndefs + 1; next_fi = i; val = v }) e m
    → Counted key prev_fi i (f ∷ fs) d e (1 + m)
take_first {i} {m} {f} {d} v h apart found r = record {
  exact = λ a. r.exact (omega arith) ∙ omega arith;
  many = λ a. r.many (omega arith);
  same = λ a. elim (dec_lt 1 (d.ndefs + 1 + m)) [
    | yes b ↦ let big = r.many (omega arith) in absurd (omega arith)
    | no b ↦ let e = r.exact (omega arith) in absurd (omega arith)
  ];
  noted = λ a b.
      let it = r.same (omega arith) in
      record {
        offset = 0;
        file = f;
        next = ap (λ (x : Defs). x.next_fi) it ∙ omega arith;
        there = refl;
        defines = found ∙ ap (λ (x : Defs). some x.val) (sym it);
        other = λ q. apart (omega arith);
      };
}

-- The loop stops at a second file that counts.
stop_first :
    {key : SymKey} {prev_fi i : ℕ} {fs : List File} {d : Defs} (m : ℕ) (e : Defs)
    → e.ndefs ≡ d.ndefs + 1
    → 1 < e.ndefs
    → Counted key prev_fi i fs d e (1 + m)
stop_first m e h two = record {
  exact = λ a. absurd (omega arith);
  many = λ a. two;
  same = λ a. absurd (omega arith);
  noted = λ a b. absurd (omega arith);
}

pub find_defs-Counted :
    (key : SymKey) (prev_fi i : ℕ) (fs : List File) (d : Defs)
    → d.ndefs ≤ 1
    → Counted key prev_fi i fs d (find_defs key prev_fi i fs d) (count_defs key prev_fi i fs)
unfolding find_defs count_defs
find_defs-Counted key prev_fi i [] d h = record {
  exact = λ a. omega arith;
  many = λ a. omega arith;
  same = λ a. refl;
  noted = λ a b. absurd (omega arith);
}
find_defs-Counted key prev_fi i (f ∷ fs) d h =
    let d' = note_def key prev_fi i f d in
    elim (note_def_cases key prev_fi i f d) [
      | inl (none_here, e) ↦
          Counted-if (ltb 1 d'.ndefs) _ _ (λ t. absurd (not_two e t))
            (λ t. rw (none_here, e) (skip_first (find_defs-Counted key prev_fi (suc i) fs d h)))
      | inr (one_here, apart, (v, found, e)) ↦
          Counted-if (ltb 1 d'.ndefs) _ _
            (λ t.
              rw one_here (stop_first _ d' (ap (λ (x : Defs). x.ndefs) e) (ltb→lt 1 d'.ndefs t)))
            (λ t.
              rw (one_here, e)
                (take_first v h apart found (
                  find_defs-Counted key prev_fi (suc i) fs
                    (record { ndefs = d.ndefs + 1; next_fi = i; val = v }) (at_most e t))))
    ]
  where
    not_two : {d' : Defs} → d' ≡ d → ltb 1 d'.ndefs ≡ true → ⊥
    not_two e t = let same = ap (λ (x : Defs). x.ndefs) e in ground arith

    at_most :
        {d' : Defs} {v : SymVal}
        → d' ≡ record { ndefs = d.ndefs + 1; next_fi = i; val = v }
        → ltb 1 d'.ndefs ≡ false
        → d.ndefs + 1 ≤ 1
    at_most e t = let same = ap (λ (x : Defs). x.ndefs) e in ground arith
