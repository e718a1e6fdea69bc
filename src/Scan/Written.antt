-- ===== src/Scan/Written.antt =====
-- src/scan.c: `scan_blk` reads a text of words with white space between them.
use hvme.Prelude.{
  ℕ, zero, suc, ◌+◌, ◌-◌, ◌≤◌, ◌≡◌, ◌∙◌, refl, sym, ap, true, false, some, List, [], ◌∷◌, ◌++◌,
  append_nil, length, get_or, drop, arith, if-false,
}
use hvme.Inst.{Pos}
use hvme.Token.{TokenCode, Token, code}
use hvme.Console.{is_space}
use hvme.Parse.Print.{append_snoc}
use hvme.Scan.{Statics, Cursor, incby, match_fns, token_from_fn, token_codes, keyword}
use hvme.Scan.Block.{eat_ws_from, eat_ws, Output, more, round, scan_blk, completed, is_comment}
use hvme.Scan.Match.{Hit, find}
use hvme.Scan.Keywords.{strs, IsKeyword, find-strs}
use hvme.Scan.Progress.{after_find, round_outside}
use hvme.Scan.Comments.{AllBlank, Clear, eat_ws-stays, eat_ws-gap, scan_blk_more}
use hvme.Scan.Words.{
  Word, keyword_word, uint_word, ident_word, word_text, IsWord, Says, Finds, Starts,
}
use hvme.Scan.Numbers.{uint-Finds, decimal-Starts}
use hvme.Scan.Names.{ident-Finds, name-Starts, drop-front}

pub keyword-Says :
    (t : TokenCode) → IsKeyword t → get_or token_codes (code t - 1 + 1) TokenCode.none ≡ t
keyword-Says TokenCode.none h = absurd h
keyword-Says _ h = refl

pub keyword-Starts : (t : TokenCode) (text : List ℕ) → IsKeyword t → Starts (strs t ++ text)
unfolding is_space
keyword-Starts TokenCode.none text h = absurd h
keyword-Starts _ text h = refl

word-Finds :
    (w : Word) (b : ℕ) (text : List ℕ) (v : Statics)
    → IsWord w
    → is_space b ≡ true
    → Finds w (word_text w ++ b ∷ text) v
unfolding token_from_fn
word-Finds (keyword_word t) b text v h s = record {
  hit = record { fn_idx = code t - 1; fn = keyword (strs t); count = length (strs t); vars = v };
  finds = find-strs t (b ∷ text) v h;
  count = refl;
  no_comment = refl;
  says = λ pos. keyword-Says t h;
  outside = refl;
}
word-Finds (uint_word n) b text v h s = uint-Finds n b text v h s
word-Finds (ident_word i) b text v h s = ident-Finds i b text v h s

word-Starts : (w : Word) (text : List ℕ) → IsWord w → Starts (word_text w ++ text)
word-Starts (keyword_word t) text h = keyword-Starts t text h
word-Starts (uint_word n) text h = decimal-Starts n text h
word-Starts (ident_word s) text h = name-Starts s text h

-- A word and the white space behind it: a character, and perhaps more.
pub record Spaced : Type 0 where
  pub word : Word
  pub blank : ℕ
  pub gap : List ℕ

abbrev pub written : List Spaced → List ℕ
written [] = []
written (s ∷ ss) = word_text s.word ++ (s.blank ∷ s.gap ++ written ss)

abbrev pub AreSpaced : List Spaced → Type 0
AreSpaced [] = Unit
AreSpaced (s ∷ ss) = IsWord s.word × (is_space s.blank ≡ true) × AllBlank s.gap × AreSpaced ss

abbrev pub AllSay : List Spaced → List Token → Type 0
AllSay [] [] = Unit
AllSay [] (it ∷ its) = ⊥
AllSay (s ∷ ss) [] = ⊥
AllSay (s ∷ ss) (it ∷ its) = Says s.word it × AllSay ss its

written-Clear : (ss : List Spaced) → AreSpaced ss → Clear (written ss)
written-Clear [] h = tt
written-Clear (s ∷ ss) (h, t, g, hs) =
    starts (word_text s.word ++ (s.blank ∷ s.gap ++ written ss))
      (word-Starts s.word (s.blank ∷ s.gap ++ written ss) h)
  where
    starts : (text : List ℕ) → Starts text → Clear text
    starts [] h = absurd h
    starts (c ∷ text) h = h

-- A round at a text where a function is found that is no comment.
round-hit :
    (ch : ℕ) (text : List ℕ) (pos : Pos) (o : Output) (h : Hit)
    → o.vars.inside_comment ≡ false
    → is_space ch ≡ false
    → find match_fns 0 (ch ∷ text) o.vars ≡ some h
    → is_comment h.fn ≡ false
    → (let here : Cursor = record { text = ch ∷ text; pos = pos } in
        round ch here o
        ≡ more (eat_ws (incby h.count here)) (record {
          cells = o.cells ++ (token_from_fn h.fn_idx pos h.vars).0 ∷ [];
          vars = (token_from_fn h.fn_idx pos h.vars).1;
        }))
unfolding completed
round-hit ch text pos o h outside start found not_comment =
    let here : Cursor = record { text = ch ∷ text; pos = pos } in
    let stays : eat_ws here ≡ here = eat_ws-stays (ch ∷ text) pos start in
    round_outside ch here o outside
    ∙ ap (λ c. after_find c o (find match_fns 0 c.text o.vars)) stays
    ∙ ap (after_find here o) found
    ∙ if-false _ _ not_comment

unfoldable pub made : Output → Hit → Pos → Output
made o h pos = record {
  cells = o.cells ++ (token_from_fn h.fn_idx pos h.vars).0 ∷ [];
  vars = (token_from_fn h.fn_idx pos h.vars).1;
}

pub scan_blk-hit :
    (fuel : ℕ) (text : List ℕ) (pos : Pos) (o : Output) (h : Hit)
    → o.vars.inside_comment ≡ false
    → Starts text
    → find match_fns 0 text o.vars ≡ some h
    → is_comment h.fn ≡ false
    → (let next = eat_ws (incby h.count (record { text = text; pos = pos })) in
        scan_blk (suc fuel) text pos o ≡ scan_blk fuel next.text next.pos (made o h pos))
unfolding made
scan_blk-hit fuel [] pos o h outside start found not_comment = absurd start
scan_blk-hit fuel (ch ∷ text) pos o h outside start found not_comment =
    let here : Cursor = record { text = ch ∷ text; pos = pos } in
    scan_blk_more fuel ch text pos o (eat_ws (incby h.count here)) (made o h pos)
      (round-hit ch text pos o h outside start found not_comment)

-- What `scan_blk` makes of words: tokens that say them, and nothing is left of the text.
pub record Scans (ss : List Spaced) (fuel : ℕ) (text : List ℕ) (pos : Pos) (o : Output)
    : Type 0 where
  pub tokens : List Token
  pub says : AllSay ss tokens
  pub end : Pos
  pub vars : Statics
  pub outside : vars.inside_comment ≡ false
  pub run :
      scan_blk fuel text pos o
      ≡ some (some 0, end, record { cells = o.cells ++ tokens; vars = vars })

-- Outside of a comment, a text of words with white space behind each of them (keywords, numbers
-- below 65536, and names of at most 24 characters that start with no keyword) is scanned to tokens
-- that say these words, in their order; as many rounds as words are enough, and nothing is left.
pub scan_blk-written :
    (fuel : ℕ) (ss : List Spaced) (pos : Pos) (o : Output)
    → AreSpaced ss
    → o.vars.inside_comment ≡ false
    → length ss ≤ fuel
    → Scans ss fuel (written ss) pos o
unfolding scan_blk made incby token_from_fn
scan_blk-written fuel [] pos o a outside l = record {
  tokens = [];
  says = tt;
  end = pos;
  vars = o.vars;
  outside = outside;
  run =
      ap (λ cells. some (some 0, pos, record { cells = cells; vars = o.vars }))
        (sym (append_nil o.cells));
}
scan_blk-written zero (s ∷ ss) pos o a outside l = absurd (omega arith)
scan_blk-written (suc fuel) (s ∷ ss) pos o (w, b, g, a) outside l =
    let behind = s.blank ∷ s.gap ++ written ss in
    let whole = word_text s.word ++ behind in
    let found = word-Finds s.word s.blank (s.gap ++ written ss) o.vars w b in
    let moved = incby found.hit.count (record { text = whole; pos = pos }) in
    let left : moved.text ≡ behind =
      ap (λ n. drop n whole) found.count ∙ drop-front (word_text s.word) behind in
    let eaten : (eat_ws moved).text ≡ written ss =
      ap (λ t. (eat_ws_from t moved.pos).text) left
      ∙ eat_ws-gap (s.blank ∷ s.gap) (written ss) moved.pos (b, g) (written-Clear ss a) in
    let after = made o found.hit pos in
    let rest =
      scan_blk-written fuel ss (eat_ws moved).pos after a (found.outside ∙ outside) (omega arith) in
    let it = (token_from_fn found.hit.fn_idx pos found.hit.vars).0 in
    record {
      tokens = it ∷ rest.tokens;
      says = (found.says pos, rest.says);
      end = rest.end;
      vars = rest.vars;
      outside = rest.outside;
      run =
          scan_blk-hit fuel whole pos o found.hit outside (word-Starts s.word behind w) found.finds
            found.no_comment
          ∙ ap (λ t. scan_blk fuel t (eat_ws moved).pos after) eaten
          ∙ rest.run
          ∙ ap (λ cells. some (some 0, rest.end, record { cells = cells; vars = rest.vars }))
              (append_snoc o.cells rest.tokens it);
    }
