-- ===== src/Source/Spelled.antt =====
-- src/parse.c: the words that `inst_str` writes, none of which is cut off.
use hvme.Prelude.{
  ℕ, ◌+◌, ◌-◌, ◌<◌, ◌≤◌, ◌≡◌, ◌∙◌, refl, sym, ap, List, [], ◌∷◌, ◌++◌, append_assoc, length,
  length-append, take-all, arith,
}
use hvme.Text.{codes}
use hvme.Console.{decimal, newline, is_space}
use hvme.Inst.{Inst, InstCode, Segment}
use hvme.Token.{TokenCode}
use hvme.Scan.Keywords.{strs, IsKeyword}
use hvme.Scan.Words.{Word, keyword_word, uint_word, ident_word, IsName}
use hvme.Scan.Numbers.{decimal-short}
use hvme.Scan.Written.{Spaced, written, AreSpaced}
use hvme.Parse.Print.{IsSource, segment_code, head_code}
use hvme.Source.{inst_str_buf, segs, format, inst_str, source}

abbrev spaced : ℕ → Word → Spaced
spaced b w = record { word = w; blank = b; gap = [] }

abbrev pub words_of : InstCode → List Spaced
words_of (InstCode.push s n) =
    spaced b' ' (keyword_word TokenCode.push)
    ∷ spaced b' ' (keyword_word (segment_code s))
    ∷ spaced newline (uint_word n)
    ∷ []
words_of (InstCode.pop s n) =
    spaced b' ' (keyword_word TokenCode.pop)
    ∷ spaced b' ' (keyword_word (segment_code s))
    ∷ spaced newline (uint_word n)
    ∷ []
words_of (InstCode.goto s) =
    spaced b' ' (keyword_word TokenCode.goto) ∷ spaced newline (ident_word s) ∷ []
words_of (InstCode.if_goto s) =
    spaced b' ' (keyword_word TokenCode.if_goto) ∷ spaced newline (ident_word s) ∷ []
words_of (InstCode.call s n) =
    spaced b' ' (keyword_word TokenCode.call)
    ∷ spaced b' ' (ident_word s)
    ∷ spaced newline (uint_word n)
    ∷ []
words_of c = spaced newline (keyword_word (head_code c)) ∷ []

-- The instructions of a source file whose operands can be written in it.
abbrev pub IsWritable : InstCode → Type 0
IsWritable (InstCode.push s n) = n < 65536
IsWritable (InstCode.pop s n) = n < 65536
IsWritable (InstCode.goto s) = IsName s
IsWritable (InstCode.if_goto s) = IsName s
IsWritable (InstCode.call s n) = IsName s × (n < 65536)
IsWritable c = IsSource c

segs-strs : (s : Segment) → strs (segment_code s) ≡ segs s
segs-strs Segment.arg = refl
segs-strs Segment.loc = refl
segs-strs Segment.stat = refl
segs-strs Segment.const = refl
segs-strs Segment.this = refl
segs-strs Segment.that = refl
segs-strs Segment.ptr = refl
segs-strs Segment.tmp = refl

segment-IsKeyword : (s : Segment) → IsKeyword (segment_code s)
segment-IsKeyword Segment.arg = tt
segment-IsKeyword Segment.loc = tt
segment-IsKeyword Segment.stat = tt
segment-IsKeyword Segment.const = tt
segment-IsKeyword Segment.this = tt
segment-IsKeyword Segment.that = tt
segment-IsKeyword Segment.ptr = tt
segment-IsKeyword Segment.tmp = tt

segs-length : (s : Segment) → length (segs s) ≤ 8
segs-length s = ground arith

operand-length :
    (s : List ℕ) (n : ℕ) → n < 65536 → length (s ++ b' ' ∷ decimal 4 n []) ≤ length s + 6
operand-length s n h = omega (arith, length-append s (b' ' ∷ decimal 4 n []), decimal-short n h)

format-length : (c : InstCode) → IsWritable c → length (format c) ≤ inst_str_buf - 1
unfolding format
format-length (InstCode.push s n) h = omega (arith, operand-length (segs s) n h, segs-length s)
format-length (InstCode.pop s n) h = omega (arith, operand-length (segs s) n h, segs-length s)
format-length (InstCode.goto s) h = omega (arith, h.short)
format-length (InstCode.if_goto s) h = omega (arith, h.short)
format-length (InstCode.call s n) (h, k) = omega (arith, operand-length s n k, h.short)
format-length _ h = omega arith

-- A word with an operand behind it.
operand-written :
    (s : List ℕ) (n : ℕ) (rest : List ℕ)
    → s ++ (b' ' ∷ decimal 4 n [] ++ newline ∷ rest)
      ≡ (s ++ b' ' ∷ decimal 4 n []) ++ newline ∷ rest
operand-written s n rest = sym (append_assoc s (b' ' ∷ decimal 4 n []) (newline ∷ rest))

words_of-written :
    (c : InstCode) (ss : List Spaced)
    → IsWritable c
    → written (words_of c ++ ss) ≡ format c ++ newline ∷ written ss
unfolding format
words_of-written (InstCode.push s n) ss h =
    rw (segs-strs s) (ap (λ t. codes "push " ++ t) (operand-written (segs s) n (written ss)))
words_of-written (InstCode.pop s n) ss h =
    rw (segs-strs s) (ap (λ t. codes "pop " ++ t) (operand-written (segs s) n (written ss)))
words_of-written (InstCode.goto s) ss h = refl
words_of-written (InstCode.if_goto s) ss h = refl
words_of-written (InstCode.call s n) ss h =
    ap (λ t. codes "call " ++ t) (operand-written s n (written ss))
words_of-written InstCode.ic_none ss h = absurd h
words_of-written InstCode.builtin_print_char ss h = absurd h
words_of-written InstCode.builtin_print_num ss h = absurd h
words_of-written InstCode.builtin_print_str ss h = absurd h
words_of-written InstCode.builtin_read_char ss h = absurd h
words_of-written InstCode.builtin_read_num ss h = absurd h
words_of-written InstCode.builtin_read_str ss h = absurd h
words_of-written _ ss h = refl

abbrev pub words : List Inst → List Spaced
words [] = []
words (i ∷ is) = words_of i.code ++ words is

abbrev pub AreWritable : List Inst → Type 0
AreWritable [] = Unit
AreWritable (i ∷ is) = IsWritable i.code × AreWritable is

-- The text of a file is these words, with white space behind each of them.
pub words-source : (is : List Inst) → AreWritable is → written (words is) ≡ source is
unfolding inst_str
words-source [] a = refl
words-source (i ∷ is) (h, a) =
    words_of-written i.code (words is) h
    ∙ ap (λ t. format i.code ++ newline ∷ t) (words-source is a)
    ∙ ap (λ t. t ++ newline ∷ source is)
        (sym (take-all (inst_str_buf - 1) (format i.code) (format-length i.code h)))

words_of-AreSpaced :
    (c : InstCode) (ss : List Spaced) → IsWritable c → AreSpaced ss → AreSpaced (words_of c ++ ss)
unfolding is_space
words_of-AreSpaced (InstCode.push s n) ss h a =
    (tt, refl, tt, (segment-IsKeyword s, refl, tt, (h, refl, tt, a)))
words_of-AreSpaced (InstCode.pop s n) ss h a =
    (tt, refl, tt, (segment-IsKeyword s, refl, tt, (h, refl, tt, a)))
words_of-AreSpaced (InstCode.goto s) ss h a = (tt, refl, tt, (h, refl, tt, a))
words_of-AreSpaced (InstCode.if_goto s) ss h a = (tt, refl, tt, (h, refl, tt, a))
words_of-AreSpaced (InstCode.call s n) ss (h, k) a = (tt, refl, tt, (h, refl, tt, (k, refl, tt, a)))
words_of-AreSpaced InstCode.ic_none ss h a = absurd h
words_of-AreSpaced InstCode.builtin_print_char ss h a = absurd h
words_of-AreSpaced InstCode.builtin_print_num ss h a = absurd h
words_of-AreSpaced InstCode.builtin_print_str ss h a = absurd h
words_of-AreSpaced InstCode.builtin_read_char ss h a = absurd h
words_of-AreSpaced InstCode.builtin_read_num ss h a = absurd h
words_of-AreSpaced InstCode.builtin_read_str ss h a = absurd h
words_of-AreSpaced _ ss h a = (tt, refl, tt, a)

pub words-AreSpaced : (is : List Inst) → AreWritable is → AreSpaced (words is)
words-AreSpaced [] a = tt
words-AreSpaced (i ∷ is) (h, a) = words_of-AreSpaced i.code (words is) h (words-AreSpaced is a)
