-- ===== src/Tests/Scans.antt =====
-- The theorems on the scanner, on texts written back and on programs made of files, at small inputs.
use hvme.Prelude.{
  ℕ, suc, ◌+◌, ◌%◌, ◌^◌, ◌<◌, ◌≡◌, refl, Option, some, List, [], ◌∷◌, ◌++◌, take, drop, length,
  replicate, false, arith, ap,
}
use hvme.Exec.{ok, err, fault}
use hvme.Text.{codes}
use hvme.Inst.{Inst, InstCode, Segment, Pos}
use hvme.Token.{TokenCode}
use hvme.Console.{Io, is_space, is_alpha, is_digit, newline, decimal}
use hvme.Heap.{new_heap}
use hvme.Stack.{new_stack}
use hvme.Table.{
  new_st, insert_st, probe_both, probe, delim_hash, djb2hash_key, log2, log2_fuel, keys_are_eq,
}
use hvme.Program.{File}
use hvme.System.{init_system_file, empty_file, enter_builtin, add_bii}
use hvme.Scan.{Statics, is_ident_start, is_ident_char, max_ident_len, starts_with}
use hvme.Scan.Block.{Output, scan_blk, eat_ws_from}
use hvme.Scan.Progress.{Leaves, scan_blk-ends}
use hvme.Scan.Comments.{scan_blk-comment}
use hvme.Scan.Keywords.{strs}
use hvme.Scan.Prefix.{scan_blk-keyword}
use hvme.Scan.Split.{Continues, scan_blk-Continues}
use hvme.Scan.Agree.{Agrees}
use hvme.Scan.Pieces.{scan-Agrees}
use hvme.Scan.Fits.{FitsOutput, scan_blk-FitsOutput}
use hvme.Scan.Words.{keyword_word, uint_word, ident_word, IsName}
use hvme.Scan.Written.{Spaced, written, Scans, scan_blk-written}
use hvme.Scan.File.{Scanned, scan}
use hvme.Scan.Reading.{RegularFiles, scan-ends}
use hvme.Source.{inst_str, source, format}
use hvme.Source.Readback.{ReadBack, source-ReadBack}
use hvme.Assembly.{Sizes, new_statics, proc_file, make_prog}
use hvme.Assembly.Files.{IsFileOf, SourceFile, AreFilesOf, proc_file-source, make_prog-source}

abbrev start : Pos
start = record { ln = 0; cl = 0 }

abbrev no_tokens : Output
no_tokens = record { cells = []; vars = new_statics }

abbrev popular : List ℕ
popular = codes "popular 1\n"

scan_blk-ends_example :
    (q : Option ℕ × Pos × Output) × (scan_blk (length popular) popular start no_tokens ≡ some q)
    × Leaves popular q.0
scan_blk-ends_example = scan_blk-ends popular start no_tokens

scan_blk-comment_example :
    (pos : Pos) × (scan_blk
        (length (codes "pop") + suc (suc 0))
        (codes "//" ++ ((newline ∷ []) ++ (codes "pop" ++ newline ∷ [])))
        start
        no_tokens
      ≡ scan_blk 0 [] pos no_tokens)
unfolding is_space
scan_blk-comment_example =
    scan_blk-comment 0 b'p' (newline ∷ []) (codes "op") [] start no_tokens refl (refl, tt) refl
      (refl, (refl, (refl, tt)))

scan_blk-keyword_example :
    (let next =
        eat_ws_from
          (codes "ular 1\n")
          (record { ln = 0; cl = (0 + length (strs TokenCode.pop)) % 2 ^ 32 }) in
      scan_blk (suc 1) (strs TokenCode.pop ++ codes "ular 1\n") start no_tokens
      ≡ scan_blk 1 next.text next.pos (record {
        cells = [] ++ record { t = TokenCode.pop; pos = start; uilit = 0; ident = [] } ∷ [];
        vars = record new_statics { uilit = 0; ident_buf = replicate max_ident_len b' ' };
      }))
scan_blk-keyword_example =
    scan_blk-keyword 1 TokenCode.pop (codes "ular 1\n") start no_tokens tt refl

scan_blk-FitsOutput_example :
    (r : Option ℕ) × (end : Pos) × (o' : Output) × (scan_blk
        (length popular)
        popular
        start
        no_tokens
      ≡ some (r, end, o'))
    × FitsOutput o'
scan_blk-FitsOutput_example =
    scan_blk-FitsOutput popular start no_tokens
      (record { cells = tt; vars = record { number = omega arith; name = omega arith } })

loop-IsName : IsName (codes "LOOP")
unfolding is_ident_start is_ident_char is_alpha is_digit starts_with
loop-IsName = record {
  chars = (refl, (refl, (refl, (refl, tt))));
  short = omega arith;
  no_memory = search;
  no_control = search;
}

abbrev goto_words : List Spaced
goto_words =
    record { word = keyword_word TokenCode.goto; blank = b' '; gap = [] }
    ∷ record { word = ident_word (codes "LOOP"); blank = newline; gap = b' ' ∷ [] }
    ∷ record { word = uint_word 17; blank = newline; gap = [] }
    ∷ []

scan_blk-written_example : Scans goto_words 3 (written goto_words) start no_tokens
unfolding is_space
scan_blk-written_example =
    scan_blk-written 3 goto_words start no_tokens
      (tt, refl, tt, (loop-IsName, refl, (refl, tt), (omega arith, refl, tt, tt))) refl
      (omega arith)

abbrev insts : List Inst
insts =
    record { code = InstCode.push Segment.const 3; pos = start }
    ∷ record { code = InstCode.not; pos = start }
    ∷ record { code = InstCode.call (codes "LOOP") 1; pos = start }
    ∷ []

source-ReadBack_example : ReadBack 4 insts (new_st 4) start new_statics
source-ReadBack_example =
    source-ReadBack 4 insts (new_st 4) start new_statics
      (omega arith, (tt, ((loop-IsName, omega arith), tt))) refl

-- It has more than a block of 24 characters, and a token that is cut by its end.
abbrev long_text : List ℕ
long_text = codes "push constant 7\npop local 1\nadd\n"

-- Files that hold their own rest.
abbrev read : List ℕ → ℕ → Option (List ℕ × List ℕ)
read fd n = some (take n fd, drop n fd)

abbrev regular : RegularFiles read
regular = record {
  Holds = λ fd s. fd ≡ s;
  reads = λ fd s n h. (drop n fd, ap (λ t. some (take n t, drop n fd)) h, ap (drop n) h);
}

abbrev open_file : List ℕ → Option (List ℕ)
open_file fn = some (source insts)

scan-ends_example :
    (r : Scanned) × (scan read
        (suc (length long_text))
        24
        (λ fn. some long_text)
        (codes "a.vm")
        new_statics
      ≡ some r)
scan-ends_example =
    scan-ends read regular 24 (omega arith) (λ fn. some long_text) (codes "a.vm") long_text
      long_text new_statics refl refl

abbrev sizes : Sizes
sizes = record { fuel = 2; scan_block = 64; st_block = 4; stack_block = 2 }

source-length : length (source insts) < 64
unfolding inst_str format decimal
source-length = omega arith

proc_file-source_example :
    (f : File) × (v' : Statics) × (proc_file read open_file sizes (codes "a.vm") new_statics
      ≡ some (ok (some (f, v'))))
    × (v'.inside_comment ≡ false)
    × IsFileOf 4 (codes "a.vm") insts f
proc_file-source_example =
    proc_file-source read regular open_file sizes (omega arith) (omega arith) (codes "a.vm") insts
      (source insts) new_statics (omega arith, (tt, ((loop-IsName, omega arith), tt))) refl refl
      refl source-length

abbrev sources : List (SourceFile read regular open_file sizes (omega arith) (omega arith))
sources =
    record {
      fn = codes "a.vm";
      is = insts;
      fd = source insts;
      long_name = omega arith;
      writable = (omega arith, (tt, ((loop-IsName, omega arith), tt)));
      opens = refl;
      holds = refl;
      short = source-length;
    }
    ∷ []

abbrev streams : Io
streams = record { stdin = []; stdout = []; last_stdout = 0 }

abbrev system : File
system = elim (init_system_file 4) [ ok f ↦ f | err e f ↦ f | fault u ↦ empty_file 4 ]

system_made : init_system_file 4 ≡ ok system
unfolding init_system_file enter_builtin insert_st probe_both probe new_st delim_hash djb2hash_key
    log2 log2_fuel add_bii keys_are_eq
system_made = refl

make_prog-source_example :
    (fs : List File) × (make_prog read open_file sizes (codes "a.vm" ∷ []) streams
      ≡ some (
          ok (
            some (record {
              files = system ∷ fs;
              fi = 0;
              heap = new_heap;
              stack = new_stack 2;
              io = streams;
            }))))
    × AreFilesOf read regular open_file sizes (omega arith) (omega arith) sources fs
make_prog-source_example =
    make_prog-source read regular open_file sizes (omega arith) (omega arith) sources streams system
      system_made

scan_blk-Continues_example :
    (q : Option ℕ × Pos × Output) × (scan_blk
        (length (codes "goto LO"))
        (codes "goto LO")
        start
        no_tokens
      ≡ some q)
    × Continues (codes "goto LO") (codes "OP\n") start no_tokens q
scan_blk-Continues_example = scan_blk-Continues (codes "goto LO") (codes "OP\n") start no_tokens

scan-Agrees_example :
    (r : Scanned) × (scan read
        (suc (length long_text))
        24
        (λ fn. some long_text)
        (codes "a.vm")
        new_statics
      ≡ some r)
    × Agrees long_text start no_tokens r
scan-Agrees_example =
    scan-Agrees read regular 24 (omega arith) (λ fn. some long_text) (codes "a.vm") long_text
      long_text new_statics refl refl
      (
        refl,
        (
          refl,
          (
            refl,
            (
              refl,
              (
                refl,
                (
                  refl,
                  (
                    refl,
                    (
                      refl,
                      (
                        refl,
                        (
                          refl,
                          (
                            refl,
                            (
                              refl,
                              (
                                refl,
                                (
                                  refl,
                                  (
                                    refl,
                                    (
                                      refl,
                                      (
                                        refl,
                                        (
                                          refl,
                                          (
                                            refl,
                                            (
                                              refl,
                                              (
                                                refl,
                                                (
                                                  refl,
                                                  (
                                                    refl,
                                                    (
                                                      refl,
                                                      (
                                                        refl,
                                                        (
                                                          refl,
                                                          (
                                                            refl,
                                                            (
                                                            refl,
                                                            (refl, (refl, (refl, (refl, tt)))),
                                                            ),
                                                          ),
                                                        ),
                                                      ),
                                                    ),
                                                  ),
                                                ),
                                              ),
                                            ),
                                          ),
                                        ),
                                      ),
                                    ),
                                  ),
                                ),
                              ),
                            ),
                          ),
                        ),
                      ),
                    ),
                  ),
                ),
              ),
            ),
          ),
        ),
      )
      refl
