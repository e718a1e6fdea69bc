-- ===== src/Assembly/Files.antt =====
-- src/prog.c: the files of a program.
use hvme.Prelude.{
  ℕ, suc, ◌+◌, ◌<◌, ◌≤◌, ◌≡◌, ◌∙◌, refl, sym, ap, true, false, Option, none, some, List, [], ◌∷◌,
  ◌++◌, ltb, ◌==◌, if◌then◌else◌, length, arith, le→not_ltb, Bool-cases, inl, inr, if-true,
  if-false, ◌&&◌, ◌-◌,
}
use hvme.Exec.{Run, ok, err, fault}
use hvme.Inst.{Ident, Inst, Pos}
use hvme.Heap.{new_heap, new_mem}
use hvme.Stack.{new_stack}
use hvme.Table.{SymbolTable, new_st}
use hvme.Console.{Io, newline, last_char}
use hvme.Program.{File}
use hvme.System.{init_system_file}
use hvme.Parse.{Parsed, parse}
use hvme.Scan.{Statics}
use hvme.Scan.Block.{Output, scan_blk}
use hvme.Scan.File.{Scanned, scan_ok, scan, end_line, max_token_len}
use hvme.Scan.Reading.{RegularFiles, scan-short}
use hvme.Source.{inst_str, source}
use hvme.Source.Spelled.{AreWritable}
use hvme.Source.Readback.{SameCodes, source-ReadBack}
use hvme.Assembly.{
  Sizes, Files, new_file, parse_file, with_file, after_file, new_prog, new_statics, proc_file,
  proc_files, make_prog,
}

last_char-append : (s t : List ℕ) (d : ℕ) → last_char (s ++ d ∷ t) ≡ last_char (d ∷ t)
unfolding last_char
last_char-append [] t d = refl
last_char-append (c ∷ []) t d = refl
last_char-append (c ∷ c' ∷ s) t d = last_char-append (c' ∷ s) t d

last_char-source : (is : List Inst) → last_char (newline ∷ source is) ≡ newline
unfolding last_char
last_char-source [] = refl
last_char-source (i ∷ is) =
    last_char-append (newline ∷ inst_str i) (source is) newline ∙ last_char-source is

-- Its last line needs no newline more.
end_line-source : (size : ℕ) (is : List Inst) → end_line size (source is) ≡ source is
unfolding end_line
end_line-source size [] = refl
end_line-source size (i ∷ is) =
    let ends : last_char (source (i ∷ is)) ≡ newline =
      last_char-append (inst_str i) (source is) newline ∙ last_char-source is in
    already (source (i ∷ is)) ends
  where
    already :
        (text : List ℕ)
        → last_char text ≡ newline
        → (if ltb 0 (length text) && ltb (length text) size
            then (if last_char text == newline then text else text ++ newline ∷ [])
            else text)
          ≡ text
    already text e =
        let same : (last_char text == newline) ≡ true = rw e refl in
        elim (Bool-cases (ltb 0 (length text) && ltb (length text) size)) [
          | inl t ↦ if-true _ _ t ∙ if-true _ _ same
          | inr t ↦ if-false _ _ t
        ]

proc_file-scan :
    {Fd : Type 0} (read : Fd → ℕ → Option (List ℕ × Fd)) (open_file : List ℕ → Option Fd)
    (z : Sizes) (fn : Ident) (v : Statics) (r : Scanned)
    → scan read z.fuel z.scan_block open_file fn v ≡ some r
    → proc_file read open_file z fn v ≡ parse_file z.st_block fn r
unfolding proc_file
proc_file-scan read open_file z fn v r e = goes e
  where
    goes :
        {m : Option Scanned}
        → m ≡ some r
        → (elim m [ none ↦ none | some r ↦ parse_file z.st_block fn r ])
          ≡ parse_file z.st_block fn r
    goes e = rw e refl

parse_file-parse :
    (st_block : ℕ) (fn : Ident) (pos : Pos) (o : Output) (r : Parsed (List Inst × SymbolTable))
    → parse st_block o.cells [] (new_st st_block) ≡ some r
    → parse_file st_block fn (scan_ok pos o) ≡ some (new_file fn r o.vars)
unfolding parse_file
parse_file-parse st_block fn pos o r e = goes e
  where
    goes :
        {m : Option (Parsed (List Inst × SymbolTable))}
        → m ≡ some r
        → (elim m [ none ↦ none | some r ↦ some (new_file fn r o.vars) ])
          ≡ some (new_file fn r o.vars)
    goes e = rw e refl

-- The next name, when its file and the ones behind it are made.
proc_files-next :
    {Fd : Type 0} (read : Fd → ℕ → Option (List ℕ × Fd)) (open_file : List ℕ → Option Fd)
    (z : Sizes) (fn : Ident) (fns : List Ident) (v v' : Statics) (f : File) (fs : List File)
    → 3 ≤ length fn
    → proc_file read open_file z fn v ≡ some (ok (some (f, v')))
    → proc_files read open_file z fns v' ≡ some (ok (some fs))
    → proc_files read open_file z (fn ∷ fns) v ≡ some (ok (some (f ∷ fs)))
unfolding proc_files
proc_files-next read open_file z fn fns v v' f fs long run rest =
    named
      (λ ext. after_file (proc_file read open_file z fn v) (λ w. proc_files read open_file z fns w))
      (if-false _ _ (le→not_ltb (length fn) 3 long))
    ∙ ap (λ m. after_file m (λ w. proc_files read open_file z fns w)) run
    ∙ behind rest
  where
    named :
        {ext : List ℕ} {m : Run Statics (List ℕ)} (next : List ℕ → Option Files)
        → m ≡ ok ext
        → (elim m [
          | fault u ↦ some (fault u)
          | err e w ↦ some (err e w)
          | ok compare ↦ next compare
        ])
          ≡ next ext
    named next e = rw e refl

    behind :
        {m : Option Files}
        → m ≡ some (ok (some fs))
        → (elim m [ none ↦ none | some r ↦ some (with_file f r) ]) ≡ some (ok (some (f ∷ fs)))
    behind e = rw e refl

make_prog-files :
    {Fd : Type 0} (read : Fd → ℕ → Option (List ℕ × Fd)) (open_file : List ℕ → Option Fd)
    (z : Sizes) (fns : List Ident) (io : Io) (sys : File) (fs : List File)
    → init_system_file z.st_block ≡ ok sys
    → proc_files read open_file z fns new_statics ≡ some (ok (some fs))
    → make_prog read open_file z fns io ≡ some (new_prog z io sys (ok (some fs)))
unfolding make_prog
make_prog-files read open_file z fns io sys fs made run = goes made run
  where
    goes :
        {s : Run File File} {m : Option Files}
        → s ≡ ok sys
        → m ≡ some (ok (some fs))
        → (elim s [
          | err e f ↦ some (err e new_statics)
          | fault u ↦ some (fault u)
          | ok sys ↦ elim m [ none ↦ none | some r ↦ some (new_prog z io sys r) ]
        ])
          ≡ some (new_prog z io sys (ok (some fs)))
    goes a b = rw (a, b) refl

-- The parts of a file that come from its source.
pub record IsFileOf (st_block : ℕ) (fn : Ident) (is : List Inst) (f : File) : Type 0 where
  pub filename : f.filename ≡ fn
  pub insts : SameCodes is f.insts
  pub st : f.st ≡ record (new_st st_block) { num_inst = (new_st st_block).num_inst + length is }
  pub ei : f.ei ≡ 0

module _ {Fd : Type 0} (read : Fd → ℕ → Option (List ℕ × Fd)) (regular : RegularFiles read)
    (open_file : List ℕ → Option Fd) (z : Sizes) (some_fuel : 0 < z.fuel)
    (wide : max_token_len ≤ z.scan_block) where
  -- If a block of the scanner can hold the longest token, a regular file that is shorter than a
  -- block, and holds the text of instructions that can be written, with names that start with no
  -- keyword, gives, outside of a comment and with fuel for a round, a file with these instructions
  -- and no symbols, and leaves the scanner outside of comments.
  pub proc_file-source :
      (fn : Ident) (is : List Inst) (fd : Fd) (v : Statics)
      → AreWritable is
      → v.inside_comment ≡ false
      → open_file fn ≡ some fd
      → regular.Holds fd (source is)
      → length (source is) < z.scan_block
      → (f : File) × (v' : Statics) × (proc_file read open_file z fn v ≡ some (ok (some (f, v'))))
        × (v'.inside_comment ≡ false)
        × IsFileOf z.st_block fn is f
  proc_file-source fn is fd v a outside opens holds short =
      let start : Pos = record { ln = 0; cl = 0 } in
      let back = source-ReadBack z.st_block is (new_st z.st_block) start v a outside in
      let out : Output = record { cells = back.tokens; vars = back.vars } in
      let enough : suc (z.fuel - 1) ≡ z.fuel = omega arith in
      let text = end_line-source z.scan_block is in
      let scanned : scan read z.fuel z.scan_block open_file fn v ≡ some (scan_ok back.end out) =
        ap (λ k. scan read k z.scan_block open_file fn v) (sym enough)
        ∙ scan-short read regular (z.fuel - 1) z.scan_block open_file fn (source is) fd v back.end
            out opens holds wide short
            (ap (λ t. scan_blk (length t) t start (record { cells = []; vars = v })) text
              ∙ back.scanned) in
      let st = record (new_st z.st_block) { num_inst = (new_st z.st_block).num_inst + length is } in
      let f : File = record { filename = fn; st = st; insts = back.insts; mem = new_mem; ei = 0 } in
      (
        f,
        back.vars,
        proc_file-scan read open_file z fn v _ scanned
            ∙ parse_file-parse z.st_block fn back.end out _ back.parsed_back,
        back.outside,
        record { filename = refl; insts = back.same; st = refl; ei = refl },
      )

  -- A name, the instructions in its file, and the file once it is open.
  pub record SourceFile : Type 0 where
    pub fn : Ident
    pub is : List Inst
    pub fd : Fd
    pub long_name : 3 ≤ length fn
    pub writable : AreWritable is
    pub opens : open_file fn ≡ some fd
    pub holds : regular.Holds fd (source is)
    pub short : length (source is) < z.scan_block

  abbrev pub names : List SourceFile → List Ident
  names [] = []
  names (s ∷ ss) = s.fn ∷ names ss

  abbrev pub AreFilesOf : List SourceFile → List File → Type 0
  AreFilesOf [] [] = Unit
  AreFilesOf [] (f ∷ fs) = ⊥
  AreFilesOf (s ∷ ss) [] = ⊥
  AreFilesOf (s ∷ ss) (f ∷ fs) = IsFileOf z.st_block s.fn s.is f × AreFilesOf ss fs

  proc_files-source :
      (ss : List SourceFile) (v : Statics)
      → v.inside_comment ≡ false
      → (fs : List File) × (proc_files read open_file z (names ss) v ≡ some (ok (some fs)))
        × AreFilesOf ss fs
  unfolding proc_files
  proc_files-source [] v outside = ([], refl, tt)
  proc_files-source (s ∷ ss) v outside =
      let (f, v', run, out, here) =
        proc_file-source s.fn s.is s.fd v s.writable outside s.opens s.holds s.short in
      let (fs, rest, there) = proc_files-source ss v' out in
      (
        f ∷ fs,
        proc_files-next read open_file z s.fn (names ss) v v' f fs s.long_name run rest,
        (here, there),
      )

  -- If a block of the scanner can hold the longest token and there is fuel for a round, the names,
  -- of three characters at least, of regular files with such texts, each shorter than a block, make a
  -- program of the system file and the files of these instructions, in the order of the names, with
  -- an empty stack and heap; the first file is active.
  pub make_prog-source :
      (ss : List SourceFile) (io : Io) (sys : File)
      → init_system_file z.st_block ≡ ok sys
      → (fs : List File) × (make_prog read open_file z (names ss) io
          ≡ some (
              ok (
                some (record {
                  files = sys ∷ fs;
                  fi = 0;
                  heap = new_heap;
                  stack = new_stack z.stack_block;
                  io = io;
                }))))
        × AreFilesOf ss fs
  make_prog-source ss io sys made =
      let (fs, run, all) = proc_files-source ss new_statics refl in
      (fs, make_prog-files read open_file z (names ss) io sys fs made run, all)
