-- ===== src/Message.antt =====
-- src/msg.c: the messages and warnings on the standard error. What `getenv(NO_COLOR)` returns is an
-- argument, and so is the file name of a position. Numbers are those of `%d` and `%lu`.
use hvme.Prelude.{
  ℕ, ◌+◌, ◌-◌, Bool, true, false, Option, none, some, List, [], ◌∷◌, ◌++◌, ltb, if◌then◌else◌,
  length, take, drop,
}
use hvme.Text.{codes}
use hvme.Exec.{Run, ok, fault, out_of_bounds}
use hvme.Inst.{Ident, Pos}
use hvme.Console.{Io, newline, decimal, clean_stdout}
use hvme.Table.{SymKeyType, SymKey, SymVal, label, func, unused, str_eq}

pub record Streams : Type 0 where
  pub io : Io
  pub stderr : List ℕ

abbrev pub print_buf_size : ℕ
print_buf_size = 1024

-- `hvme_fputs(s, stderr)`
unfoldable pub fputs_err : List ℕ → Streams → Streams
fputs_err s t = record t { stderr = t.stderr ++ s }

-- `hvme_fprintf` to the standard error: a text that does not fit the buffer is not printed.
unfoldable pub fprintf_err : List ℕ → Streams → Streams
unfolding fputs_err
fprintf_err s t = if ltb (print_buf_size - 1) (length s) then t else fputs_err s t

-- The start of an escape sequence.
abbrev pub escape : ℕ
escape = 27

-- `no_color != NULL && no_color[0] != '\0'`
abbrev pub is_plain : Option (List ℕ) → Bool
is_plain none = false
is_plain (some []) = false
is_plain (some (c ∷ s)) = true

-- `err_init`
abbrev pub err_init : Option (List ℕ) → List ℕ
err_init no_color =
    if is_plain no_color
    then codes "Error"
    else escape ∷ (codes "[31mError" ++ escape ∷ codes "[0m")

-- `%d` of an `unsigned int` that an `int` can hold, and `%lu` of a `size_t`
abbrev pub print_int : ℕ → List ℕ
print_int n = decimal 9 n []

abbrev pub print_size : ℕ → List ℕ
print_size n = decimal 19 n []

-- The file name of a position, if there is one.
abbrev pub place_of : Option Ident → List ℕ
place_of none = []
place_of (some filename) = filename ++ codes ":"

unfoldable pub init_perr : Option (List ℕ) → Option Ident → Pos → Streams → Streams
unfolding fprintf_err decimal
init_perr no_color filename pos = fprintf_err (
    err_init no_color
    ++ (codes " ("
        ++ (place_of filename
            ++ (print_int (pos.ln + 1)
                ++ (codes ":"
                    ++ (print_int (pos.cl + 1) ++ (codes "):" ++ escape ∷ codes "[0m ")))))))

-- `clean_stdout()`
abbrev pub clean : Streams → Streams
clean t = record t { io = clean_stdout t.io }

-- `perrf` with the text that `vfprintf` makes, which has no limit, and `perr`
unfoldable pub perrf : Option (List ℕ) → Option Ident → Pos → List ℕ → Streams → Streams
unfolding init_perr fputs_err fprintf_err
perrf no_color filename pos msg t =
    fprintf_err (newline ∷ []) (fputs_err msg (init_perr no_color filename pos (clean t)))

unfoldable pub perr : Option (List ℕ) → Option Ident → Pos → List ℕ → Streams → Streams
unfolding init_perr fputs_err
perr no_color filename pos msg t =
    fputs_err (newline ∷ []) (fputs_err msg (init_perr no_color filename pos (clean t)))

unfoldable pub err : Option (List ℕ) → List ℕ → Streams → Streams
unfolding fprintf_err
err no_color msg t =
    fprintf_err (err_init no_color ++ (codes " " ++ (msg ++ newline ∷ []))) (clean t)

unfoldable pub init_warn : Option (List ℕ) → Streams → Streams
unfolding fprintf_err
init_warn no_color = fprintf_err (
    if is_plain no_color
    then codes "Warn: "
    else escape ∷ (codes "[33mWarn:" ++ escape ∷ codes "[0m "))

-- The first character is a tab.
unfoldable pub hint_indicator : Option (List ℕ) → Streams → Streams
unfolding fprintf_err
hint_indicator no_color = fprintf_err (
    if is_plain no_color
    then 9 ∷ codes "-> "
    else 9 ∷ escape ∷ (codes "[34;3m->" ++ escape ∷ codes "[m "))

-- A warning of two lines.
warn_with_hint : Option (List ℕ) → List ℕ → List ℕ → Streams → Streams
unfolding init_warn hint_indicator fprintf_err
warn_with_hint no_color what hint t =
    fprintf_err (hint ++ newline ∷ [])
      (hint_indicator no_color (fprintf_err (what ++ newline ∷ []) (init_warn no_color t)))

unfoldable pub warn_eof_nl : Option (List ℕ) → Streams → Streams
unfolding warn_with_hint
warn_eof_nl no_color =
    warn_with_hint no_color (codes "no trailing newline at end of file.")
      (codes "Automatically adding newline after the last character")

unfoldable pub warn_sat_uilit : Option (List ℕ) → ℕ → Streams → Streams
unfolding warn_with_hint decimal
warn_sat_uilit no_color lit =
    warn_with_hint no_color
      (codes "`" ++ (print_int lit ++ codes "` exceeds the range possible 16-bit numbers."))
      (codes "Saturating to maximum value 65535")

-- `blk` is what is left of the block; it has more characters than `len`.
unfoldable pub warn_trunc_ident : Option (List ℕ) → List ℕ → ℕ → ℕ → Streams → Streams
unfolding warn_with_hint decimal
warn_trunc_ident no_color blk len max =
    warn_with_hint no_color
      (codes "`" ++ (take len blk ++ codes "` is too long to be an identifier."))
      (codes "It's truncated to `"
        ++ (take max blk ++ (codes "` (" ++ (print_size max ++ codes " chars)"))))

-- src/st.c
abbrev pub key_type_name : SymKeyType → List ℕ
key_type_name label = codes "label"
key_type_name func = codes "function"
key_type_name unused = codes "unused symbol"

unfoldable pub warn_no_st : Option (List ℕ) → SymKey → SymVal → Streams → Streams
unfolding warn_with_hint decimal
warn_no_st no_color key val = warn_with_hint no_color (codes "symbol table doesn't exists.") (
    codes "Can't enter "
    ++ (key_type_name key.type
        ++ (codes " `"
            ++ (key.ident
                ++ (codes "` starting at instruction " ++ print_size (val.inst_addr + 1))))))

-- The last three characters of a name; the place before its start is out of bounds.
abbrev pub file_ext : {S : Type 0} → Ident → Run S (List ℕ)
file_ext filename =
    if ltb (length filename) 3
    then fault out_of_bounds
    else ok (drop (length filename - 3) filename)

unfoldable pub warn_file_ext : Option (List ℕ) → Ident → Streams → Run Streams Streams
unfolding init_warn fprintf_err str_eq
warn_file_ext no_color filename t = elim (file_ext filename) [
  | fault u ↦ fault u
  | Run.err e w ↦ Run.err e w
  | ok compare ↦ ok (
      if str_eq compare (codes ".vm")
      then t
      else fprintf_err
          (codes "file name `" ++ (filename ++ (codes "` doesn't end with `.vm`" ++ newline ∷ [])))
          (init_warn no_color t))
]
