-- ===== src/Exec.antt =====
-- src/exec.c: how an instruction ends. `setjmp` and `longjmp` with the error macros are the
-- case `err`, which keeps the state that the error leaves behind; undefined behaviour and a
-- failed `assert` are the case `fault`.
use hvme.Prelude.{ℕ, List, ◌≡◌, refl, subst, Bool, true, false, if◌then◌else◌, Option, none, some}

-- The errors that the macros report, with the numbers in their messages.
pub data Error : Type 0 where
  stack_underflow : Error
  pointer_segment : ℕ → Error
  heap_addr_overflow : ℕ → Error
  stack_addr_overflow : ℕ → ℕ → Error
  seg_overflow : ℕ → Error
  add_overflow : ℕ → ℕ → ℕ → Error
  sub_underflow : ℕ → ℕ → Error
  ctrl_flow : List ℕ → Error
  nargs_error : ℕ → ℕ → Error
  read_io : Error
  mult_def : List ℕ → Error
  read_num_char : Error
  read_num_overflow : ℕ → Error
  invalid_inst : Error

-- What C leaves undefined, and what aborts the process.
pub data Fault : Type 0 where
  out_of_bounds : Fault
  uninitialised : Fault
  assertion : Fault
  conversion : Fault
  endless : Fault
  overlap : Fault

-- A call that may change a state `S` returns the new state within `A`.
pub data Run (S A : Type 0) : Type 0 where
  ok : A → Run S A
  err : Error → S → Run S A
  fault : Fault → Run S A

infixl 5 ◌>>=◌
abbrev pub ◌>>=◌ : {S A B : Type 0} → Run S A → (A → Run S B) → Run S B
ok a >>= f = f a
err e t >>= f = err e t
fault u >>= f = fault u

-- A call that is handed a part `T` of the state: on an error, `put` writes that part back.
abbrev pub within : {S T A : Type 0} → (T → S) → Run T A → Run S A
within put (ok a) = ok a
within put (err e t) = err e (put t)
within put (fault u) = fault u

-- A run that gets through a call got a value from that call.
pub through-ok :
    {S A B : Type 0} {next : A → Run S B} {r : B} (call : Run S A)
    → call >>= next ≡ ok r
    → (v : A) × (call ≡ ok v) × (next v ≡ ok r)
through-ok (fault u) run = cc
through-ok (err e t) run = cc
through-ok (ok v) run = (v, refl, run)

-- `m` ends without a fault; its value, if it has one, satisfies `P`.
abbrev pub Ends : {S A : Type 0} → (A → Type 0) → Run S A → Type 0
Ends P (ok a) = P a
Ends P (err e t) = Unit
Ends P (fault u) = ⊥

pub Ends-bind :
    {S A B : Type 0} (P : A → Type 0) (Q : B → Type 0) (m : Run S A) (f : A → Run S B)
    → Ends P m
    → ((a : A) → P a → Ends Q (f a))
    → Ends Q (m >>= f)
Ends-bind P Q (ok a) f h k = k a h
Ends-bind P Q (err e t) f h k = tt
Ends-bind P Q (fault u) f h k = absurd h

pub Ends-within :
    {S T A : Type 0} (P : A → Type 0) (put : T → S) (m : Run T A) → Ends P m → Ends P (within put m)
Ends-within P put (ok a) h = h
Ends-within P put (err e t) h = tt
Ends-within P put (fault u) h = absurd h

pub Ends-if :
    {S A : Type 0} (P : A → Type 0) (c : Bool) (m n : Run S A)
    → (c ≡ true → Ends P m)
    → (c ≡ false → Ends P n)
    → Ends P (if c then m else n)
Ends-if P true m n h k = h refl
Ends-if P false m n h k = k refl

pub Ends-weaken :
    {S A : Type 0} (P Q : A → Type 0) (m : Run S A) → Ends P m → ((a : A) → P a → Q a) → Ends Q m
Ends-weaken P Q (ok a) h k = k a h
Ends-weaken P Q (err e t) h k = tt
Ends-weaken P Q (fault u) h k = absurd h

pub Ends-option :
    {S A B : Type 0} (P : A → Type 0) (o : Option B) (m : Run S A) (f : B → Run S A)
    → (o ≡ none → Ends P m)
    → ((b : B) → o ≡ some b → Ends P (f b))
    → Ends P (elim o [ none ↦ m | some b ↦ f b ])
Ends-option P none m f h k = h refl
Ends-option P (some b) m f h k = k b refl

-- The value of `m`, if it has one, satisfies `P`.
abbrev pub Gives : {S A : Type 0} → (A → Type 0) → Run S A → Type 0
Gives P (ok a) = P a
Gives P (err e t) = Unit
Gives P (fault u) = Unit

pub Gives-bind :
    {S A B : Type 0} (P : A → Type 0) (Q : B → Type 0) (m : Run S A) (f : A → Run S B)
    → Gives P m
    → ((a : A) → P a → Gives Q (f a))
    → Gives Q (m >>= f)
Gives-bind P Q (ok a) f h k = k a h
Gives-bind P Q (err e t) f h k = tt
Gives-bind P Q (fault u) f h k = tt

pub Gives-all : {S A : Type 0} (P : A → Type 0) (m : Run S A) → ((a : A) → P a) → Gives P m
Gives-all P (ok a) k = k a
Gives-all P (err e t) k = tt
Gives-all P (fault u) k = tt

pub Gives-weaken :
    {S A : Type 0} (P Q : A → Type 0) (m : Run S A) → Gives P m → ((a : A) → P a → Q a) → Gives Q m
Gives-weaken P Q (ok a) h k = k a h
Gives-weaken P Q (err e t) h k = tt
Gives-weaken P Q (fault u) h k = tt

pub Gives-ok : {S A : Type 0} (P : A → Type 0) {m : Run S A} {a : A} → m ≡ ok a → Gives P m → P a
Gives-ok P e h = subst (Gives P) e h

pub Ends-ok : {S A : Type 0} (P : A → Type 0) {m : Run S A} {a : A} → m ≡ ok a → Ends P m → P a
Ends-ok P e h = subst (Ends P) e h

pub Gives-within :
    {S T A : Type 0} (P : A → Type 0) (put : T → S) (m : Run T A)
    → Gives P m
    → Gives P (within put m)
Gives-within P put (ok a) h = h
Gives-within P put (err e t) h = tt
Gives-within P put (fault u) h = tt

pub Gives-both :
    {S A : Type 0} (P Q R : A → Type 0) (m : Run S A)
    → Gives P m
    → Gives Q m
    → ((a : A) → P a → Q a → R a)
    → Gives R m
Gives-both P Q R (ok a) h k both = both a h k
Gives-both P Q R (err e t) h k both = tt
Gives-both P Q R (fault u) h k both = tt

-- `m` reports no error.
abbrev pub Errless : {S A : Type 0} → Run S A → Type 0
Errless (ok a) = Unit
Errless (err e t) = ⊥
Errless (fault u) = Unit

pub Errless-bind :
    {S A B : Type 0} (m : Run S A) (f : A → Run S B)
    → Errless m
    → ((a : A) → Errless (f a))
    → Errless (m >>= f)
Errless-bind (ok a) f h k = k a
Errless-bind (err e t) f h k = absurd h
Errless-bind (fault u) f h k = tt
