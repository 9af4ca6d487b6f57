-- ===== src/Base/Exception.antt =====
-- Python's exceptions as values: a pure call that may raise is a `Result`, a method that also
-- writes state is an `Action`, which keeps what was written before the raise.
use mathlib.Core.Path.{◌≡◌, refl}
use mathlib.Core.Bool.{Bool, true, false}
use mathlib.Core.Option.{Option, none, some}
use mathlib.Core.List.{List, [], ◌∷◌}

-- The classes of exception that the modelled code meets.
pub data Error : Type 0 where
  value_error struct_error type_error key_error overflow_error index_error runtime_error
        attribute_error database_error connection_error assertion_error :
      Error

-- What a call leaves: its value, or the exception that it raised.
pub data Result {ℓ} (X : Type ℓ) : Type ℓ where
  ok : (value : X) → Result X
  err : (raised : Error) → Result X

-- `if not holds: raise error`
abbrev pub guard : (holds : Bool) (error : Error) → Result (Unit {0})
guard false error = err error
guard true error = ok tt

-- The value of a lookup, or the exception that a missing one raises.
abbrev pub or_raise {ℓ} : {X : Type ℓ} → Option X → Error → Result X
or_raise (some x) error = ok x
or_raise none error = err error

module _ {ℓ κ} {X : Type ℓ} {Y : Type κ} where
  infixl 5 ◌>>=◌
  -- The next statement, with the value of this one.
  abbrev pub ◌>>=◌ : (call : Result X) (next : X → Result Y) → Result Y
  err raised >>= next = err raised
  ok x >>= next = next x

  -- What a block of two statements that did not raise has gone through.
  pub >>=-eq-ok :
      (call : Result X) (next : X → Result Y) {y : Y}
      → (call >>= next) ≡ ok y
      → (x : X) × (call ≡ ok x) × (next x ≡ ok y)
  >>=-eq-ok (err raised) next returned = cc
  >>=-eq-ok (ok x) next returned = (x, refl, returned)

infixl 5 ◌>>◌
-- The same for a statement without a value.
abbrev pub ◌>>◌ {κ} : {Y : Type κ} → Result (Unit {0}) → Result Y → Result Y
call >> next = call >>= λ none_value. next

-- A list comprehension whose body may raise.
abbrev pub traverse {ℓ κ} : {A : Type ℓ} {B : Type κ} → (A → Result B) → List A → Result (List B)
traverse f [] = ok []
traverse f (x ∷ xs) = f x >>= λ y. traverse f xs >>= λ ys. ok (y ∷ ys)

module _ {ℓ κ} {A : Type ℓ} {B : Type κ} (f : A → Result B) where
  -- A comprehension over a non-empty list that succeeds.
  pub traverse-cons :
      (x : A) (xs : List A) {ids : List B}
      → traverse f (x ∷ xs) ≡ ok ids
      → (y : B) × (ys : List B) × (f x ≡ ok y) × (traverse f xs ≡ ok ys) × (y ∷ ys ≡ ids)
  traverse-cons x xs h =
      let (y, first, rest) = >>=-eq-ok (f x) (λ y. traverse f xs >>= λ ys. ok (y ∷ ys)) h in
      let (ys, others, whole) = >>=-eq-ok (traverse f xs) (λ ys. ok (y ∷ ys)) rest in
      (y, ys, first, others, cc)

  pub traverse-of_parts :
      (x : A) (xs : List A) {y : B} {ys : List B}
      → f x ≡ ok y
      → traverse f xs ≡ ok ys
      → traverse f (x ∷ xs) ≡ ok (y ∷ ys)
  traverse-of_parts x xs first others = rw (first, others)
