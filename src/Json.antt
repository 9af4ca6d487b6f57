-- ===== src/Json.antt =====
-- The values that pass through `json.dumps` and `json.loads`, and the interface of that library.
-- A stored text is only stored, measured and read back, so its form is a parameter.
use bitchchain.Base.{
  ◌>>=◌, refl, or_raise, pos, ◌||◌, ◌∷◌, [], List, Option, none, some, ◌≡◌, false, ℕ, Bool, ℤ, Text,
  Result, ok, err, type_error, key_error, if◌then◌else◌,
}
use Prim.Native.String.{String}
use text.Mathlib.Text.{◌==◌}

mutual
  pub data Json : Type 0 where
    null : Json
    bool : Bool → Json
    int : ℤ → Json
    str : Text → Json
    arr : Items → Json
    obj : Fields → Json

  pub data Items : Type 0 where
    nil : Items
    cons : Json → Items → Items

  pub data Fields : Type 0 where
    end : Fields
    field : String → Json → Fields → Fields

-- What the database stores for a value, and the length in bytes of its text.
pub record Codec : Type 1 where
  pub Raw : Type 0
  pub dumps : Json → Raw
  pub loads : Raw → Result Json
  pub size : Raw → ℕ

-- `d[key]`
unfoldable pub find : String → Fields → Result Json
find k end = err key_error
find k (field j v fs) = if j == k then ok v else find k fs

-- `d.get(key)`
unfoldable pub find? : String → Fields → Option Json
find? k end = none
find? k (field j v fs) = if j == k then some v else find? k fs

unfoldable pub as_int : Json → Result ℤ
as_int (int i) = ok i
as_int j = err type_error

unfoldable pub as_bool : Json → Result Bool
as_bool (bool b) = ok b
as_bool j = err type_error

unfoldable pub as_str : Json → Result Text
as_str (str s) = ok s
as_str j = err type_error

-- A field declared `Optional[str]`.
unfoldable pub as_optional_str : Json → Result (Option Text)
as_optional_str null = ok none
as_optional_str (str s) = ok (some s)
as_optional_str j = err type_error

unfoldable pub as_obj : Json → Result Fields
as_obj (obj fs) = ok fs
as_obj j = err type_error

unfoldable pub as_arr : Json → Result Items
as_arr (arr xs) = ok xs
as_arr j = err type_error

-- A natural number; the model has no unsigned field with a negative value.
unfoldable pub as_nat : Json → Result ℕ
as_nat (int (pos n)) = ok n
as_nat j = err type_error

-- Calling a dataclass with `**d`: a keyword that is no field raises `TypeError`.
one_of : String → List String → Bool
one_of k [] = false
one_of k (j ∷ js) = k == j || one_of k js

unfoldable pub keywords : List String → Fields → Result (Unit {0})
unfolding one_of
keywords allowed end = ok tt
keywords allowed (field k v fs) = if one_of k allowed then keywords allowed fs else err type_error

-- A missing required keyword raises `TypeError`.
unfoldable pub argument : String → Fields → Result Json
unfolding find?
argument k fs = or_raise (find? k fs) type_error

unfoldable pub argument_or : Json → String → Fields → Json
unfolding find?
argument_or default k fs = elim (find? k fs) [ none ↦ default | some v ↦ v ]

-- `[f(x) for x in items]`
unfoldable pub traverse_items : {A : Type 0} → (Json → Result A) → Items → Result (List A)
traverse_items f nil = ok []
traverse_items f (cons x xs) = f x >>= λ y. traverse_items f xs >>= λ ys. ok (y ∷ ys)

unfoldable pub items : {A : Type 0} → (A → Json) → List A → Items
items f [] = nil
items f (x ∷ xs) = cons (f x) (items f xs)

-- Reading back each element of a written list gives the list.
pub traverse_items-items :
    {A : Type 0} (write : A → Json) (read : Json → Result A) (xs : List A)
    → ((x : A) → read (write x) ≡ ok x)
    → traverse_items read (items write xs) ≡ ok xs
unfolding traverse_items items
traverse_items-items write read [] h = refl
traverse_items-items write read (x ∷ xs) h = rw (h x) (rw (traverse_items-items write read xs h))
