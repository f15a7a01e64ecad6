-- ===== src/Payload.antt =====
-- Event payloads (adl_lite/models.py): JSON values, and the rounding that precedes hashing.
pub mod Rounding
use Prim.Native.String.{[], ◌∷◌}
use adl_lite.Prelude.{
  ℕ, ◌+◌, ◌*◌, ◌/◌, ◌%◌, String, Bool, true, false, Option, none, some, str_eq, ltb, ◌==◌,
  if◌then◌else◌,
}
use adl_lite.Prelude.Int.{ℤ, pos, negsuc}
use adl_lite.Prelude.Result.{Result, ok, err, type_error}
use adl_lite.Prelude.Text.{is_blank, is_empty}

-- The values that a payload, a Python `dict[str, Any]` decoded from JSON, can hold. A number is
-- counted in units of 10⁻⁹.
mutual
  pub data Fields : Type 0 where
    field : String → Value → Fields → Fields
    end : Fields

  pub data Value : Type 0 where
    obj : Fields → Value
    arr : Items → Value
    text : String → Value
    num : ℤ → Value
    bool : Bool → Value
    null : Value

  pub data Items : Type 0 where
    cons : Value → Items → Items
    nil : Items

-- `payload.get(key)`
unfoldable pub get : String → Fields → Option Value
get k end = none
get k (field j v fs) = if str_eq j k then some v else get k fs

-- `bool(value)`
unfoldable pub truthy : Value → Bool
truthy null = false
truthy (bool b) = b
truthy (num n) = elim n [ pos m ↦ ltb 0 m | negsuc m ↦ true ]
truthy (text s) = if is_empty s then false else true
truthy (arr nil) = false
truthy (arr (cons _ _)) = true
truthy (obj end) = false
truthy (obj (field _ _ _)) = true

-- `bool(payload.get(key))`
unfoldable pub has_truthy : String → Fields → Bool
has_truthy k fs = elim (get k fs) [ none ↦ false | some v ↦ truthy v ]

-- `value is None or (isinstance(value, str) and not value.strip())`, negated.
unfoldable pub is_filled : Option Value → Bool
is_filled none = false
is_filled (some null) = false
is_filled (some (text s)) = if is_blank s then false else true
is_filled (some _) = true

-- `round(x, 6)` in units of 10⁻⁹: to the nearest multiple of 1000, ties to the even one.
unfoldable pub round_units : ℕ → ℕ
round_units n =
    let q = n / 1000 in
    let r = n % 1000 in
    if ltb r 500
    then q * 1000
    else if ltb 500 r
    then (q + 1) * 1000
    else if q % 2 == 0
    then q * 1000
    else (q + 1) * 1000

neg_units : ℕ → ℤ
neg_units Prim.Native.Nat.zero = pos 0
neg_units (Prim.Native.Nat.suc n) = negsuc n

unfoldable pub round_number : ℤ → ℤ
unfolding round_units neg_units
round_number (pos n) = pos (round_units n)
round_number (negsuc n) = neg_units (round_units (n + 1))

-- `_round_floats`
unfoldable mutual
  pub round_floats : Value → Value
  round_floats null = null
  round_floats (bool b) = bool b
  round_floats (num n) = num (round_number n)
  round_floats (text s) = text s
  round_floats (arr xs) = arr (round_items xs)
  round_floats (obj fs) = obj (round_fields fs)

  pub round_items : Items → Items
  round_items nil = nil
  round_items (cons x xs) = cons (round_floats x) (round_items xs)

  pub round_fields : Fields → Fields
  round_fields end = end
  round_fields (field k v fs) = field k (round_floats v) (round_fields fs)

characters : String → Items
characters [] = nil
characters (c ∷ s) = cons (text (c ∷ [])) (characters s)

keys : Fields → Items
keys end = nil
keys (field k _ fs) = cons (text k) (keys fs)

-- `list(value)`
unfoldable pub list_of : Value → Result Items
unfolding characters keys
list_of (arr xs) = ok xs
list_of (text s) = ok (characters s)
list_of (obj fs) = ok (keys fs)
list_of (num _) = err type_error
list_of (bool _) = err type_error
list_of null = err type_error
