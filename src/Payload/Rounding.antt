-- ===== src/Payload/Rounding.antt =====
-- `_round_floats` is idempotent: a payload that was rounded hashes as it is.
use adl_lite.Prelude.{ℕ, zero, suc, ◌+◌, ◌%◌, ◌≡◌, refl, ap, ap₂, arith}
use adl_lite.Prelude.Int.{ℤ, pos, negsuc}
use adl_lite.Payload.{
  Value, null, bool, num, text, arr, obj, Items, nil, cons, Fields, end, field, round_units,
  neg_units, round_number, round_floats, round_items, round_fields,
}

round_units_multiple : (n : ℕ) → round_units n % 1000 ≡ 0
unfolding round_units
round_units_multiple n = ground arith

round_units_fixed : (n : ℕ) → n % 1000 ≡ 0 → round_units n ≡ n
unfolding round_units
round_units_fixed n h = ground arith

round_units_twice : (n : ℕ) → round_units (round_units n) ≡ round_units n
round_units_twice n = round_units_fixed (round_units n) (round_units_multiple n)

round-neg_units : (n : ℕ) → n % 1000 ≡ 0 → round_number (neg_units n) ≡ neg_units n
unfolding round_number
round-neg_units zero h = ap pos (round_units_fixed 0 h)
round-neg_units (suc n) h =
    let e : n + 1 ≡ suc n = omega arith in rw e (ap neg_units (round_units_fixed (suc n) h))

round_number_twice : (n : ℤ) → round_number (round_number n) ≡ round_number n
unfolding round_number neg_units
round_number_twice (pos n) = ap pos (round_units_twice n)
round_number_twice (negsuc n) = round-neg_units (round_units (n + 1)) (round_units_multiple (n + 1))

mutual
  unfolding round_floats

  pub round_floats_twice : (v : Value) → round_floats (round_floats v) ≡ round_floats v
  round_floats_twice null = refl
  round_floats_twice (bool b) = refl
  round_floats_twice (num n) = ap num (round_number_twice n)
  round_floats_twice (text s) = refl
  round_floats_twice (arr xs) = ap arr (round_items_twice xs)
  round_floats_twice (obj fs) = ap obj (round_fields_twice fs)

  pub round_items_twice : (xs : Items) → round_items (round_items xs) ≡ round_items xs
  round_items_twice nil = refl
  round_items_twice (cons x xs) = ap₂ cons (round_floats_twice x) (round_items_twice xs)

  pub round_fields_twice : (fs : Fields) → round_fields (round_fields fs) ≡ round_fields fs
  round_fields_twice end = refl
  round_fields_twice (field k v fs) = ap₂ (field k) (round_floats_twice v) (round_fields_twice fs)

-- Rounding a value or a payload that was rounded before changes nothing, at any depth.
pub rounding_idempotent :
    (v : Value) (fs : Fields)
    → (round_floats (round_floats v) ≡ round_floats v)
      × (round_fields (round_fields fs) ≡ round_fields fs)
rounding_idempotent v fs = (round_floats_twice v, round_fields_twice fs)
