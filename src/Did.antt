-- ===== src/Did.antt =====
-- `adl_lite/did_resolver.py`: base58btc and the method did:key. Bytes are numbers below 256.
pub mod Base58
pub mod Bytes
pub mod Resolver
pub mod Keys
use Prim.Native.Nat.{zero, suc}
use Prim.Native.Char.{Char, code}
use Prim.Native.String
use Prim.Native.String.{char_at}
use adl_lite.Prelude.{
  ℕ, ◌+◌, ◌*◌, ◌/◌, ◌%◌, String, Bool, true, false, ◌&&◌, Option, none, some, List, [], ◌∷◌, ◌++◌,
  ◌==◌, length, drop, is_some, if◌then◌else◌,
}
use adl_lite.Prelude.Result.{Result, ok, err, ◌>>=◌, value_error}

abbrev pub alphabet : String
alphabet = "123456789ABCDEFGHJKLMNPQRSTUVWXYZabcdefghijkmnopqrstuvwxyz"

-- `alphabet[rem]`, for a remainder below 58.
unfoldable pub digit_char : ℕ → Char
digit_char d = char_at alphabet d

unfoldable pub position : ℕ → Char → String → Option ℕ
position i c String.[] = none
position i c (String.◌∷◌ d s) = if code c == code d then some i else position (suc i) c s

-- `alphabet.index(ch)`; `none` is a `ValueError`.
unfoldable pub index : Char → Option ℕ
unfolding position
index c = position 0 c alphabet

-- The number that digits of a base stand for, behind those read before: `int.from_bytes(…, "big")`
-- where the base is 256.
unfoldable pub value : ℕ → ℕ → List ℕ → ℕ
value base acc [] = acc
value base acc (d ∷ ds) = value base (acc * base + d) ds

-- `"1" * n + s`
unfoldable pub ones : ℕ → String → String
ones zero s = s
ones (suc n) s = String.◌∷◌ "1" (ones n s)

-- `b"\x00" * n + bytes`
unfoldable pub zeros : ℕ → List ℕ → List ℕ
zeros zero bs = bs
zeros (suc n) bs = 0 ∷ zeros n bs

-- The loop `while num > 0`, on fuel: each round divides the number.
unfoldable pub digits : ℕ → ℕ → String → String
digits zero num result = result
digits (suc fuel) num result =
    let rest = digits fuel (num / 58) (String.◌∷◌ (digit_char (num % 58)) result) in
    if num == 0 then result else rest

-- `len(data) - len(data.lstrip(b"\x00"))`
unfoldable pub leading_zeros : List ℕ → ℕ
leading_zeros [] = 0
leading_zeros (b ∷ bs) = let rest = leading_zeros bs in if b == 0 then suc rest else 0

-- `_base58btc_encode`
unfoldable pub base58btc_encode : List ℕ → String
unfolding digits leading_zeros
base58btc_encode bytes =
    let num = value 256 0 bytes in
    if num == 0 then ones (length bytes) "" else ones (leading_zeros bytes) (digits num num "")

unfoldable pub leading_ones : String → ℕ
leading_ones String.[] = 0
leading_ones (String.◌∷◌ c s) = let rest = leading_ones s in if code c == b'1' then suc rest else 0

-- The loop `num = num * base + alphabet.index(ch)`.
unfoldable pub read_digits : ℕ → String → Option ℕ
unfolding index
read_digits num String.[] = some num
read_digits num (String.◌∷◌ c s) = elim (index c) [
  | none ↦ none
  | some d ↦ read_digits (num * 58 + d) s
]

-- `num.bit_length()`, on fuel.
unfoldable pub bits : ℕ → ℕ → ℕ
bits zero num = 0
bits (suc fuel) num = let rest = bits fuel (num / 2) in if num == 0 then 0 else suc rest

-- `(num.bit_length() + 7) // 8`
unfoldable pub byte_length : ℕ → ℕ
unfolding bits
byte_length num = (bits num num + 7) / 8

-- `num.to_bytes(n, "big")` in front of bytes, for a number that fits.
unfoldable pub to_bytes : ℕ → ℕ → List ℕ → List ℕ
to_bytes zero num bs = bs
to_bytes (suc n) num bs = to_bytes n (num / 256) (num % 256 ∷ bs)

-- `_base58btc_decode`; `none` is a `ValueError`.
unfoldable pub base58btc_decode : String → Option (List ℕ)
unfolding leading_ones read_digits byte_length to_bytes
base58btc_decode s = elim (read_digits 0 s) [
  | none ↦ none
  | some num ↦ some (zeros (leading_ones s) (to_bytes (byte_length num) num []))
]
