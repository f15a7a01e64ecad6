-- ===== src/Did/Base58.antt =====
-- `_base58btc_encode` and `_base58btc_decode` (adl_lite/did_resolver.py): what is encoded is read
-- back, and the loop of the encoder has fuel enough.
use Prim.Native.Nat.{zero, suc}
use Prim.Native.Char.{code}
use adl_lite.Prelude.{
  ℕ, ◌+◌, ◌*◌, ◌/◌, ◌%◌, ◌≤◌, ◌<◌, String, ◌≡◌, ◌≢◌, refl, sym, ap, ◌∙◌, Bool, true, false, none,
  some, List, [], ◌==◌, all_below, all_below_sound, length, All, arith, if◌then◌else◌, Bool-cases,
  inl, inr,
}
use adl_lite.Did.{
  digit_char, position, index, value, ones, zeros, digits, leading_zeros, base58btc_encode,
  leading_ones, read_digits, byte_length, to_bytes, base58btc_decode,
}
use adl_lite.Did.Bytes.{bytes_round_trip}

-- The alphabet has every digit once, and "1" for zero only.
digit_ok : ℕ → Bool
digit_ok d = elim (index (digit_char d)) [
  | none ↦ false
  | some i ↦ if i == d then (if code (digit_char d) == b'1' then d == 0 else true) else false
]

digit_table : all_below 58 digit_ok ≡ true
unfolding all_below digit_ok index digit_char position
digit_table = refl

pub index-digit_char : (d : ℕ) → d < 58 → index (digit_char d) ≡ some d
unfolding digit_ok
index-digit_char d h = ground (arith, all_below_sound 58 digit_ok d digit_table h)

digit_char-ne-one : (d : ℕ) → d < 58 → 0 < d → (code (digit_char d) == b'1') ≡ false
unfolding digit_ok
digit_char-ne-one d h pos = ground (arith, all_below_sound 58 digit_ok d digit_table h)

-- The digits of a number are read back, when the fuel is at least the number.
read_digits-digits :
    (fuel num : ℕ) (s : String) → num ≤ fuel → read_digits 0 (digits fuel num s) ≡ read_digits num s
unfolding digits read_digits
read_digits-digits zero num s h = ap (λ n. read_digits n s) (let e : 0 ≡ num = omega arith in e)
read_digits-digits (suc fuel) num s h = elim (Bool-cases (num == 0)) [
  | inl done ↦ rw done (ap (λ n. read_digits n s) (let e : 0 ≡ num = ground arith in e))
  | inr more ↦ rw more (
      read_digits-digits fuel (num / 58) (String.◌∷◌ (digit_char (num % 58)) s) (ground arith)
      ∙ (rw (index-digit_char (num % 58) (omega arith), read_digits)
          (ap (λ n. read_digits n s) (let e : num / 58 * 58 + num % 58 ≡ num = omega arith in e))))
]

-- The digits of a number do not begin with the digit zero.
leading_ones-digits :
    (fuel num : ℕ) (s : String)
    → num ≤ fuel
    → (num ≡ 0 → leading_ones s ≡ 0)
    → leading_ones (digits fuel num s) ≡ 0
unfolding digits leading_ones
leading_ones-digits zero num s h k = k (omega arith)
leading_ones-digits (suc fuel) num s h k = elim (Bool-cases (num == 0)) [
  | inl done ↦ rw done (k (ground arith))
  | inr more ↦ rw more (
      leading_ones-digits fuel (num / 58) (String.◌∷◌ (digit_char (num % 58)) s) (ground arith)
        (λ last.
          rw (digit_char-ne-one (num % 58) (omega arith) (ground (arith, last)), leading_ones)
            refl))
]

read_digits-ones : (n : ℕ) (s : String) → read_digits 0 (ones n s) ≡ read_digits 0 s
unfolding read_digits ones
read_digits-ones zero s = refl
read_digits-ones (suc n) s = read_digits-ones n s

leading_ones-ones : (n : ℕ) (s : String) → leading_ones s ≡ 0 → leading_ones (ones n s) ≡ n
unfolding leading_ones ones
leading_ones-ones zero s h = h
leading_ones-ones (suc n) s h = ap suc (leading_ones-ones n s h)

length-zeros : (n : ℕ) → length (zeros n []) ≡ n
unfolding zeros
length-zeros zero = refl
length-zeros (suc n) = ap suc (length-zeros n)

decoded :
    (s : String) (num : ℕ)
    → read_digits 0 s ≡ some num
    → base58btc_decode s ≡ some (zeros (leading_ones s) (to_bytes (byte_length num) num []))
unfolding base58btc_decode
decoded s num h = rw (h, base58btc_decode) refl

-- Bytes that stand for zero are zeros.
decode-ones :
    (bs : List ℕ)
    → All (λ b. b < 256) bs
    → value 256 0 bs ≡ 0
    → base58btc_decode (ones (length bs) "") ≡ some bs
unfolding leading_ones byte_length to_bytes read_digits
decode-ones bs h zero_value =
    let back : zeros (leading_zeros bs) [] ≡ bs =
      ap (λ v. zeros (leading_zeros bs) (to_bytes (byte_length v) v [])) (sym zero_value)
      ∙ bytes_round_trip bs h in
    let all_zero : leading_zeros bs ≡ length bs =
      sym (length-zeros (leading_zeros bs)) ∙ ap length back in
    decoded (ones (length bs) "") 0 (read_digits-ones (length bs) "")
    ∙ ap (λ n. some (zeros n [])) (leading_ones-ones (length bs) "" refl ∙ sym all_zero)
    ∙ ap some back

decode-digits :
    (bs : List ℕ)
    → All (λ b. b < 256) bs
    → value 256 0 bs ≢ 0
    → let num = value 256 0 bs in
      base58btc_decode (ones (leading_zeros bs) (digits num num "")) ≡ some bs
unfolding read_digits
decode-digits bs h nonzero =
    let num = value 256 0 bs in
    let s = digits num num "" in
    decoded (ones (leading_zeros bs) s) num
      (read_digits-ones (leading_zeros bs) s ∙ read_digits-digits num num "" (omega arith))
    ∙ ap (λ n. some (zeros n (to_bytes (byte_length num) num [])))
        (leading_ones-ones (leading_zeros bs) s
          (leading_ones-digits num num "" (omega arith) (λ e. absurd (nonzero e))))
    ∙ ap some (bytes_round_trip bs h)

-- Bytes are read back from their base58 text, zeros in front included.
pub base58_round_trip :
    (bs : List ℕ) → All (λ b. b < 256) bs → base58btc_decode (base58btc_encode bs) ≡ some bs
unfolding base58btc_encode
base58_round_trip bs h = elim (Bool-cases (value 256 0 bs == 0)) [
  | inl all_zero ↦ rw all_zero (decode-ones bs h (ground arith))
  | inr some_digit ↦ rw some_digit (decode-digits bs h (λ e. ground arith))
]
