-- ===== src/Did/Keys.antt =====
-- did:key (adl_lite/did_resolver.py): the key that a DID was made of is found again, and text that
-- follows it is passed over.
use Prim.Native.Nat.{zero, suc}
use Prim.Native.Char.{code}
use Prim.Native.String
use text.Mathlib.TextLemmas.{nil-append, cons-append, append_assoc}
use adl_lite.Prelude.{
  ℕ, ◌/◌, ◌%◌, ◌<◌, String, ◌≡◌, refl, sym, ap, ◌∙◌, true, false, some, List, [], ◌∷◌, ◌==◌, length,
  All, arith, is_some, Bool-cases, inl, inr,
}
use adl_lite.Prelude.Text.{is_empty}
use adl_lite.Prelude.Result.{ok}
use adl_lite.Did.{
  digit_char, index, value, ones, digits, leading_zeros, base58btc_encode, base58btc_decode,
  read_digits, leading_ones, byte_length, to_bytes, zeros, bits,
}
use adl_lite.Did.Base58.{index-digit_char, base58_round_trip}
use adl_lite.Did.Resolver.{
  strip_prefix, base58_run, ed25519_key, key_document, multibase, resolve_did_key, create_did_key,
}

-- A text of base58 digits.
abbrev IsBase58 : String → Type 0
IsBase58 String.[] = Unit
IsBase58 (String.◌∷◌ c s) = (is_some (index c) ≡ true) × IsBase58 s

ones-IsBase58 : (n : ℕ) (s : String) → IsBase58 s → IsBase58 (ones n s)
unfolding ones digit_char
ones-IsBase58 zero s h = h
ones-IsBase58 (suc n) s h = (ap is_some (index-digit_char 0 (omega arith)), ones-IsBase58 n s h)

digits-IsBase58 : (fuel num : ℕ) (s : String) → IsBase58 s → IsBase58 (digits fuel num s)
unfolding digits
digits-IsBase58 zero num s h = h
digits-IsBase58 (suc fuel) num s h = elim (Bool-cases (num == 0)) [
  | inl done ↦ rw done h
  | inr more ↦ rw more (
      digits-IsBase58 fuel (num / 58) (String.◌∷◌ (digit_char (num % 58)) s)
        (ap is_some (index-digit_char (num % 58) (omega arith)), h))
]

base58btc_encode-IsBase58 : (bs : List ℕ) → IsBase58 (base58btc_encode bs)
unfolding base58btc_encode
base58btc_encode-IsBase58 bs = elim (Bool-cases (value 256 0 bs == 0)) [
  | inl all_zero ↦ rw all_zero (ones-IsBase58 (length bs) "" tt)
  | inr some_digit ↦ rw some_digit (
      ones-IsBase58 (leading_zeros bs) (digits (value 256 0 bs) (value 256 0 bs) "")
        (digits-IsBase58 (value 256 0 bs) (value 256 0 bs) "" tt))
]

base58_run-append :
    (s t : String) → IsBase58 s → base58_run t ≡ "" → base58_run (String.◌++◌ s t) ≡ s
unfolding base58_run
base58_run-append String.[] t h stop = ap base58_run (nil-append t) ∙ stop
base58_run-append (String.◌∷◌ c s) t h stop =
    rw (cons-append c s t)
      (rw (h.0, base58_run) (ap (λ x. String.◌∷◌ c x) (base58_run-append s t h.1 stop)))

strip_prefix-append : (p s : String) → strip_prefix p (String.◌++◌ p s) ≡ some s
unfolding strip_prefix
strip_prefix-append String.[] s = ap some (nil-append s)
strip_prefix-append (String.◌∷◌ c p) s =
    let same : (code c == code c) ≡ true = ground arith in
    rw (cons-append c p s) (rw (same, strip_prefix) (strip_prefix-append p s))

-- What the pattern captures of a did:key that other text follows.
multibase-append :
    (bs : List ℕ) (t : String)
    → is_empty (base58btc_encode bs) ≡ false
    → base58_run t ≡ ""
    → multibase (String.◌++◌ (String.◌++◌ "did:key:z" (base58btc_encode bs)) t)
      ≡ ok (base58btc_encode bs)
unfolding multibase
multibase-append bs t filled stop =
    let s = base58btc_encode bs in
    let runs : base58_run (String.◌++◌ s t) ≡ s =
      base58_run-append s t (base58btc_encode-IsBase58 bs) stop in
    rw
      (
        append_assoc "did:key:z" s t,
        strip_prefix-append "did:key:z" (String.◌++◌ s t),
        runs,
        filled,
        multibase,
      )
      refl

is_empty-nil : (s : String) → is_empty s ≡ true → s ≡ ""
unfolding is_empty
is_empty-nil String.[] h = refl
is_empty-nil (String.◌∷◌ c s) h = cc

base58btc_encode-filled :
    (b : ℕ) (bs : List ℕ)
    → All (λ x. x < 256) (b ∷ bs)
    → is_empty (base58btc_encode (b ∷ bs)) ≡ false
unfolding base58btc_decode read_digits leading_ones byte_length to_bytes zeros bits
base58btc_encode-filled b bs h = elim (Bool-cases (is_empty (base58btc_encode (b ∷ bs)))) [
  | inr filled ↦ filled
  | inl blank ↦
      (let none_read : some [] ≡ some (b ∷ bs) =
          ap base58btc_decode (sym (is_empty-nil (base58btc_encode (b ∷ bs)) blank))
          ∙ base58_round_trip (b ∷ bs) h in
        cc)
]

-- A did:key stands for the key that it was made of, and so does every text that begins with it and
-- goes on with a character outside the base58 alphabet, or with nothing.
pub resolve-create_did_key :
    (key : List ℕ) (t : String)
    → length key ≡ 32
    → All (λ b. b < 256) key
    → base58_run t ≡ ""
    → let did = String.◌++◌ (create_did_key key) t in
      resolve_did_key did ≡ ok (key_document did key)
unfolding resolve_did_key create_did_key ed25519_key
resolve-create_did_key key t size h stop =
    let raw : List ℕ = 0xed ∷ 0x01 ∷ key in
    let bytes : All (λ b. b < 256) raw = (omega arith, (omega arith, h)) in
    let sized : (length key == 32) ≡ true = ground arith in
    rw
      (
        multibase-append raw t (base58btc_encode-filled 0xed (0x01 ∷ key) bytes) stop,
        base58_round_trip raw bytes,
        sized,
      )
      refl
