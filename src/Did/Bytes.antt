-- ===== src/Did/Bytes.antt =====
-- Numbers and their bytes (adl_lite/did_resolver.py): `bit_length`, `to_bytes` and `from_bytes`.
use Prim.Native.Nat.{zero, suc}
use adl_lite.Prelude.{
  ℕ, ◌+◌, ◌*◌, ◌/◌, ◌%◌, ◌≤◌, ◌<◌, ◌≡◌, refl, ap, ap₂, ◌∙◌, Bool, true, false, List, [], ◌∷◌, ◌++◌,
  ◌==◌, all_below, all_below_sound, length, All, append-nil, arith, if◌then◌else◌,
}
use adl_lite.Did.{value, zeros, leading_zeros, bits, byte_length, to_bytes}

-- Fuel beyond the number changes nothing.
bits_fuel : (f g n : ℕ) → n ≤ f → n ≤ g → bits f n ≡ bits g n
unfolding bits
bits_fuel zero zero n h k = refl
bits_fuel zero (suc g) n h k = ground arith
bits_fuel (suc f) zero n h k = ground arith
bits_fuel (suc f) (suc g) n h k = ground (arith, bits_fuel f g (n / 2))

bits-half : (n : ℕ) → 0 < n → bits n n ≡ suc (bits (n / 2) (n / 2))
unfolding bits
bits-half zero h = elim h [ ]
bits-half (suc n) h = ground (arith, bits_fuel n (suc n / 2) (suc n / 2))

bits-quarter : (n : ℕ) → 0 < n / 2 → bits n n ≡ bits (n / 4) (n / 4) + 2
bits-quarter n h =
    let same : n / 2 / 2 ≡ n / 4 = omega arith in
    let at : bits (n / 2 / 2) (n / 2 / 2) ≡ bits (n / 4) (n / 4) = ap (λ t. bits t t) same in
    omega (arith, bits-half n (omega arith), bits-half (n / 2) h, at)

bits-sixteenth : (n : ℕ) → 0 < n / 8 → bits n n ≡ bits (n / 16) (n / 16) + 4
bits-sixteenth n h =
    let same : n / 4 / 4 ≡ n / 16 = omega arith in
    let at : bits (n / 4 / 4) (n / 4 / 4) ≡ bits (n / 16) (n / 16) = ap (λ t. bits t t) same in
    omega (arith, bits-quarter n (omega arith), bits-quarter (n / 4) (omega arith), at)

-- A byte more is eight bits more.
bits-byte : (m x : ℕ) → 0 < m → x < 256 → bits (m * 256 + x) (m * 256 + x) ≡ bits m m + 8
bits-byte m x pos h =
    let n = m * 256 + x in
    let same : n / 16 / 16 ≡ m = omega arith in
    let at : bits (n / 16 / 16) (n / 16 / 16) ≡ bits m m = ap (λ t. bits t t) same in
    omega (arith, bits-sixteenth n (omega arith), bits-sixteenth (n / 16) (omega arith), at)

byte_length-byte : (m x : ℕ) → 0 < m → x < 256 → byte_length (m * 256 + x) ≡ byte_length m + 1
unfolding byte_length
byte_length-byte m x pos h = omega (arith, bits-byte m x pos h)

one_byte : ℕ → Bool
one_byte x = if x == 0 then true else byte_length x == 1

one_byte_table : all_below 256 one_byte ≡ true
unfolding all_below one_byte byte_length bits
one_byte_table = refl

byte_length_of_byte : (x : ℕ) → 0 < x → x < 256 → byte_length x ≡ 1
unfolding one_byte
byte_length_of_byte x pos h = ground (arith, all_below_sound 256 one_byte x one_byte_table h)

byte_length-value :
    (a : ℕ) (bs : List ℕ)
    → 0 < a
    → All (λ b. b < 256) bs
    → byte_length (value 256 a bs) ≡ byte_length a + length bs
unfolding value
byte_length-value a [] pos h = omega arith
byte_length-value a (b ∷ bs) pos h =
    byte_length-value (a * 256 + b) bs (omega arith) h.1
    ∙ (omega (arith, byte_length-byte a b pos h.0))

to_bytes-value :
    (bs : List ℕ) (n a : ℕ) (acc : List ℕ)
    → All (λ b. b < 256) bs
    → to_bytes (length bs + n) (value 256 a bs) acc ≡ to_bytes n a (bs ++ acc)
unfolding value to_bytes
to_bytes-value [] n a acc h = ap (λ t. to_bytes t a acc) (let e : 0 + n ≡ n = omega arith in e)
to_bytes-value (b ∷ bs) n a acc h =
    ap (λ t. to_bytes t (value 256 (a * 256 + b) bs) acc)
      (let e : suc (length bs) + n ≡ length bs + suc n = omega arith in e)
    ∙ to_bytes-value bs (suc n) (a * 256 + b) acc h.1
    ∙ ap₂ (λ x y. to_bytes n x (y ∷ bs ++ acc))
        (let e : (a * 256 + b) / 256 ≡ a = omega (arith, h.0) in e)
        (let e : (a * 256 + b) % 256 ≡ b = omega (arith, h.0) in e)

value_pos : (a : ℕ) (bs : List ℕ) → 0 < a → 0 < value 256 a bs
unfolding value
value_pos a [] h = h
value_pos a (b ∷ bs) h = value_pos (a * 256 + b) bs (omega arith)

value-zero : (bs : List ℕ) → value 256 0 (0 ∷ bs) ≡ value 256 0 bs
unfolding value
value-zero bs = refl

-- The bytes of a number whose first byte is not zero.
to_bytes-value_pos :
    (b : ℕ) (bs : List ℕ)
    → 0 < b
    → b < 256
    → All (λ x. x < 256) bs
    → to_bytes (byte_length (value 256 b bs)) (value 256 b bs) [] ≡ b ∷ bs
unfolding to_bytes
to_bytes-value_pos b bs pos h hs =
    ap (λ t. to_bytes t (value 256 b bs) [])
      (let e : byte_length (value 256 b bs) ≡ length bs + 1 =
          omega (arith, byte_length-value b bs pos hs, byte_length_of_byte b pos h) in
        e)
    ∙ to_bytes-value bs 1 b [] hs
    ∙ ap₂ (λ x y. x ∷ y) (let e : b % 256 ≡ b = omega arith in e) (append-nil bs)

-- Reading back what `from_bytes` made of bytes, zeros in front included.
pub bytes_round_trip :
    (bs : List ℕ)
    → All (λ x. x < 256) bs
    → zeros (leading_zeros bs) (to_bytes (byte_length (value 256 0 bs)) (value 256 0 bs) []) ≡ bs
unfolding leading_zeros zeros byte_length to_bytes value bits
bytes_round_trip [] h = refl
bytes_round_trip (zero ∷ bs) h = ap (λ t. 0 ∷ t) (bytes_round_trip bs h.1)
bytes_round_trip (suc b ∷ bs) h =
    let e : 0 + suc b ≡ suc b = omega arith in
    let nonzero : (suc b == 0) ≡ false = ground arith in
    ap
      (λ x.
        zeros (if suc b == 0 then suc (leading_zeros bs) else 0)
          (to_bytes (byte_length (value 256 x bs)) (value 256 x bs) []))
      e
    ∙ (rw nonzero (to_bytes-value_pos (suc b) bs (omega arith) h.0 h.1))
