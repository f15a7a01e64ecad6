-- ===== src/Merkle/Levels.antt =====
-- One level of a `MerkleTree` (adl_lite/merkle.py) and the next: where a node goes, and how long the
-- levels are.
use Prim.Native.Nat.{zero, suc}
use adl_lite.Prelude.{
  ℕ, ◌+◌, ◌-◌, ◌/◌, ◌%◌, ◌≤◌, ◌≡◌, refl, ◌∙◌, true, false, some, List, [], ◌∷◌, ltb, ◌==◌, length,
  get_elem?, last?, arith, lt→ltb, Bool-cases, inl, inr,
}
use adl_lite.Merkle.{Hashing, Side, left, right, next_level, build, sibling, combine}

half_plus_two : (i : ℕ) → (suc (suc i)) / 2 ≡ suc (i / 2)
half_plus_two i = omega arith

parity_plus_two : (i : ℕ) → (suc (suc i)) % 2 ≡ i % 2
parity_plus_two i = omega arith

minus_one : (i : ℕ) → suc i - 1 ≡ i
minus_one i = omega arith

two_plus_one : (i : ℕ) → suc (suc i) + 1 ≡ suc (suc (i + 1))
two_plus_one i = omega arith

module _ ⦃k : Hashing⦄ where
  odd_step :
      (x y : k.Bytes) (xs : List k.Bytes) (i : ℕ)
      → i % 2 ≡ 1
      → get_elem? (x ∷ y ∷ xs) (suc (suc i) - 1) ≡ get_elem? xs (i - 1)
  odd_step x y xs zero h = cc
  odd_step x y xs (suc i) h = rw (minus_one (suc (suc i)), minus_one i) refl

  even_step :
      (x y : k.Bytes) (xs : List k.Bytes) (i : ℕ)
      → get_elem? (x ∷ y ∷ xs) (suc (suc i) + 1) ≡ get_elem? xs (i + 1)
  even_step x y xs i = rw (two_plus_one i) refl

  not_even : (i : ℕ) → (i % 2 == 0) ≡ false → i % 2 ≡ 1
  not_even i h = ground arith

  sibling-skip :
      (x y : k.Bytes) (xs : List k.Bytes) (i : ℕ)
      → sibling (x ∷ y ∷ xs) (suc (suc i)) ≡ sibling xs i
  unfolding sibling
  sibling-skip x y xs i = elim (Bool-cases (i % 2 == 0)) [
    | inl even ↦ rw (parity_plus_two i, even, sibling) (rw (even_step x y xs i) refl)
    | inr odd ↦ rw (parity_plus_two i, odd, sibling) (rw (odd_step x y xs i (not_even i odd)) refl)
  ]

  -- A node's place in the next level holds the hash of the node with its sibling.
  pub level_step :
      (level : List k.Bytes) (i : ℕ) (x : k.Bytes)
      → get_elem? level i ≡ some x
      → (s : k.Bytes × Side) × (sibling level i ≡ some s)
        × (get_elem? (next_level level) (i / 2) ≡ some (combine x s))
  unfolding sibling next_level combine
  level_step [] i x h = cc
  level_step (a ∷ []) zero x h = ((a, right), refl, cc)
  level_step (a ∷ []) (suc i) x h = cc
  level_step (a ∷ b ∷ level) zero x h = ((b, right), refl, cc)
  level_step (a ∷ b ∷ level) (suc zero) x h = ((a, left), refl, cc)
  level_step (a ∷ b ∷ level) (suc (suc i)) x h =
      let (s, here, next) = level_step level i x h in
      (s, sibling-skip a b level i ∙ here, rw (half_plus_two i) next)

  -- The levels shrink to one node.
  pub length-next_level :
      (level : List k.Bytes)
      → length (next_level level) + length (next_level level) ≤ suc (length level)
  unfolding next_level
  length-next_level [] = omega arith
  length-next_level (a ∷ []) = omega arith
  length-next_level (a ∷ b ∷ level) = omega (arith, length-next_level level)

  next_level-inhabited : (level : List k.Bytes) → 1 ≤ length level → 1 ≤ length (next_level level)
  unfolding next_level
  next_level-inhabited [] h = omega arith
  next_level-inhabited (a ∷ []) h = omega arith
  next_level-inhabited (a ∷ b ∷ level) h = omega arith

  last?-cons :
      (level : List k.Bytes) (levels : List (List k.Bytes)) {top : List k.Bytes}
      → last? levels ≡ some top
      → last? (level ∷ levels) ≡ some top
  last?-cons level [] h = cc
  last?-cons level (next ∷ levels) h = h

  pub long_level : (a b : k.Bytes) (level : List k.Bytes) → ltb 1 (length (a ∷ b ∷ level)) ≡ true
  long_level a b level = lt→ltb 1 (length (a ∷ b ∷ level)) (omega arith)

  pub build-cons :
      (fuel : ℕ) (a b : k.Bytes) (level : List k.Bytes)
      → build (suc fuel) (a ∷ b ∷ level) ≡ (a ∷ b ∷ level) ∷ build fuel (next_level (a ∷ b ∷ level))
  unfolding build
  build-cons fuel a b level = rw (long_level a b level) refl

  pub build-nil : (fuel : ℕ) → build fuel [] ≡ [] ∷ []
  unfolding build
  build-nil zero = refl
  build-nil (suc fuel) = refl

  pub build-zero : (current : List k.Bytes) → build 0 current ≡ current ∷ []
  unfolding build
  build-zero current = refl

  pub build-one : (fuel : ℕ) (a : k.Bytes) → build fuel (a ∷ []) ≡ (a ∷ []) ∷ []
  unfolding build
  build-one zero a = refl
  build-one (suc fuel) a = refl

  -- With the length of the leaves as fuel, the last level has one node.
  pub build_root :
      (fuel : ℕ) (current : List k.Bytes)
      → 1 ≤ length current
      → length current ≤ suc fuel
      → (b : k.Bytes) × (last? (build fuel current) ≡ some (b ∷ []))
  build_root fuel [] h le = let no : ⊥ = omega arith in elim no [ ]
  build_root fuel (a ∷ []) h le = (a, rw (build-one fuel a) refl)
  build_root zero (a ∷ b ∷ level) h le = let no : ⊥ = omega arith in elim no [ ]
  build_root (suc fuel) (a ∷ b ∷ level) h le =
      let next = next_level (a ∷ b ∷ level) in
      let shorter = length-next_level (a ∷ b ∷ level) in
      let (r, q) =
        build_root fuel next (next_level-inhabited (a ∷ b ∷ level) h)
          (omega (arith, shorter, le)) in
      (r, rw (build-cons fuel a b level) (last?-cons (a ∷ b ∷ level) (build fuel next) q))
