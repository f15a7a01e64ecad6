-- ===== src/Merkle/Padding.antt =====
-- The padding of odd levels in `MerkleTree._build` (adl_lite/merkle.py).
use Prim.Native.Nat.{suc}
use adl_lite.Prelude.{ℕ, ◌%◌, ◌≤◌, ◌≡◌, refl, sym, ap, ◌∙◌, List, [], ◌∷◌, ◌++◌, length, arith}
use adl_lite.Merkle.{Hashing, next_level, build, root_of}
use adl_lite.Merkle.Levels.{build-cons}
use adl_lite.Merkle.Inclusion.{root_of-build}

module _ ⦃k : Hashing⦄ where
  padded_level :
      (xs : List k.Bytes) (x : k.Bytes)
      → length xs % 2 ≡ 0
      → next_level (xs ++ x ∷ []) ≡ next_level (xs ++ x ∷ x ∷ [])
  unfolding next_level
  padded_level [] x h = refl
  padded_level (a ∷ []) x h = cc
  padded_level (a ∷ b ∷ xs) x h =
      ap (λ l. k.hash_pair a b ∷ l) (padded_level xs x (omega (arith, h)))

  -- An odd number of leaves, at least three, has the same root as the list with its last leaf twice.
  pub odd_roots_collide :
      (fuel : ℕ) (xs : List k.Bytes) (x : k.Bytes)
      → length xs % 2 ≡ 0
      → 2 ≤ length xs
      → root_of (build (suc fuel) (xs ++ x ∷ [])) ≡ root_of (build (suc fuel) (xs ++ x ∷ x ∷ []))
  odd_roots_collide fuel [] x h le = let no : ⊥ = omega arith in elim no [ ]
  odd_roots_collide fuel (a ∷ []) x h le = let no : ⊥ = omega arith in elim no [ ]
  odd_roots_collide fuel (a ∷ b ∷ xs) x h le =
      rw (build-cons fuel a b (xs ++ x ∷ []), build-cons fuel a b (xs ++ x ∷ x ∷ []))
        (root_of-build fuel _ _
          ∙ ap (λ l. root_of (build fuel l)) (padded_level (a ∷ b ∷ xs) x h)
          ∙ sym (
              root_of-build fuel (a ∷ b ∷ xs ++ x ∷ x ∷ [])
                (next_level (a ∷ b ∷ xs ++ x ∷ x ∷ []))))
