-- ===== src/Merkle.antt =====
-- `MerkleTree` (adl_lite/merkle.py). SHA-256 over two digests and the hex texts of Python's `bytes`
-- are parameters.
pub mod Levels
pub mod Inclusion
pub mod Padding
pub mod Dump
use Prim.Native.Nat.{zero, suc}
use adl_lite.Prelude.{
  ℕ, ◌+◌, ◌-◌, ◌/◌, ◌%◌, String, Bool, true, false, Option, none, some, List, [], ◌∷◌, ltb, ◌==◌,
  length, get_elem?, last?, map, str_eq, if◌then◌else◌,
}
use adl_lite.Prelude.Result.{Result, ok, err, ◌>>=◌, value_error, index_error}

-- `bytes`, `_hash_pair`, `bytes.fromhex` (`none` is a `ValueError`) and `bytes.hex`.
pub record Hashing : Type 1 where
  pub Bytes : Type 0
  pub hash_pair : Bytes → Bytes → Bytes
  pub fromhex : String → Option Bytes
  pub hex : Bytes → String

pub data Side : Type 0 where
  left right : Side

-- `MerkleProof`
pub record MerkleProof : Type 0 where
  pub leaf_index : ℕ
  pub leaf_hash : String
  pub siblings : List (String × Side)
  pub root : String

module _ ⦃k : Hashing⦄ where
  -- The fields `leaves` and `_levels`.
  pub record MerkleTree : Type 0 where
    pub leaves : List String
    pub levels : List (List k.Bytes)

  -- One round of `_build`: the last node of an odd level is paired with itself.
  unfoldable pub next_level : List k.Bytes → List k.Bytes
  next_level [] = []
  next_level (x ∷ []) = k.hash_pair x x ∷ []
  next_level (x ∷ y ∷ xs) = k.hash_pair x y ∷ next_level xs

  -- `_build`, on fuel.
  unfoldable pub build : ℕ → List k.Bytes → List (List k.Bytes)
  build zero current = current ∷ []
  build (suc fuel) current =
      let rest = build fuel (next_level current) in
      if ltb 1 (length current) then current ∷ rest else current ∷ []

  -- `[bytes.fromhex(h) for h in leaves]`
  unfoldable pub decode : List String → Result (List k.Bytes)
  decode [] = ok []
  decode (s ∷ ss) = elim (k.fromhex s) [
    | none ↦ err value_error
    | some b ↦ (do bs ← decode ss; ok (b ∷ bs))
  ]

  -- `MerkleTree(leaves)`. A level is at most as long as the one below, so that its length is fuel enough.
  unfoldable pub new_tree : List String → Result MerkleTree
  new_tree [] = err value_error
  new_tree (s ∷ ss) = do
    bs ← decode (s ∷ ss)
    ok (record { leaves = s ∷ ss; levels = build (length bs) bs })

  -- The first node of the last level.
  unfoldable pub root_of : List (List k.Bytes) → Option k.Bytes
  root_of levels = elim (last? levels) [ none ↦ none | some level ↦ get_elem? level 0 ]

  -- `root_hex`
  unfoldable pub root_hex : MerkleTree → Result String
  unfolding root_of
  root_hex t = elim (root_of t.levels) [ none ↦ err index_error | some b ↦ ok (k.hex b) ]

  -- The sibling of position `idx` in a level, and its side.
  unfoldable pub sibling : List k.Bytes → ℕ → Option (k.Bytes × Side)
  sibling level idx =
      if idx % 2 == 0
      then (elim (get_elem? level (idx + 1)) [
        | some b ↦ some (b, right)
        | none ↦ (elim (get_elem? level idx) [ none ↦ none | some b ↦ some (b, right) ])
      ])
      else elim (get_elem? level (idx - 1)) [ none ↦ none | some b ↦ some (b, left) ]

  -- The loop of `proof` over `self._levels[:-1]`.
  unfoldable pub siblings_from : List (List k.Bytes) → ℕ → Option (List (k.Bytes × Side))
  unfolding sibling
  siblings_from [] idx = some []
  siblings_from (level ∷ []) idx = some []
  siblings_from (level ∷ next ∷ levels) idx =
      let rest = siblings_from (next ∷ levels) (idx / 2) in
      elim (sibling level idx) [
        | none ↦ none
        | some s ↦ (elim rest [ none ↦ none | some ss ↦ some (s ∷ ss) ])
      ]

  unfoldable pub hex_sibling : k.Bytes × Side → String × Side
  hex_sibling (b, side) = (k.hex b, side)

  -- `proof`
  unfoldable pub proof : ℕ → MerkleTree → Result MerkleProof
  unfolding root_hex siblings_from hex_sibling
  proof index t = elim (get_elem? t.leaves index) [
    | none ↦ err index_error
    | some leaf ↦ (elim (siblings_from t.levels index) [
      | none ↦ err index_error
      | some ss ↦ (do
        r ← root_hex t
        ok (record {
          leaf_index = index;
          leaf_hash = leaf;
          siblings = map hex_sibling ss;
          root = r;
        }))
    ])
  ]

  unfoldable pub combine : k.Bytes → k.Bytes × Side → k.Bytes
  combine current (s, left) = k.hash_pair s current
  combine current (s, right) = k.hash_pair current s

  -- The loop of `verify_proof`.
  unfoldable pub climb : k.Bytes → List (String × Side) → Result k.Bytes
  unfolding combine
  climb current [] = ok current
  climb current ((s, side) ∷ ss) = elim (k.fromhex s) [
    | none ↦ err value_error
    | some b ↦ climb (combine current (b, side)) ss
  ]

  -- `verify_proof`
  unfoldable pub verify_proof : MerkleProof → Result Bool
  unfolding climb
  verify_proof pf = elim (k.fromhex pf.leaf_hash) [
    | none ↦ err value_error
    | some b ↦ (do top ← climb b pf.siblings; ok (str_eq (k.hex top) pf.root))
  ]

-- `compute_chain_merkle_root`
module _ ⦃k : Hashing⦄ where
  unfoldable pub compute_chain_merkle_root : List String → Result String
  unfolding new_tree root_hex
  compute_chain_merkle_root leaves = do t ← new_tree leaves; root_hex t
