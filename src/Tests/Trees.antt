-- ===== src/Tests/Trees.antt =====
-- Tests of `MerkleTree` (adl_lite/merkle.py).
use Prim.Native.String.{◌++◌}
use adl_lite.Prelude.{String, ◌≡◌, refl, true, some, List, [], ◌∷◌, ◌⊎◌, arith}
use adl_lite.Prelude.Result.{ok}
use adl_lite.Merkle.{
  Hashing, MerkleProof, MerkleTree, build, decode, new_tree, root_of, root_hex, proof, verify_proof,
}
use adl_lite.Merkle.Inclusion.{every_proof_verifies}
use adl_lite.Payload.{Fields, field, end, text, arr, get, list_of}
use adl_lite.Merkle.Dump.{json_texts, from_dict, decode_items, check_root, from_dict-checks}

-- Texts stand for bytes, and the hash writes its two arguments down.
instance abbrev sample_hashing : Hashing
sample_hashing = record {
  Bytes = String;
  hash_pair = λ a b. "(" ++ a ++ b ++ ")";
  fromhex = λ s. some s;
  hex = λ b. b;
}

abbrev sample_leaves : List String
sample_leaves = "a" ∷ "b" ∷ "c" ∷ []

sample_tree : (t : MerkleTree) × (new_tree sample_leaves ≡ ok t)
unfolding new_tree decode
sample_tree = (_, refl)

every_proof_verifies_example :
    (pf : MerkleProof) × (proof 2 sample_tree.0 ≡ ok pf) × (verify_proof pf ≡ ok true)
every_proof_verifies_example =
    every_proof_verifies (λ b. refl) sample_leaves sample_tree.0 2 sample_tree.1 (omega arith)

sample_root : root_of (build 3 sample_leaves) ≡ some "((ab)(cc))"
unfolding root_of build adl_lite.Merkle.next_level
sample_root = refl

abbrev sample_dump : Fields
sample_dump = field "leaves" (arr (json_texts sample_leaves)) (field "root" (text "((ab)(cc))") end)

read_tree : (t : MerkleTree) × (from_dict sample_dump ≡ ok t)
unfolding from_dict get list_of decode_items json_texts check_root root_hex root_of build
    adl_lite.Merkle.next_level
read_tree = (_, refl)

from_dict-checks_example :
    ((read_tree.0.leaves ≡ []) ⊎ (new_tree read_tree.0.leaves ≡ ok read_tree.0))
    × ((r : String) → get "root" sample_dump ≡ some (text r) → root_hex read_tree.0 ≡ ok r)
from_dict-checks_example = from_dict-checks sample_dump read_tree.0 read_tree.1
