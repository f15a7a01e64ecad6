-- ===== src/Merkle/Inclusion.antt =====
-- `MerkleTree.proof` and `MerkleTree.verify_proof` (adl_lite/merkle.py).
use Prim.Native.Nat.{zero, suc}
use adl_lite.Prelude.{
  ℕ, ◌/◌, ◌≤◌, ◌<◌, String, ◌≡◌, refl, sym, ap, subst, ◌∙◌, true, some, List, [], ◌∷◌, length,
  get_elem?, map, eq_refl, arith, Option-cases, inl, inr,
}
use adl_lite.Prelude.Result.{ok, >>=-eq-ok, ok-injective}
use adl_lite.Merkle.{
  Hashing, Side, MerkleProof, MerkleTree, next_level, build, decode, new_tree, root_of, root_hex,
  sibling, siblings_from, hex_sibling, proof, combine, climb, verify_proof,
}
use adl_lite.Merkle.Levels.{
  level_step, length-next_level, build-cons, build-one, build-nil, build-zero,
}

module _ ⦃k : Hashing⦄ where
  -- The digest at the end of a path of siblings.
  abbrev pub fold_path : k.Bytes → List (k.Bytes × Side) → k.Bytes
  fold_path current [] = current
  fold_path current (s ∷ ss) = fold_path (combine current s) ss

  build-inhabited :
      (fuel : ℕ) (current : List k.Bytes)
      → (l : List k.Bytes) × (ls : List (List k.Bytes)) × (build fuel current ≡ l ∷ ls)
  build-inhabited fuel [] = (_, _, build-nil fuel)
  build-inhabited fuel (a ∷ []) = (_, _, build-one fuel a)
  build-inhabited zero (a ∷ b ∷ level) = (_, _, build-zero (a ∷ b ∷ level))
  build-inhabited (suc fuel) (a ∷ b ∷ level) = (_, _, build-cons fuel a b level)

  siblings_from-build :
      (fuel : ℕ) (level : List k.Bytes) (next : List k.Bytes) (i : ℕ) {s : k.Bytes × Side}
      {ss : List (k.Bytes × Side)}
      → sibling level i ≡ some s
      → siblings_from (build fuel next) (i / 2) ≡ some ss
      → siblings_from (level ∷ build fuel next) i ≡ some (s ∷ ss)
  unfolding siblings_from
  siblings_from-build fuel level next i h q =
      let (l, ls, eq) = build-inhabited fuel next in
      rw (eq, h, siblings_from) (rw (rw eq at q) refl)

  pub root_of-build :
      (fuel : ℕ) (level next : List k.Bytes)
      → root_of (level ∷ build fuel next) ≡ root_of (build fuel next)
  unfolding root_of
  root_of-build fuel level next = let (l, ls, eq) = build-inhabited fuel next in rw eq refl

  -- The path of a leaf leads to the root.
  pub path_to_root :
      (fuel : ℕ) (current : List k.Bytes) (i : ℕ) (x : k.Bytes)
      → get_elem? current i ≡ some x
      → length current ≤ suc fuel
      → (ss : List (k.Bytes × Side)) × (siblings_from (build fuel current) i ≡ some ss)
        × (root_of (build fuel current) ≡ some (fold_path x ss))
  unfolding siblings_from root_of
  path_to_root fuel [] i x h le = cc
  path_to_root fuel (a ∷ []) zero x h le = ([], rw (build-one fuel a) refl, rw (build-one fuel a) h)
  path_to_root fuel (a ∷ []) (suc i) x h le = cc
  path_to_root zero (a ∷ b ∷ level) i x h le = let no : ⊥ = omega arith in elim no [ ]
  path_to_root (suc fuel) (a ∷ b ∷ level) i x h le =
      let (s, here, next_eq) = level_step (a ∷ b ∷ level) i x h in
      let (ss, path, root) =
        path_to_root fuel (next_level (a ∷ b ∷ level)) (i / 2) (combine x s) next_eq
          (omega (arith, length-next_level (a ∷ b ∷ level), le)) in
      (
        s ∷ ss,
        rw (build-cons fuel a b level)
            (siblings_from-build fuel (a ∷ b ∷ level) (next_level (a ∷ b ∷ level)) i here path),
        rw (build-cons fuel a b level)
            (root_of-build fuel (a ∷ b ∷ level) (next_level (a ∷ b ∷ level)) ∙ root),
      )

  climb-map :
      ((b : k.Bytes) → k.fromhex (k.hex b) ≡ some b)
      → (x : k.Bytes) (ss : List (k.Bytes × Side))
      → climb x (map hex_sibling ss) ≡ ok (fold_path x ss)
  unfolding climb hex_sibling
  climb-map back x [] = refl
  climb-map back x ((b, side) ∷ ss) = rw (back b) (climb-map back (combine x (b, side)) ss)

  decode-cons :
      (s : String) (ss : List String) (bs : List k.Bytes)
      → decode (s ∷ ss) ≡ ok bs
      → (b : k.Bytes) × (cs : List k.Bytes) × (k.fromhex s ≡ some b)
        × (decode ss ≡ ok cs)
        × (bs ≡ b ∷ cs)
  unfolding decode
  decode-cons s ss bs h = elim (Option-cases (k.fromhex s)) [
    | inl q ↦ cc (rw (q, decode) at h)
    | inr (b, q) ↦
        (let (cs, r, e) = >>=-eq-ok (decode ss) (λ cs. ok (b ∷ cs)) (rw (q, decode) at h) in
          (b, cs, q, r, sym (ok-injective e)))
  ]

  length-decode : (ss : List String) (bs : List k.Bytes) → decode ss ≡ ok bs → length bs ≡ length ss
  unfolding decode
  length-decode [] bs h = ap length (sym (ok-injective h))
  length-decode (s ∷ ss) bs h =
      let (b, cs, _, r, e) = decode-cons s ss bs h in rw e (ap suc (length-decode ss cs r))

  decode-at :
      (ss : List String) (bs : List k.Bytes) (i : ℕ)
      → decode ss ≡ ok bs
      → i < length ss
      → (s : String) × (b : k.Bytes) × (get_elem? ss i ≡ some s)
        × (k.fromhex s ≡ some b)
        × (get_elem? bs i ≡ some b)
  unfolding decode
  decode-at [] bs i h le = let no : ⊥ = omega arith in elim no [ ]
  decode-at (s ∷ ss) bs zero h le =
      let (b, cs, q, _, e) = decode-cons s ss bs h in (s, b, refl, q, rw e refl)
  decode-at (s ∷ ss) bs (suc i) h le =
      let (b, cs, _, r, e) = decode-cons s ss bs h in
      let (t, c, at_t, q, at_c) = decode-at ss cs i r (omega (arith, le)) in
      (t, c, at_t, q, rw e at_c)

  proof-MerkleTree :
      (t : MerkleTree) (i : ℕ) (leaf : String) (b : k.Bytes) (path : List (k.Bytes × Side))
      → ((b : k.Bytes) → k.fromhex (k.hex b) ≡ some b)
      → get_elem? t.leaves i ≡ some leaf
      → k.fromhex leaf ≡ some b
      → siblings_from t.levels i ≡ some path
      → root_of t.levels ≡ some (fold_path b path)
      → (pf : MerkleProof) × (proof i t ≡ ok pf) × (verify_proof pf ≡ ok true)
  unfolding proof verify_proof root_hex
  proof-MerkleTree t i leaf b path back at_leaf read sibs root = (
    record {
      leaf_index = i;
      leaf_hash = leaf;
      siblings = map hex_sibling path;
      root = k.hex (fold_path b path);
    },
    rw (at_leaf, sibs, proof) (rw (root, root_hex) refl),
    rw (read, verify_proof)
        (rw (climb-map back b path) (ap ok (eq_refl (k.hex (fold_path b path))))),
  )

  -- Every leaf of a tree has an inclusion proof, and it verifies. `bytes.fromhex` reads back what
  -- `bytes.hex` writes.
  pub every_proof_verifies :
      (fromhex-hex : (b : k.Bytes) → k.fromhex (k.hex b) ≡ some b) (leaves : List String)
      (t : MerkleTree) (i : ℕ)
      → new_tree leaves ≡ ok t
      → i < length leaves
      → (pf : MerkleProof) × (proof i t ≡ ok pf) × (verify_proof pf ≡ ok true)
  unfolding new_tree proof verify_proof root_hex
  every_proof_verifies fromhex-hex [] t i h le = cc
  every_proof_verifies fromhex-hex (s ∷ ss) t i h le =
      let (bs, decoded, e) = >>=-eq-ok (decode (s ∷ ss)) _ h in
      let (leaf, b, at_leaf, read, at_b) = decode-at (s ∷ ss) bs i decoded le in
      let (path, sibs, root) = path_to_root (length bs) bs i b at_b (omega arith) in
      subst
        (λ (u : MerkleTree). (pf : MerkleProof) × (proof i u ≡ ok pf) × (verify_proof pf ≡ ok true))
        (ok-injective e)
        (proof-MerkleTree (record { leaves = s ∷ ss; levels = build (length bs) bs }) i leaf b path
          fromhex-hex at_leaf read sibs root)
