-- ===== src/Merkle/Dump.antt =====
-- `MerkleTree.to_dict` and `MerkleTree.from_dict` (adl_lite/merkle.py).
use adl_lite.Prelude.{
  String, ◌≡◌, refl, ap, subst, arith, ◌∙◌, Option, none, some, List, [], ◌∷◌, length, map, str_eq,
  eq_refl, eq_iff, Option-cases, inl, inr, ◌⊎◌, if◌then◌else◌,
}
use adl_lite.Prelude.Result.{
  if-eq-ok, Result, ok, err, ◌>>=◌, >>=-eq-ok, ok-injective, key_error, type_error, value_error,
}
use adl_lite.Payload.{
  Fields, field, end, Value, obj, num, bool, text, arr, null, Items, cons, nil, get, list_of,
}
use adl_lite.Merkle.Inclusion.{path_to_root}
use adl_lite.Merkle.{Hashing, MerkleTree, build, decode, new_tree, root_of, root_hex}

-- A list of texts as a JSON array.
unfoldable pub json_texts : List String → Items
json_texts [] = nil
json_texts (s ∷ ss) = cons (text s) (json_texts ss)

module _ ⦃k : Hashing⦄ where
  unfoldable pub hex_levels : List (List k.Bytes) → Items
  unfolding json_texts
  hex_levels [] = nil
  hex_levels (level ∷ levels) = cons (arr (json_texts (map k.hex level))) (hex_levels levels)

  unfoldable pub to_dict : MerkleTree → Result Fields
  unfolding json_texts hex_levels root_hex
  to_dict t = do
    root ← root_hex t
    ok (
        field "leaves" (arr (json_texts t.leaves))
          (field "root" (text root) (field "levels" (arr (hex_levels t.levels)) end)))

  -- `[bytes.fromhex(h) for h in tree.leaves]`, with the leaves: what is not a text is a `TypeError`.
  unfoldable pub decode_items : Items → Result (List String × List k.Bytes)
  decode_items nil = ok ([], [])
  decode_items (cons (text s) xs) = elim (k.fromhex s) [
    | none ↦ err value_error
    | some b ↦ (do r ← decode_items xs; ok (s ∷ r.0, b ∷ r.1))
  ]
  decode_items (cons _ xs) = err type_error

  -- The test of the recomputed root against the dump's.
  unfoldable pub check_root : Option Value → MerkleTree → Result MerkleTree
  unfolding root_hex
  check_root none t = ok t
  check_root (some null) t = ok t
  check_root (some (text r)) t = do
    root ← root_hex t
    (if str_eq root r then ok t else err value_error)
  check_root (some _) t = do root ← root_hex t; err value_error

  unfoldable pub from_dict : Fields → Result MerkleTree
  unfolding list_of decode_items check_root
  from_dict dump = elim (get "leaves" dump) [
    | none ↦ err key_error
    | some v ↦ (do
      xs ← list_of v
      r ← decode_items xs
      check_root (get "root" dump) (record { leaves = r.0; levels = build (length r.1) r.1 }))
  ]

  decode_items-json_texts :
      (ss : List String) (bs : List k.Bytes)
      → decode ss ≡ ok bs
      → decode_items (json_texts ss) ≡ ok (ss, bs)
  unfolding decode decode_items json_texts
  decode_items-json_texts [] bs h = ap (λ b. ok ([], b)) (ok-injective h)
  decode_items-json_texts (s ∷ ss) bs h = elim (Option-cases (k.fromhex s)) [
    | inl q ↦ cc (rw (q, decode) at h)
    | inr (b, q) ↦
        (let (rest, here, eq) = >>=-eq-ok (decode ss) (λ xs. ok (b ∷ xs)) (rw (q, decode) at h) in
          rw (q, decode_items-json_texts ss rest here)
            (ap (λ xs. ok (s ∷ ss, xs)) (ok-injective eq)))
  ]

  decode-cons :
      (s : String) (ss : List String) (b : k.Bytes) (bs : List k.Bytes)
      → k.fromhex s ≡ some b
      → decode ss ≡ ok bs
      → decode (s ∷ ss) ≡ ok (b ∷ bs)
  unfolding decode
  decode-cons s ss b bs q h = rw (q, decode) (rw h refl)

  decode-decode_items :
      (xs : Items) (ss : List String) (bs : List k.Bytes)
      → decode_items xs ≡ ok (ss, bs)
      → decode ss ≡ ok bs
  unfolding decode decode_items
  decode-decode_items nil ss bs h =
      let same : ([], []) ≡ (ss, bs) = ok-injective h in
      subst (λ (r : List String × List k.Bytes). decode r.0 ≡ ok r.1) same refl
  decode-decode_items (cons (text s) xs) ss bs h = elim (Option-cases (k.fromhex s)) [
    | inl q ↦ cc (rw (q, decode_items) at h)
    | inr (b, q) ↦
        (let (rest, here, eq) =
            >>=-eq-ok (decode_items xs) (λ r. ok (s ∷ r.0, b ∷ r.1)) (rw (q, decode_items) at h) in
          let same : (s ∷ rest.0, b ∷ rest.1) ≡ (ss, bs) = ok-injective eq in
          subst (λ (r : List String × List k.Bytes). decode r.0 ≡ ok r.1) same
            (decode-cons s rest.0 b rest.1 q (decode-decode_items xs rest.0 rest.1 here)))
  ]
  decode-decode_items (cons (obj _) xs) ss bs h = cc
  decode-decode_items (cons (arr _) xs) ss bs h = cc
  decode-decode_items (cons (num _) xs) ss bs h = cc
  decode-decode_items (cons (bool _) xs) ss bs h = cc
  decode-decode_items (cons null xs) ss bs h = cc

  -- A dump that names the root of the tree passes, and another does not.
  check_root-given :
      (r : String) (t u : MerkleTree)
      → check_root (some (text r)) t ≡ ok u
      → (t ≡ u) × (root_hex t ≡ ok r)
  unfolding check_root
  check_root-given r t u h =
      let (root, here, eq) =
        >>=-eq-ok (root_hex t) (λ (x : String). if str_eq x r then ok t else err value_error) h in
      let (same, eq') = if-eq-ok (str_eq root r) t value_error eq in
      (eq', here ∙ ap ok ((eq_iff root r).0 same))

  abbrev tree_of : List String → List k.Bytes → MerkleTree
  tree_of ss bs = record { leaves = ss; levels = build (length bs) bs }

  root_hex-some :
      (t : MerkleTree) (b : k.Bytes) → root_of t.levels ≡ some b → root_hex t ≡ ok (k.hex b)
  unfolding root_hex
  root_hex-some t b h = rw (h, root_hex) refl

  root_exists :
      (s : String) (ss : List String) (bs : List k.Bytes)
      → decode (s ∷ ss) ≡ ok bs
      → (r : k.Bytes) × (root_of (build (length bs) bs) ≡ some r)
  unfolding decode
  root_exists s ss [] h = elim (Option-cases (k.fromhex s)) [
    | inl q ↦ cc (rw (q, decode) at h)
    | inr (b, q) ↦
        (let (rest, _, eq) = >>=-eq-ok (decode ss) (λ xs. ok (b ∷ xs)) (rw (q, decode) at h) in
          cc (ok-injective eq))
  ]
  root_exists s ss (b ∷ bs) h =
      let (_, _, at_root) = path_to_root (length (b ∷ bs)) (b ∷ bs) 0 b refl (omega arith) in
      (_, at_root)

  dump_of :
      (ss : List String) (bs : List k.Bytes) (root : String)
      → decode ss ≡ ok bs
      → let t : MerkleTree = record { leaves = ss; levels = build (length bs) bs } in
        root_hex t ≡ ok root → (d : Fields) × (to_dict t ≡ ok d) × (from_dict d ≡ ok t)
  unfolding to_dict from_dict check_root get list_of
  dump_of ss bs root h q = (
    field "leaves" (arr (json_texts ss))
        (field "root" (text root) (field "levels" (arr (hex_levels (build (length bs) bs))) end)),
    rw q refl,
    rw (decode_items-json_texts ss bs h) (rw (q, eq_refl root) refl),
  )

  -- A tree that was built can be written down, and reading that dump gives the same tree.
  pub from_dict-to_dict :
      (leaves : List String) (t : MerkleTree)
      → new_tree leaves ≡ ok t
      → (d : Fields) × (to_dict t ≡ ok d) × (from_dict d ≡ ok t)
  unfolding new_tree root_hex decode
  from_dict-to_dict [] t h = cc
  from_dict-to_dict (s ∷ ss) t h =
      let (bs, dec, eq) = >>=-eq-ok (decode (s ∷ ss)) (λ xs. ok (tree_of (s ∷ ss) xs)) h in
      let (r, at_root) = root_exists s ss bs dec in
      subst (λ (u : MerkleTree). (d : Fields) × (to_dict u ≡ ok d) × (from_dict d ≡ ok u))
        (ok-injective eq)
        (dump_of (s ∷ ss) bs (k.hex r) dec (root_hex-some (tree_of (s ∷ ss) bs) r at_root))

  never_returns :
      {t u : MerkleTree} (call : Result String) → (call >>= (λ _. err value_error)) ≡ ok u → t ≡ u
  never_returns (ok _) h = cc
  never_returns (err _) h = cc

  check_root-same : (o : Option Value) (t u : MerkleTree) → check_root o t ≡ ok u → t ≡ u
  unfolding check_root
  check_root-same none t u h = ok-injective h
  check_root-same (some null) t u h = ok-injective h
  check_root-same (some (text r)) t u h = (check_root-given r t u h).0
  check_root-same (some (num _)) t u h = never_returns (root_hex t) h
  check_root-same (some (bool _)) t u h = never_returns (root_hex t) h
  check_root-same (some (arr _)) t u h = never_returns (root_hex t) h
  check_root-same (some (obj _)) t u h = never_returns (root_hex t) h

  built :
      (ss : List String) (bs : List k.Bytes)
      → decode ss ≡ ok bs
      → (ss ≡ []) ⊎ (new_tree ss ≡ ok (tree_of ss bs))
  unfolding new_tree
  built [] bs h = inl refl
  built (s ∷ ss) bs h = inr (rw h refl)

  -- What is read from a dump is a tree built from its leaves, unless it has none; and the root that
  -- the dump names is the root of that tree.
  pub from_dict-checks :
      (dump : Fields) (t : MerkleTree)
      → from_dict dump ≡ ok t
      → ((t.leaves ≡ []) ⊎ (new_tree t.leaves ≡ ok t))
        × ((r : String) → get "root" dump ≡ some (text r) → root_hex t ≡ ok r)
  unfolding from_dict
  from_dict-checks dump t h = elim (Option-cases (get "leaves" dump)) [
    | inl q ↦ cc (rw (q, from_dict) at h)
    | inr (v, q) ↦
        (let (xs, _, h1) =
            >>=-eq-ok (list_of v)
              (λ xs. decode_items xs >>= (λ r. check_root (get "root" dump) (tree_of r.0 r.1)))
              (rw (q, from_dict) at h) in
          let ((ss, bs), dec, h2) =
            >>=-eq-ok (decode_items xs) (λ r. check_root (get "root" dump) (tree_of r.0 r.1)) h1 in
          let t' = tree_of ss bs in
          subst
            (λ (u : MerkleTree).
              ((u.leaves ≡ []) ⊎ (new_tree u.leaves ≡ ok u))
              × ((r : String) → get "root" dump ≡ some (text r) → root_hex u ≡ ok r))
            (check_root-same (get "root" dump) t' t h2)
            (
              built ss bs (decode-decode_items xs ss bs dec),
              λ r g. (check_root-given r t' t (rw g at h2)).1,
            ))
  ]
