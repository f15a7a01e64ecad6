-- ===== src/Crdt/Lattice.antt =====
-- `CRDTState.merge` (adl_lite/crdt.py) is the join of a semilattice.
use adl_lite.Prelude.{◌≤◌, ◌≡◌, arith}
use adl_lite.Prelude.Int.{◌≤ℤ◌, eq_of_parts}
use adl_lite.Crdt.{StatusOrder, value, CrdtState, merge}

-- The order of the derived states, field by field.
pub record IsBelow (a b : CrdtState) : Type 0 where
  pub status : value a.status ≤ value b.status
  pub confidence : a.confidence ≤ℤ b.confidence
  pub validator_count : a.validator_count ≤ b.validator_count
  pub evidence_count : a.evidence_count ≤ b.evidence_count

pub value-injective : (a b : StatusOrder) → value a ≡ value b → a ≡ b
unfolding value
value-injective a b h = ground arith

-- In this order any two states that lie below each other are equal.
pub IsBelow-antisym : (a b : CrdtState) → IsBelow a b → IsBelow b a → a ≡ b
IsBelow-antisym a b h k = λ i. record {
  status = value-injective a.status b.status (omega arith) i;
  confidence = eq_of_parts a.confidence b.confidence (omega arith) i;
  validator_count = (let e : a.validator_count ≡ b.validator_count = omega arith in e) i;
  evidence_count = (let e : a.evidence_count ≡ b.evidence_count = omega arith in e) i;
}

merge_above_left : (a b : CrdtState) → IsBelow a (merge a b)
unfolding merge
merge_above_left a b = record {
  status = ground arith;
  confidence = ground arith;
  validator_count = ground arith;
  evidence_count = ground arith;
}

merge_above_right : (a b : CrdtState) → IsBelow b (merge a b)
unfolding merge
merge_above_right a b = record {
  status = ground arith;
  confidence = ground arith;
  validator_count = ground arith;
  evidence_count = ground arith;
}

merge_least : (a b c : CrdtState) → IsBelow a c → IsBelow b c → IsBelow (merge a b) c
unfolding merge
merge_least a b c h k = record {
  status = ground arith;
  confidence = ground arith;
  validator_count = ground arith;
  evidence_count = ground arith;
}

-- The merge lies above both states, and below every state that lies above both.
pub merge_is_lub :
    (a b c : CrdtState)
    → IsBelow a c
    → IsBelow b c
    → IsBelow a (merge a b) × IsBelow b (merge a b) × IsBelow (merge a b) c
merge_is_lub a b c h k = (merge_above_left a b, merge_above_right a b, merge_least a b c h k)

IsBelow-refl : (a : CrdtState) → IsBelow a a
IsBelow-refl a = omega arith

pub IsBelow-trans : (a b c : CrdtState) → IsBelow a b → IsBelow b c → IsBelow a c
IsBelow-trans a b c h k = omega arith

merge_swapped : (a b : CrdtState) → IsBelow (merge a b) (merge b a)
merge_swapped a b = merge_least a b (merge b a) (merge_above_right b a) (merge_above_left b a)

merge_regrouped : (a b c : CrdtState) → IsBelow (merge (merge a b) c) (merge a (merge b c))
merge_regrouped a b c =
    let right = merge_above_right a (merge b c) in
    merge_least (merge a b) c (merge a (merge b c))
      (merge_least a b (merge a (merge b c)) (merge_above_left a (merge b c))
        (IsBelow-trans b (merge b c) (merge a (merge b c)) (merge_above_left b c) right))
      (IsBelow-trans c (merge b c) (merge a (merge b c)) (merge_above_right b c) right)

merge_ungrouped : (a b c : CrdtState) → IsBelow (merge a (merge b c)) (merge (merge a b) c)
merge_ungrouped a b c =
    let left = merge_above_left (merge a b) c in
    merge_least a (merge b c) (merge (merge a b) c)
      (IsBelow-trans a (merge a b) (merge (merge a b) c) (merge_above_left a b) left)
      (merge_least b c (merge (merge a b) c)
        (IsBelow-trans b (merge a b) (merge (merge a b) c) (merge_above_right a b) left)
        (merge_above_right (merge a b) c))

-- The merge of derived states is commutative, associative and idempotent.
pub merge_semilattice :
    (a b c : CrdtState)
    → (merge a b ≡ merge b a) × (merge (merge a b) c ≡ merge a (merge b c)) × (merge a a ≡ a)
merge_semilattice a b c = (
  IsBelow-antisym (merge a b) (merge b a) (merge_swapped a b) (merge_swapped b a),
  IsBelow-antisym _ _ (merge_regrouped a b c) (merge_ungrouped a b c),
  IsBelow-antisym (merge a a) a (merge_least a a a (IsBelow-refl a) (IsBelow-refl a))
      (merge_above_left a a),
)
