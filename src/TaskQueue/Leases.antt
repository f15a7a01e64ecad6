-- ===== src/TaskQueue/Leases.antt =====
-- The leases of `TaskQueue` (adl_lite/agents/bus.py) over sequences of its operations.
use adl_lite.Prelude.{
  ℕ, ◌<◌, String, ◌≡◌, refl, sym, ap, ◌∙◌, false, none, some, List, [], ◌∷◌, str_eq, eq_iff, arith,
  Bool-cases, inl, inr,
}
use adl_lite.Prelude.Dict.{Dict, contains, lookup, insert, erase, lookup-insert, lookup-erase}
use adl_lite.TaskQueue.{expired, erase_all}

-- No key stands twice in a dictionary.
abbrev pub HasUniqueKeys : Dict (String × ℕ) → Type 0
HasUniqueKeys [] = Unit
HasUniqueKeys ((k, _) ∷ d) = (lookup k d ≡ none) × HasUniqueKeys d

pub insert-HasUniqueKeys :
    (k : String) (v : String × ℕ) (d : Dict (String × ℕ))
    → HasUniqueKeys d
    → HasUniqueKeys (insert k v d)
unfolding insert lookup
insert-HasUniqueKeys k v [] h = (refl, tt)
insert-HasUniqueKeys k v ((j, w) ∷ d) h = elim (Bool-cases (str_eq j k)) [
  | inl same ↦ rw same (ap (λ i. lookup i d) (sym ((eq_iff j k).0 same)) ∙ h.0, h.1)
  | inr other ↦ rw other (
    lookup-insert k j v d ∙ (ground (arith, eq_iff j k, eq_iff k j, h.0, other)),
    insert-HasUniqueKeys k v d h.1,
  )
]

pub erase-HasUniqueKeys :
    (k : String) (d : Dict (String × ℕ)) → HasUniqueKeys d → HasUniqueKeys (erase k d)
unfolding erase lookup
erase-HasUniqueKeys k [] h = tt
erase-HasUniqueKeys k ((j, w) ∷ d) h = elim (Bool-cases (str_eq j k)) [
  | inl same ↦ rw same (erase-HasUniqueKeys k d h.1)
  | inr other ↦ rw other (
    lookup-erase k j d ∙ (ground (arith, eq_iff j k, eq_iff k j, h.0, other)),
    erase-HasUniqueKeys k d h.1,
  )
]

expired-absent :
    (now : ℕ) (k : String) (d : Dict (String × ℕ))
    → lookup k d ≡ none
    → contains k (expired now d) ≡ false
unfolding expired contains lookup
expired-absent now k [] h = refl
expired-absent now k ((j, (b, v)) ∷ d) h =
    ground (arith, eq_iff j k, eq_iff k j, expired-absent now k d, h)

pub expired-live :
    (now : ℕ) (k : String) (d : Dict (String × ℕ)) (a : String) (until : ℕ)
    → HasUniqueKeys d
    → lookup k d ≡ some (a, until)
    → now < until
    → contains k (expired now d) ≡ false
unfolding expired contains lookup
expired-live now k [] a until u h lt = cc
expired-live now k ((j, (b, v)) ∷ d) a until u h lt = ground (
  arith,
  eq_iff j k,
  eq_iff k j,
  expired-absent now k d,
  expired-live now k d a until u.1,
  h,
  u.0,
)

pub lookup-erase_all :
    (ks : List String) (k : String) (d : Dict (String × ℕ))
    → contains k ks ≡ false
    → lookup k (erase_all ks d) ≡ lookup k d
unfolding erase_all contains
lookup-erase_all [] k d h = refl
lookup-erase_all (j ∷ ks) k d h =
    ground (arith, eq_iff j k, eq_iff k j, lookup-erase_all ks k (erase j d), lookup-erase j k d, h)

pub erase_all-HasUniqueKeys :
    (ks : List String) (d : Dict (String × ℕ)) → HasUniqueKeys d → HasUniqueKeys (erase_all ks d)
unfolding erase_all
erase_all-HasUniqueKeys [] d h = h
erase_all-HasUniqueKeys (k ∷ ks) d h =
    erase_all-HasUniqueKeys ks (erase k d) (erase-HasUniqueKeys k d h)
