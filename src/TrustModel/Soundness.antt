-- ===== src/TrustModel/Soundness.antt =====
-- What a chain has that `TrustValidator.validate_event_chain` (adl_lite/trust_model.py) finds valid.
use adl_lite.Prelude.{
  ℕ, ◌≤◌, String, ◌≡◌, ◌≢◌, refl, sym, ap, subst, ◌∙◌, Bool, true, false, ◌&&◌, Option, List, [],
  ◌∷◌, ◌++◌, All, ◌⊎◌, inl, inr, Bool-cases, false≢true, str_eq, eq_iff, length, leb, ltb, arith,
  if◌then◌else◌,
}
use adl_lite.Prelude.Dict.{contains}
use adl_lite.Prelude.Text.{is_empty}
use adl_lite.Prelude.Result.{Result, ok, err, ok-injective, ◌>>=◌, >>=-eq-ok}
use adl_lite.Event.{Event}
use adl_lite.Chain.{EventChain}
use adl_lite.Did.Resolver.{Signatures, is_did}
use adl_lite.TrustModel.{
  insufficient_validators, diversity_missing, ConsensusConfig, ResolvedConfig, resolve, TrustError,
  ValidationResult, binding_failed,
}
use adl_lite.TrustModel.Loops.{
  find_discoverer, validate_events, is_discoverer, add_key, Gathered, Identity, known, unsupported,
  unresolved, identity_keys, gather, verify_did_event, binding_errors,
}
use adl_lite.TrustModel.Verdict.{
  is_clean, conclude, TrustValidator, effective_provider, reputation_errors, validate_event_chain,
}

abbrev pub IsDistinct : List String → Type 0
IsDistinct [] = Unit
IsDistinct (x ∷ xs) = (contains x xs ≡ false) × IsDistinct xs

add_key-IsDistinct : (x : String) (xs : List String) → IsDistinct xs → IsDistinct (add_key x xs)
unfolding add_key
add_key-IsDistinct x xs h = elim (Bool-cases (contains x xs)) [
  | inl there ↦ rw there h
  | inr new ↦ rw new (new, h)
]

contains-add_key :
    (i x : String) (xs : List String)
    → contains i (add_key x xs) ≡ true
    → (i ≡ x) ⊎ (contains i xs ≡ true)
unfolding add_key contains
contains-add_key i x xs h = elim (Bool-cases (contains x xs)) [
  | inl there ↦ inr (rw there at h)
  | inr new ↦ (elim (Bool-cases (str_eq i x)) [
    | inl same ↦ inl ((eq_iff i x).0 same)
    | inr other ↦ inr (rw (new, other) at h)
  ])
]

not_clean : (es : List TrustError) (e : TrustError) → es ++ e ∷ [] ≢ []
not_clean [] e h = cc
not_clean (x ∷ es) e h = cc

Identity-cases :
    (x : Identity)
    → ((i : String) × (d : String × String) × (x ≡ known i d))
      ⊎ ((x ≡ unsupported) ⊎ (x ≡ unresolved))
Identity-cases (known i d) = inl (i, d, refl)
Identity-cases unsupported = inr (inl refl)
Identity-cases unresolved = inr (inr refl)

module _ ⦃k : Signatures⦄ (b64encode : List ℕ → String) where
  -- Some validation is by an actor of the identity.
  abbrev pub Claimed : String → List Event → Type 0
  Claimed i [] = ⊥
  Claimed i (e ∷ es) =
      ((diversity : String × String) × (identity_keys b64encode e.actor ≡ known i diversity))
      ⊎ Claimed i es

  -- What a loop without errors has found.
  abbrev Sound : Option String → List Event → Gathered → Gathered → Type 0
  Sound discoverer es g g' =
      (g.errors ≡ [])
      × All (λ (e : Event). is_discoverer e.actor discoverer ≡ false) es
      × (IsDistinct g.identity_keys → IsDistinct g'.identity_keys)
      × ((i : String)
          → contains i g'.identity_keys ≡ true
          → (contains i g.identity_keys ≡ true) ⊎ Claimed i es)

  gather-Sound :
      (provider : Option (String → String × String)) (discoverer : Option String) (es : List Event)
      (g g' : Gathered)
      → gather b64encode provider discoverer es g ≡ ok g'
      → g'.errors ≡ []
      → Sound discoverer es g g'
  unfolding gather
  gather-Sound provider discoverer [] g g' h clean =
      let eq : g ≡ g' = ok-injective h in
      (
        ap (λ (x : Gathered). x.errors) eq ∙ clean,
        tt,
        subst (λ (x : Gathered). IsDistinct g.identity_keys → IsDistinct x.identity_keys) eq
            (λ d. d),
        λ i there. inl (ap (λ (x : Gathered). contains i x.identity_keys) eq ∙ there),
      )
  gather-Sound provider discoverer (e ∷ es) g g' h clean =
      elim (Bool-cases (is_discoverer e.actor discoverer)) [
        | inl loop ↦
            (let dirty =
                (gather-Sound provider discoverer es _ g' (rw (loop, gather) at h) clean).0 in
              absurd (not_clean g.errors _ dirty))
        | inr peer ↦ (elim (Identity-cases (identity_keys b64encode e.actor)) [
          | inr (inl refused) ↦ cc (rw (peer, refused, gather) at h)
          | inr (inr lost) ↦
              (let dirty =
                  (gather-Sound provider discoverer es _ g' (rw (peer, lost, gather) at h)
                    clean).0 in
                absurd (not_clean g.errors _ dirty))
          | inl (ident, diversity, found) ↦
              (let (start, peers, distinct, covered) =
                  gather-Sound provider discoverer es _ g' (rw (peer, found, gather) at h) clean in
                (
                  start,
                  (peer, peers),
                  (λ d. distinct (add_key-IsDistinct ident g.identity_keys d)),
                  (λ i there. elim (covered i there) [
                    | inr later ↦ inr (inr later)
                    | inl here ↦ (elim (contains-add_key i ident g.identity_keys here) [
                      | inl same ↦
                          inr (inl (diversity, found ∙ ap (λ j. known j diversity) (sym same)))
                      | inr before ↦ inl before
                    ])
                  ]),
                ))
        ])
      ]

module _ ⦃k : Signatures⦄ where
  -- An event by a DID has a signature that holds.
  abbrev pub Bound : Event → Type 0
  Bound e =
      (is_did e.actor ≡ false) ⊎ ((is_empty e.signature ≡ false) × (verify_did_event e ≡ ok true))

  all_hold :
      (holds : Bool) (later : List TrustError) (id : String)
      → (if holds then later else binding_failed id ∷ later) ≡ []
      → (holds ≡ true) × (later ≡ [])
  all_hold true later id h = (refl, h)
  all_hold false later id h = cc

  binding_errors-Bound : (es : List Event) → binding_errors es ≡ ok [] → All Bound es
  unfolding binding_errors
  binding_errors-Bound [] h = tt
  binding_errors-Bound (e ∷ es) h = elim (Bool-cases (is_did e.actor)) [
    | inr plain ↦ (inl plain, binding_errors-Bound es (rw (plain, binding_errors) at h))
    | inl did ↦ (elim (Bool-cases (is_empty e.signature)) [
      | inl unsigned ↦
          (let (later, _, joined) =
              >>=-eq-ok (binding_errors es) _ (rw (did, unsigned, binding_errors) at h) in
            cc (ok-injective joined))
      | inr signed ↦
          (let (holds, verified, rest) =
              >>=-eq-ok (verify_did_event e) _ (rw (did, signed, binding_errors) at h) in
            let (later, went, joined) = >>=-eq-ok (binding_errors es) _ rest in
            let (held, none_later) = all_hold holds later e.event_id (ok-injective joined) in
            (
              inr (signed, verified ∙ ap ok held),
              binding_errors-Bound es (went ∙ ap ok none_later),
            ))
    ])
  ]

and_parts : (a b : Bool) → (a && b) ≡ true → (a ≡ true) × (b ≡ true)
and_parts true b h = (refl, h)
and_parts false b h = absurd (false≢true h)

clean_parts :
    (es fs : List TrustError) → is_clean (es ++ fs) ≡ true → (es ≡ []) × (is_clean fs ≡ true)
unfolding is_clean
clean_parts [] fs h = (refl, h)
clean_parts (e ∷ es) fs h = absurd (false≢true h)

is_clean-nil : (es : List TrustError) → is_clean es ≡ true → es ≡ []
unfolding is_clean
is_clean-nil [] h = refl
is_clean-nil (e ∷ es) h = absurd (false≢true h)

enough_validators : (n m : ℕ) → leb n m ≡ true → n ≤ m
enough_validators n m h = ground (arith, h)

-- What a favourable conclusion needs.
conclude_valid :
    (config : ResolvedConfig) (g : Gathered) (reputation binding : List TrustError)
    → (conclude config g reputation binding).valid ≡ true
    → (g.errors ≡ []) × (config.min_distinct_validators ≤ length g.identity_keys) × (binding ≡ [])
unfolding conclude
conclude_valid config g reputation binding h =
    let n = length g.identity_keys in
    let enough = leb config.min_distinct_validators n in
    let diverse =
      if config.enforce_validator_diversity && ltb 0 n
      then leb n (length g.diversity_keys)
      else true in
    let few : List TrustError = if enough then [] else insufficient_validators ∷ [] in
    let alike : List TrustError = if diverse then [] else diversity_missing ∷ [] in
    let others = few ++ (reputation ++ (binding ++ alike)) in
    let clean = is_clean (g.errors ++ others) in
    let (front, _) = and_parts (clean && enough && is_clean binding) diverse h in
    let (start, bound) = and_parts (clean && enough) (is_clean binding) front in
    let (spotless, reached) = and_parts clean enough start in
    (
      (clean_parts g.errors others spotless).0,
      enough_validators config.min_distinct_validators n reached,
      is_clean-nil binding bound,
    )

abbrev none_yet : Gathered
none_yet = record { identity_keys = []; diversity_keys = []; sybil_filtered = false; errors = [] }

-- What both loops came to, where the checks returned.
both_loops :
    (gathering : Result Gathered) (bindings : Result (List TrustError))
    (finish : Gathered → List TrustError → ValidationResult) (r : ValidationResult)
    → (gathering >>= (λ g. bindings >>= (λ binding. ok (finish g binding)))) ≡ ok r
    → (g : Gathered) × (binding : List TrustError) × (gathering ≡ ok g)
      × (bindings ≡ ok binding)
      × (finish g binding ≡ r)
both_loops (err x) bindings finish r h = cc
both_loops (ok g) (err x) finish r h = cc
both_loops (ok g) (ok binding) finish r h = (g, binding, refl, refl, ok-injective h)

-- The chain is empty, or the checks ran.
checked_or_empty :
    (events : List Event) (empty : ValidationResult) (checked : Result ValidationResult)
    (r : ValidationResult)
    → (elim events [ [] ↦ ok empty | _ ∷ _ ↦ checked ]) ≡ ok r
    → (empty ≡ r) ⊎ (checked ≡ ok r)
checked_or_empty [] empty checked r h = inl (ok-injective h)
checked_or_empty (e ∷ es) empty checked r h = inr h

module _ ⦃k : Signatures⦄ (b64encode : List ℕ → String) where
  -- A chain that is found valid has the minimum of distinct identities among its validators, each of
  -- them claimed by a validation in it. No validation is by the discoverer, and every event by a
  -- DID has a signature that holds.
  pub valid_chain_is_trusted :
      (v : TrustValidator) (c : EventChain) (config : ConsensusConfig) (r : ValidationResult)
      → validate_event_chain b64encode v c config ≡ ok r
      → r.valid ≡ true
      → ((identities : List String) × ((resolve config).min_distinct_validators ≤ length identities)
          × IsDistinct identities
          × ((i : String)
              → contains i identities ≡ true
              → Claimed b64encode i (validate_events c.events)))
        × All
            (λ (e : Event). is_discoverer e.actor (find_discoverer c.events) ≡ false)
            (validate_events c.events)
        × All Bound c.events
  unfolding validate_event_chain contains
  valid_chain_is_trusted v c config r h valid = elim (checked_or_empty c.events _ _ r h) [
    | inl empty ↦ absurd (false≢true (ap (λ (x : ValidationResult). x.valid) empty ∙ valid))
    | inr checked ↦
        (let resolved = resolve config in
          let provider = effective_provider resolved v in
          let reputation = reputation_errors v.reputation resolved (validate_events c.events) in
          let (g, binding, gathered, verified, concluded) =
            both_loops
              (gather b64encode provider (find_discoverer c.events) (validate_events c.events)
                none_yet)
              (binding_errors c.events) (λ g binding. conclude resolved g reputation binding) r
              checked in
          let (clean, enough, bound) =
            conclude_valid resolved g reputation binding
              (ap (λ (x : ValidationResult). x.valid) concluded ∙ valid) in
          let (_, peers, distinct, covered) =
            gather-Sound b64encode provider (find_discoverer c.events) (validate_events c.events)
              none_yet g gathered clean in
          (
            (g.identity_keys, enough, distinct tt, λ i there. claimed i (covered i there)),
            peers,
            binding_errors-Bound c.events (verified ∙ ap ok bound),
          ))
  ]
    where
      claimed :
          (i : String)
          → (contains i [] ≡ true) ⊎ Claimed b64encode i (validate_events c.events)
          → Claimed b64encode i (validate_events c.events)
      claimed i (inl nowhere) = absurd (false≢true nowhere)
      claimed i (inr there) = there
