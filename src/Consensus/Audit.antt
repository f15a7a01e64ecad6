-- ===== src/Consensus/Audit.antt =====
-- `ConsensusEngine.verify_all` (adl_lite/consensus.py).
use adl_lite.Prelude.{
  String, ◌≡◌, refl, sym, Bool, true, false, none, some, List, [], ◌∷◌, str_eq, Bool-cases, drop,
  inl, inr, subst,
}
use adl_lite.Prelude.Dict.{Dict, lookup}
use adl_lite.Prelude.Result.{Result, ok, err, ◌>>=◌, >>=-eq-ok, ok-injective, type_error}
use adl_lite.Event.{Event, DiscoveryStatus, provisional, Platform}
use adl_lite.Chain.{EventChain, status}
use adl_lite.Chain.Verify.{
  Verdict, valid, invalid, raises, Progress, finish, verify_prefix, start_index, event_before,
  initial_progress, verify_from, has_archive, keeps_prefix, verify_integrity,
}
use adl_lite.Consensus.{ConsensusEngine, get_status}

module _ ⦃p : Platform⦄ where
  -- The comprehension over the chains. A call that raises ends it, with the caches of the chains
  -- before it written.
  unfoldable pub verify_chains : Dict EventChain → Result (Dict Bool) × Dict EventChain
  verify_chains [] = (ok [], [])
  verify_chains ((cid, c) ∷ d) =
      let (v, c') = verify_integrity c in
      let (rest, d') = verify_chains d in
      elim v [
        | raises ↦ (err type_error, (cid, c') ∷ d)
        | valid ↦ ((do vs ← rest; ok ((cid, true) ∷ vs)), (cid, c') ∷ d')
        | invalid ↦ ((do vs ← rest; ok ((cid, false) ∷ vs)), (cid, c') ∷ d')
      ]

  unfoldable pub verify_all : ConsensusEngine → Result (Dict Bool) × ConsensusEngine
  unfolding verify_chains
  verify_all g = let (r, d) = verify_chains g.chains in (r, record g { chains = d })

  -- `True` for a chain that is intact.
  abbrev pub passes : Verdict → Bool
  passes valid = true
  passes _ = false

  finish-status :
      (c : EventChain) (kept : Bool) (v : Verdict) (g : Progress)
      → status (finish c kept (v, g)).1 ≡ status c
  unfolding finish status
  finish-status c kept valid g = refl
  finish-status c kept invalid g = refl
  finish-status c kept raises g = refl

  verify_prefix-status : (c : EventChain) → status (verify_prefix c).1 ≡ status c
  unfolding verify_prefix
  verify_prefix-status c =
      finish-status c (keeps_prefix c.verified_event_ids c.events) (checked c).0 (checked c).1
    where
      checked : EventChain → Verdict × Progress
      checked c =
          let start = start_index c.verified_event_ids c.events in
          verify_from (has_archive c.events) c.concept_id start (event_before start c.events)
            (initial_progress c) (drop start c.events)

  verify_integrity-status : (c : EventChain) → status (verify_integrity c).1 ≡ status c
  unfolding verify_integrity
  verify_integrity-status c = by_events c.events
    where
      by_events :
          (es : List Event)
          → status
              (elim es as (λ _. Verdict × EventChain) [
                | [] ↦ (valid, c)
                | _ ∷ _ ↦ verify_prefix c
              ]).1
            ≡ status c
      by_events [] = refl
      by_events (e ∷ es) = verify_prefix-status c

  -- The status of the chain that a dictionary has for a capability.
  status_in : String → Dict EventChain → DiscoveryStatus
  status_in id d = elim (lookup id d) [ none ↦ provisional | some c ↦ status c ]

  status_in-cons :
      (id cid : String) (c c' : EventChain) (d d' : Dict EventChain)
      → status c' ≡ status c
      → status_in id d' ≡ status_in id d
      → status_in id ((cid, c') ∷ d') ≡ status_in id ((cid, c) ∷ d)
  unfolding status_in lookup
  status_in-cons id cid c c' d d' h k = elim (Bool-cases (str_eq cid id)) [
    | inl same ↦ rw (same, status_in) h
    | inr other ↦ rw (other, status_in) k
  ]

  status_at_head :
      (id cid : String) (c : EventChain) (v : Verdict) (d : Dict EventChain)
      → (verify_integrity c).0 ≡ v
      → status_in id (verify_chains d).1 ≡ status_in id d
      → status_in id (verify_chains ((cid, c) ∷ d)).1 ≡ status_in id ((cid, c) ∷ d)
  unfolding verify_chains
  status_at_head id cid c valid d q rest =
      rw (q, verify_chains)
        (status_in-cons id cid c (verify_integrity c).1 d (verify_chains d).1
          (verify_integrity-status c) rest)
  status_at_head id cid c invalid d q rest =
      rw (q, verify_chains)
        (status_in-cons id cid c (verify_integrity c).1 d (verify_chains d).1
          (verify_integrity-status c) rest)
  status_at_head id cid c raises d q rest =
      rw (q, verify_chains)
        (status_in-cons id cid c (verify_integrity c).1 d d (verify_integrity-status c) refl)

  verify_chains-status :
      (id : String) (d : Dict EventChain) → status_in id (verify_chains d).1 ≡ status_in id d
  unfolding verify_chains
  verify_chains-status id [] = refl
  verify_chains-status id ((cid, c) ∷ d) =
      status_at_head id cid c (verify_integrity c).0 d refl (verify_chains-status id d)

  verdict_at_head :
      (cid : String) (c : EventChain) (v : Verdict) (d : Dict EventChain) (vs : Dict Bool)
      → (verify_integrity c).0 ≡ v
      → (verify_chains ((cid, c) ∷ d)).0 ≡ ok vs
      → (rest : Dict Bool) × ((verify_chains d).0 ≡ ok rest)
        × (vs ≡ (cid, passes v) ∷ rest)
        × ((verify_chains ((cid, c) ∷ d)).1 ≡ (cid, (verify_integrity c).1) ∷ (verify_chains d).1)
  unfolding verify_chains
  verdict_at_head cid c valid d vs q h =
      let (rest, got, eq) =
        >>=-eq-ok (verify_chains d).0 (λ vs. ok ((cid, true) ∷ vs)) (rw (q, verify_chains) at h) in
      (rest, got, sym (ok-injective eq), rw (q, verify_chains) refl)
  verdict_at_head cid c invalid d vs q h =
      let (rest, got, eq) =
        >>=-eq-ok (verify_chains d).0 (λ vs. ok ((cid, false) ∷ vs)) (rw (q, verify_chains) at h) in
      (rest, got, sym (ok-injective eq), rw (q, verify_chains) refl)
  verdict_at_head cid c raises d vs q h = cc (rw (q, verify_chains) at h)

  some_injective : {x y : EventChain} → some x ≡ some y → x ≡ y
  some_injective e = cc

  verify_chains-verdict :
      (id : String) (c : EventChain) (d : Dict EventChain) (vs : Dict Bool)
      → (verify_chains d).0 ≡ ok vs
      → lookup id d ≡ some c
      → (lookup id vs ≡ some (passes (verify_integrity c).0))
        × (lookup id (verify_chains d).1 ≡ some (verify_integrity c).1)
  unfolding lookup
  verify_chains-verdict id c [] vs h found = cc
  verify_chains-verdict id c ((cid, b) ∷ d) vs h found =
      let (rest, got, vs_eq, d_eq) = verdict_at_head cid b (verify_integrity b).0 d vs refl h in
      rw (vs_eq, d_eq)
        (elim (Bool-cases (str_eq cid id)) [
          | inl same ↦
              (let eq : some b ≡ some c = rw (same, lookup) at found in
                subst
                  (λ (x : EventChain).
                    (lookup id ((cid, passes (verify_integrity b).0) ∷ rest)
                      ≡ some (passes (verify_integrity x).0))
                    × (lookup id ((cid, (verify_integrity b).1) ∷ (verify_chains d).1)
                        ≡ some (verify_integrity x).1))
                  (some_injective eq) (rw (same, lookup) refl, rw (same, lookup) refl))
          | inr other ↦
              (let (x, y) = verify_chains-verdict id c d rest got (rw (other, lookup) at found) in
                (rw (other, lookup) x, rw (other, lookup) y))
        ])

  -- Verifying all chains changes no capability's status, also when a verification raises.
  pub verify_all_keeps_status :
      (adl_id : String) (g : ConsensusEngine)
      → get_status adl_id (verify_all g).1 ≡ get_status adl_id g
  unfolding verify_all get_status status_in
  verify_all_keeps_status adl_id g = verify_chains-status adl_id g.chains

  -- When no verification raises, the result has for each capability the verdict of its own chain,
  -- and the engine keeps for it the chain with the cache that its verification wrote.
  pub verify_all_outcome :
      (adl_id : String) (c : EventChain) (g : ConsensusEngine) (vs : Dict Bool)
      → (verify_all g).0 ≡ ok vs
      → lookup adl_id g.chains ≡ some c
      → (lookup adl_id vs ≡ some (passes (verify_integrity c).0))
        × (lookup adl_id (verify_all g).1.chains ≡ some (verify_integrity c).1)
  unfolding verify_all
  verify_all_outcome adl_id c g vs h found = verify_chains-verdict adl_id c g.chains vs h found
