-- ===== src/Tests/Samples.antt =====
-- The platform and the events that the tests run on.
use adl_lite.Prelude.{String, Option, none, some, List, [], ◌∷◌, true}
use adl_lite.Prelude.Int.{ℤ, pos}
use adl_lite.Payload.{Fields, end, field, num, text, arr, obj, nil, cons}
use adl_lite.Event.{EventType, register, validate, Platform, Event, aware}
use adl_lite.Chain.{EventChain, empty_chain, append_all, link_to}
use adl_lite.Consensus.{ConsensusEngine, Document, Stamp, ForkManager}

-- All texts have one time, and the id of an event stands for its digest.
instance abbrev pub sample_platform : Platform
sample_platform = record {
  digest = λ c. c.event_id;
  fromisoformat = λ s. some (aware 0);
  float_of_text = λ s. none;
}

abbrev pub no_int_of_text : String → Option ℤ
no_int_of_text s = none

-- `Event(…)` before it is in a chain.
abbrev pub draft : String → EventType → String → Fields → Event
draft id et actor payload = record {
  event_id = id;
  concept_id = "cap";
  event_type = et;
  actor = actor;
  reasoning = "because";
  timestamp = "2024";
  payload = payload;
  previous_event_id = none;
  hash = "";
  signature = "";
  proof = none;
  prev_hash = "";
}

abbrev pub genesis : Event
genesis =
    draft "e1e1e1e1e1e1e1e1e1e1e1e1e1e1e1e1e1e1e1e1e1e1e1e1e1e1e1e1e1e1e1e1" register "ann" end

abbrev pub approval : Event
approval =
    draft "e2e2e2e2e2e2e2e2e2e2e2e2e2e2e2e2e2e2e2e2e2e2e2e2e2e2e2e2e2e2e2e2" validate "bob"
      (field "confidence" (num (pos 800000000)) end)

abbrev pub bad_approval : Event
bad_approval =
    draft "e3e3e3e3e3e3e3e3e3e3e3e3e3e3e3e3e3e3e3e3e3e3e3e3e3e3e3e3e3e3e3e3" validate "bob"
      (field "confidence" (text "high") end)

abbrev pub nameless : Event
nameless = draft "e4e4e4e4e4e4e4e4e4e4e4e4e4e4e4e4e4e4e4e4e4e4e4e4e4e4e4e4e4e4e4e4" register "" end

abbrev pub drafts : List Event
drafts = genesis ∷ approval ∷ []

abbrev pub sample_chain : EventChain
sample_chain = (append_all drafts (empty_chain "cap")).1

-- The same history with other reasons, which no hash covers.
abbrev pub other_chain : EventChain
other_chain =
    (append_all (record genesis { reasoning = "x" } ∷ record approval { reasoning = "y" } ∷ [])
      (empty_chain "cap")).1

abbrev pub nameless_chain : EventChain
nameless_chain = (append_all (nameless ∷ approval ∷ []) (empty_chain "cap")).1

-- The first two events of a chain, as they stand in it.
abbrev pub first_linked : Event → Event
first_linked e = link_to none e

abbrev pub second_linked : Event → Event → Event
second_linked e f = link_to (some (link_to none e)) f

-- An ontology whose transitions let a provisional capability be validated and forked.
abbrev pub sample_ontology : Fields
sample_ontology =
    field "status_transitions"
      (obj (
        field "provisional" (arr (cons (text "validated") (cons (text "forked") nil)))
          (field "validated" (arr (cons (text "validated") (cons (text "forked") nil))) end)))
      end

abbrev pub stamp1 : Stamp
stamp1 = record { event_id = "s1"; timestamp = "2025" }

abbrev pub stamp2 : Stamp
stamp2 = record { event_id = "s2"; timestamp = "2025" }

abbrev pub no_forks : ForkManager
no_forks = record { forks = []; creation_times = [] }

abbrev pub sample_document : Document
sample_document = record {
  adl_id = "cap";
  event_chain = empty_chain "cap";
  has_execution_spec = true;
}

-- An engine in development mode that holds `sample_chain`.
abbrev pub sample_engine : ConsensusEngine
sample_engine = record {
  chains = ("cap", sample_chain) ∷ [];
  fork_manager = no_forks;
  ontology = sample_ontology;
  dev_mode = true;
}
