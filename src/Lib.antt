-- ===== src/Lib.antt =====
-- Verification of ADL Lite: event chains, their derived values and integrity, the consensus engine,
-- Merkle trees, the challenge protocol, the task lifecycle with its queue, quotas, agent identities
-- with their DIDs, the trust model, the synchronisation of edge nodes, and the execution of action blocks.
--
-- A capability is an append-only chain of hash-linked events. Status, confidence and validators are
-- derived from the chain and cached. The consensus engine keeps one chain for each capability, guards
-- the transitions by an ontology and a quorum, and forks capabilities. A challenge manager and the
-- task registry read and extend the same chains; the task queue leases tasks to agents. Agents are
-- chains of the same engine, keyed by a DID. Edge nodes keep a chain of their own and exchange events
-- with a center. A parsed document is turned into a chain, from which its front matter is derived, and
-- the action executor carries out the action blocks in it. The trust model checks the validations and
-- the signatures of a chain.
--
-- Parts, files and code:
--   Payload, Payload/*      JSON payloads and `_round_floats` (adl_lite/models.py)
--   Event                   `EventType`, `DiscoveryStatus`, `Event`, `_compute_hash` (adl_lite/models.py)
--   Chain                   `EventChain.append`, caches, `status`, `confidence`, `validators`
--                           (adl_lite/models.py); Chain/Axioms and Chain/Verify: `_verify_prefix` and
--                           `verify_integrity`; the other files of Chain/ hold proofs
--   Crdt, Crdt/*            `CRDTState` (adl_lite/crdt.py)
--   Merge, Merge/*          `_merge_two_chains`, `merge_event_chains` (adl_lite/crdt.py)
--   Report, Report/*        `well_formedness_report` (adl_lite/models.py)
--   Ontology                the accessors that the engine reads (adl_lite/ontology.py)
--   Consensus, Consensus/*  `ForkManager`, `ConsensusEngine` (adl_lite/consensus.py)
--   Merkle, Merkle/*        `MerkleTree` (adl_lite/merkle.py)
--   Challenge, Challenge/*  `ChallengeManager` (adl_lite/challenge.py)
--   Task, Task/*            `TaskRegistry`, `derive_task_status` (adl_lite/agents/task.py)
--   TaskQueue, TaskQueue/*  `TaskQueue` (adl_lite/agents/bus.py)
--   Quota, Quota/*          `QuotaConfig`, `check_quota` (adl_lite/quota.py)
--   Did, Did/*              base58btc, did:key, documents, `verify_did_signature`
--                           (adl_lite/did_resolver.py)
--   Agent, Agent/*          `AgentRegistry`, `AgentProfile`, `chain_kind` (adl_lite/agents/identity.py)
--   Sync, Sync/*            `SideEffectQueue`, `SyncManager`, `EdgeNode` (adl_lite/sync_manager.py)
--   Document, Document/*    `ADLFrontMatter`, `ADLDocument`, `EventChain.from_parsed`
--                           (adl_lite/models.py)
--   Precondition            `PreconditionRule` (adl_lite/models.py)
--   Executor, Executor/*    `ActionExecutor` (adl_lite/action_executor.py)
--   TrustModel, TrustModel/*  `ConsensusConfig`, `TrustValidator` (adl_lite/trust_model.py)
--   Tests, Tests/*          instances of the theorems at concrete inputs, and tests
--   Prelude, Prelude/*      Boolean tests, lists, integers, dictionaries, texts, results
--
-- State is passed explicitly: an operation takes the record of its component and returns the result
-- beside the new record. An exception is an error value; where the code has changed something before
-- it raises, the new state shows it. Locks are not modelled: each method is one atomic step.
--
-- Bounds and representation: a JSON number and a confidence are counted in units of 10^-9, and
-- instants in nanoseconds since `datetime.min`. Infinities, NaN and whole numbers beyond the range of a
-- float, for which `float` raises, have no counterpart. The deadline of an answer overflows beyond
-- `datetime.max` in UTC; that of another zone differs by less than a day. `MerkleTree._build` runs on fuel, the number of leaves, and `build_root` in
-- Merkle/Levels shows that the last level then has one node. The loops of base58 (`digits`, `bits`) run
-- on fuel, the number itself, which each round divides; `read_digits-digits` in Did/Base58 and
-- `bits_fuel` in Did/Bytes show that it is enough. All other loops are structural.
--
-- Parameters: SHA-256 over canonical JSON, `datetime.fromisoformat` and `float` of a text (the record
-- `Platform`), the hash and the hex texts of the Merkle tree (the record `Hashing`), `int` of a text,
-- `str` of a number, a list or a dict, the ids and times that `Event(...)` draws (the record `Stamp`), the
-- usage that the metering store has for a tenant, base64 and the checks of signatures (the record
-- `Signatures`), the executor of side effects, the readings of the clock for queued
-- effects, the plug-ins of the action executor with its calibrator (the record `Plugins`, whose side
-- effects may change the document and the block that they are given, but no other block), the diversity provider and the reputation store of the trust model.
--
-- Some calls that raise `TypeError` in the code are refused by the model in another way: an ontology
-- whose transitions are null, a number or a Boolean has no transitions, and the report names a CHALLENGE
-- event whose phase is a list or a dict. A priority of a task that is a text of digits counts as refused.
--
-- Not modelled: LD proofs and signatures against a registry of keys, archives in cold storage, the
-- sharing of event objects between chains outside `pull`, the parser of documents, message transport,
-- the HTTP, command-line and tool interfaces, exports, and the numeric parts (calibration, trust
-- scores, vector indexes).
pub mod Prelude
pub mod Payload
pub mod Event
pub mod Chain
pub mod Crdt
pub mod Ontology
pub mod Consensus
pub mod Merkle
pub mod Task
pub mod TaskQueue
pub mod Did
pub mod Agent
pub mod Challenge
pub mod Report
pub mod Merge
pub mod Quota
pub mod Sync
pub mod Document
pub mod Precondition
pub mod Executor
pub mod TrustModel
pub mod Tests
