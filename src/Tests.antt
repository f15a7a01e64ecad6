-- ===== src/Tests.antt =====
-- Tests and concrete instances of the theorems, one module for each part.
mod Samples
mod Chains
mod Engines
mod Agents
mod Syncs
mod Documents
mod Trust
mod Integrity
mod Crdts
mod Trees
mod Tasks
mod Challenges
mod Merges
mod Quotas
