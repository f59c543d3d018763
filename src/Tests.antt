-- ===== src/Tests.antt =====
-- The theorems at inputs that meet their hypotheses, and runs of the code.
mod Samples
mod Domain
mod Changeset
mod Graph
mod Tree
mod Index
mod Refs
mod Dials
mod Compare
mod Serve
mod Cache
mod Ingests
mod Reopen
