-- ===== src/Tests.antt =====
-- Runs of the definitions, and the theorems at concrete inputs.
mod Subkeys
mod Attributes
mod Index
mod Trees
mod Queues
mod PageLists
mod Stores
mod QueueRuns
mod Commands
