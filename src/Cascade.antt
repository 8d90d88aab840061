-- ===== src/Cascade.antt =====
-- memory/src/everos/memory/cascade: the scanner that compares the files on disk with the work queue,
-- and the worker that takes rows from the queue and hands them to the handlers of their kinds.
pub mod Reconcile
pub mod Worker
pub mod Orchestrator
mod Examples
