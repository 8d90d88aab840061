-- ===== src/Ome.antt =====
-- The offline engine of the memory service, infra/ome: what starts a strategy, and how one run ends.
pub mod Counter
pub mod Dispatch
pub mod Registry
pub mod Runner
pub mod Recovery
mod Examples
