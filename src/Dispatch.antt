-- ===== src/Dispatch.antt =====
-- examples/swarm-dispatch.py, the dispatch layer: the seat registry, the step timeouts, the
-- dispatch of a wave of steps and the fail-loud verdict.
pub mod Registry
pub mod Timeout
pub mod Run
mod Examples
