-- ===== src/Sweep.antt =====
-- tools/secret_sweep.py: the secret sweep and the health probe.
pub mod Address
pub mod Scan
pub mod Command
pub mod Examples
