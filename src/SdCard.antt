-- ===== src/SdCard.antt =====
-- firmware/genesis-mini/tools: apply_profile.py, which assigns a profile to a port, and
-- prepare_sd.py, which writes the settings of a card into its manifest.
pub mod Device
pub mod Manifest
pub mod Port
pub mod Examples
