-- ===== src/Osc.antt =====
-- src/oscmix_desk/osc.py: OSC 1.0 messages and bundles as bytes.
pub mod Bytes
pub mod Message
pub mod Bundle
