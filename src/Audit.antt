-- ===== src/Audit.antt =====
-- governance/audit.py: fingerprints, decision events, the log and the replay of a recorded check.
-- `digest` is the SHA-256 of the canonical JSON text, which library code computes.
pub mod Fingerprints
pub mod Events
pub mod Log
pub mod Replay
pub mod Exact
pub mod Sequence
