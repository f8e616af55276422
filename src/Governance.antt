-- ===== src/Governance.antt =====
-- src/rif_runtime/governance: the posture ladder, telemetry and the reflexive loop.
pub mod Posture
pub mod Telemetry
pub mod Reflexive
pub mod Drift
