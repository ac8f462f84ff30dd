-- ===== src/Ai.antt =====
-- src/ai: the known endpoints, and the probe that keeps their health.
pub mod Endpoints
pub mod Probe
