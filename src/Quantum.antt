-- ===== src/Quantum.antt =====
-- src/quantum: the probabilistic choice among the candidates.
pub mod State
pub mod Entanglement
pub mod Router
