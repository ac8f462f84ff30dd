-- ===== src/Tests.antt =====
-- Runs of the model on concrete inputs, and the theorems at inputs that meet their hypotheses.
mod Circuit
mod Samples
mod Queue
mod Plumber
mod Vfs
mod Floats
mod Hub
mod Limits
mod Router
mod Services
mod System
mod Namespace
