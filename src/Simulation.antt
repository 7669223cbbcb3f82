-- ===== src/Simulation.antt =====
-- The paper-trading runs (modules/simulation/service.py).
pub mod Fills
pub mod Trading
pub mod Gate
pub mod Runs
pub mod Lifecycle
