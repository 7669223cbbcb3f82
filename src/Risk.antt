-- ===== src/Risk.antt =====
-- The pre-trade risk checks (modules/risk_manager/risk_checker.py).
pub mod Checker
pub mod Admissible
pub mod Scan
pub mod Decision
