-- ===== src/Strategies.antt =====
-- The strategy manager (modules/strategy_manager/service.py).
pub mod Types
pub mod Templates
pub mod Manager
pub mod Lifecycle
pub mod Shutdown
