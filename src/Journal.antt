-- ===== src/Journal.antt =====
-- The trade journal (libs/db/trade_journal.py).
pub mod Entries
pub mod Measured
pub mod Filled
pub mod Horizon
pub mod Ordered
pub mod Graded
pub mod Reported
