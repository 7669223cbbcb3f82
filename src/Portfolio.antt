-- ===== src/Portfolio.antt =====
-- The account and the size of a position (libs/portfolio).
pub mod Account
pub mod Sizing
pub mod Bounds
