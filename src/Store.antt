-- ===== src/Store.antt =====
-- The repositories over SQLite (libs/db).
pub mod Order
pub mod Baskets
pub mod Intents
pub mod IntentLaws
