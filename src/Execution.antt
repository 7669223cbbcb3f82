-- ===== src/Execution.antt =====
-- Order execution (modules/execution_engine): orders, the executor of a venue, baskets of legs, and
-- the intents that they come from.
pub mod Orders
pub mod Basket
pub mod Intent
