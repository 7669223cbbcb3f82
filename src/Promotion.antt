-- ===== src/Promotion.antt =====
-- The promotion gate: the statistics that a strategy must pass (libs/quant/promotion.py) and the board of
-- those that did (libs/quant/promotion_registry.py).
pub mod Sharpe
pub mod Evaluate
pub mod Multiples
pub mod Approved
pub mod Registry
pub mod Gate
