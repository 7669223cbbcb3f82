-- ===== src/Book.antt =====
-- The order book (libs/polymarket/book_state.py and libs/polymarket/replay.py).
pub mod Values
pub mod Levels
pub mod State
pub mod Reducer
pub mod Replay
