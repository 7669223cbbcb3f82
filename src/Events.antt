-- ===== src/Events.antt =====
-- The event bus (libs/events/__init__.py).
pub mod Topics
pub mod Subscription
pub mod Bus
pub mod View
pub mod Invariant
pub mod Safety
pub mod Steps
