-- ===== src/Tests.antt =====
-- Runs of the program on concrete inputs, and each theorem applied at one.
mod Samples
mod Books
mod Topics
mod Gates
mod Orders
mod Intents
mod Paper
mod Managers
mod Restores
mod Baskets
mod Journals
mod Sizes
mod Tracks
mod Firings
