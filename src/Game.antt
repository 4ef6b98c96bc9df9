-- ===== src/Game.antt =====
-- server/game: games, their events and players, and who is told of a change.
pub mod Share
pub mod Subscribe
pub mod History
pub mod Connections
pub mod Players
mod Tests
