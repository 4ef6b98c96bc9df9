-- ===== src/Lookup.antt =====
-- What the server reads of its games in Redis: events, players and games.
pub mod Events
pub mod Players
pub mod Games
mod Tests
