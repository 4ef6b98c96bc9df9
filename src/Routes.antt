-- ===== src/Routes.antt =====
-- server/routes: the handlers of the HTTP API.
pub mod Subscription
pub mod Args
pub mod Edits
pub mod Rolls
pub mod Initiative
pub mod Events
pub mod Players
pub mod Auth
pub mod Frontend
mod World
mod Tests
