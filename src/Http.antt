-- ===== src/Http.antt =====
-- server/http: how a handler ends early, and how its end becomes an answer.
pub mod Halt
pub mod Session
pub mod RateLimit
pub mod Wrapped
pub mod Router
pub mod Request
mod Tests
