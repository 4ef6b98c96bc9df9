-- ===== src/Delivery.antt =====
-- From the packets of server/game/eventShare.go, through the filter text of
-- server/update/filter.go and the subscription of server/game/subscribe.go, to the stream that
-- server/routes/gameSubscription.go writes.
pub mod Packets
pub mod Receives
pub mod Events
pub mod Shares
pub mod Updates
mod Tests
