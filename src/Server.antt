-- ===== src/Server.antt =====
-- server/src/: the signaling server. Each handler of controller/ws_controller.rs is a function on
-- the shared maps of config/state.rs, for the part that holds a lock, with the list of the messages
-- that it sends after the lock, in order.
pub mod Error
pub mod State
pub mod Socket
pub mod Members
pub mod Bounds
pub mod Delivery
pub mod System
pub mod IpGroup
pub mod Upgrade
pub mod Tests
