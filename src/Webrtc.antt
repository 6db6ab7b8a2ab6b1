-- ===== src/Webrtc.antt =====
-- core/src/webrtc/webrtc.rs: the exchange of two peers over a data channel.
pub mod Chunks
pub mod Messages
pub mod Io
pub mod Pin
pub mod Transfer
pub mod Handshake
pub mod Keeps
pub mod Trust
pub mod Session
pub mod Peer
pub mod Tests
