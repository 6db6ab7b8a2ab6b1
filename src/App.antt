-- ===== src/App.antt =====
-- app/rust/: the bridge between core and the application.
pub mod Buffer
pub mod Webrtc
