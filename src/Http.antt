-- ===== src/Http.antt =====
-- core/src/http/: the server and the client of the LocalSend protocol over HTTP.
pub mod Reply
pub mod Lru
pub mod Dto
pub mod Server
pub mod Client
mod Tests
