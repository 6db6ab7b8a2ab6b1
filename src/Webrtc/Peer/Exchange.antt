-- ===== src/Webrtc/Peer/Exchange.antt =====
-- Two peers of one IP group exchange their descriptions over the signaling server.
use localsend_uyava.Prelude.{ℕ-Eq, Text-Eq}
use localsend_uyava.Crypto.Token.{Crypto}
use localsend_uyava.Server.System.{System}
use localsend_uyava.Webrtc.Messages.{}
use localsend_uyava.Webrtc.Peer
use localsend_uyava.Webrtc.Peer.{Connection, Ended, task, panicked, disconnected, Peer}
