-- ===== src/App/Webrtc.antt =====
-- app/rust/src/api/webrtc.rs: connecting to the signaling server, and what an application has of a
-- running transfer. The controllers are below.
pub mod Connected
pub mod PinSender
pub mod Receiving
pub mod Sending
pub mod Tasks
mod Tests
use localsend_uyava.Prelude.{
  ℕ, List, [], ◌∷◌, map, Option, none, some, Text, ascii, Result, ok, err, ◌>>=◌,
}
use localsend_uyava.Model.{DeviceType}
use localsend_uyava.Crypto.Token.{
  Crypto, Outcome, value, panic, VerifyingTokenKey, generate_token_timestamp,
}
use localsend_uyava.Crypto.Keys.{KeyFormats, parse_private_key, parse_public_key}
use localsend_uyava.Signaling.{ClientInfo, ClientInfoWithoutId, WsServerMessage}
use localsend_uyava.Signaling.Client.{Event, started, run}
use localsend_uyava.Signaling.Connect.{SignalingConnection}
use localsend_uyava.Signaling.Listener.{always}

-- What a call adds to a `StreamSink`. Whether the application still listens is not looked at.
pub data Sunk (A : Type 0) : Type 0 where
  add : A → Sunk A
  add_error : Text → Sunk A

pub record ProposingClientInfo : Type 0 where
  pub alias : Text
  pub version : Text
  pub device_model : Option Text
  pub device_type : Option DeviceType

pub record ExpectingPublicKey : Type 0 where
  pub public_key : Text
  pub kind : Text

-- What `connect` has done when it ends: what the sink got, and the client with which it called
-- `on_connection`.
abbrev pub Reported : Type 0
Reported = List (Sunk WsServerMessage) × Option ClientInfo

abbrev pub refused : Text → Reported
refused e = (add_error e ∷ [], none)

module _ (c : Crypto) where
  -- `now` is the clock.
  unfoldable pub sign : ProposingClientInfo → c.SigningKey → Result ℕ → Result ClientInfoWithoutId
  sign info signing_key now = generate_token_timestamp c signing_key now >>= λ token. ok (record {
    alias = info.alias;
    version = info.version;
    device_model = info.device_model;
    device_type = info.device_type;
    token = token;
  })

  -- The loop over what the listener forwards. `events` puts the callbacks that are added meanwhile
  -- between the messages of the connection.
  unfoldable pub listen :
      {C : Type 0}
      → (List WsServerMessage → List (Event C))
      → Outcome (Result SignalingConnection)
      → Outcome Reported
  listen events panic = panic
  listen events (value (err e)) = value (refused e)
  listen events (value (ok connection)) =
      value (map add (run always (events connection.rx) started).forwarded, some connection.client)

  module _ (keys : KeyFormats c)
      (open_socket : ClientInfoWithoutId → Outcome (Result SignalingConnection)) where
    abbrev pub signed :
        {C : Type 0}
        → (List WsServerMessage → List (Event C))
        → Result ClientInfoWithoutId
        → Outcome Reported
    signed events (ok client_info) = listen events (open_socket client_info)
    signed events (err e) = value (refused (ascii "Invalid client info"))

    abbrev pub with_key :
        {C : Type 0}
        → ProposingClientInfo
        → Result ℕ
        → (List WsServerMessage → List (Event C))
        → Result c.SigningKey
        → Outcome Reported
    with_key info now events (ok signing_key) = signed events (sign info signing_key now)
    with_key info now events (err e) = value (refused (ascii "Invalid private key"))

    unfoldable pub connect :
        {C : Type 0}
        → ProposingClientInfo
        → Text
        → Result ℕ
        → (List WsServerMessage → List (Event C))
        → Outcome Reported
    unfolding listen sign
    connect info private_key now events =
        with_key info now events (parse_private_key c keys private_key)

  module _ (keys : KeyFormats c) where
    unfoldable pub expected_key : Option ExpectingPublicKey → Result (Option VerifyingTokenKey)
    expected_key none = ok none
    expected_key (some key) =
        parse_public_key c keys key.public_key key.kind >>= λ parsed. ok (some parsed)

    -- The keys of `send_offer` and `accept_offer`, without which no task is spawned.
    unfoldable pub parse_keys :
        Text → Option ExpectingPublicKey → Result (c.SigningKey × Option VerifyingTokenKey)
    unfolding expected_key
    parse_keys private_key expecting = parse_private_key c keys private_key >>= λ signing_key.
        expected_key expecting >>= λ expecting_key. ok (signing_key, expecting_key)
