-- ===== src/Webrtc/Tests/Session.antt =====
-- Two peers that expect each other's key, on which the theorems about whole tasks are tried.
use localsend_uyava.Prelude.{
  ℕ, refl, ◌⊎◌, List, [], ◌∷◌, ◌++◌, Option, none, some, true, false, Bytes, Text, ascii, Result,
  ok, err, All, Text-Eq, ℕ-Eq,
}
use localsend_uyava.Model.{FileDto}
use localsend_uyava.Crypto.Toy.{toy as crypto}
use localsend_uyava.Crypto.Token.{VerifyingTokenKey, to_verifying_key, generate_token_nonce}
use localsend_uyava.Webrtc.Chunks.{DataChannelMessage, delimiter}
use localsend_uyava.Webrtc.Messages.{
  PinConfig, RtcTokenResponse, RtcPinSendingResponse, RtcFileListResponse,
}
use localsend_uyava.Webrtc.Io.{Io}
use localsend_uyava.Webrtc.Transfer.Sender.{works}
use localsend_uyava.Webrtc.Keeps.Pins.{IsQuiet}
use localsend_uyava.Webrtc.Handshake.Accepting.{receive_task}
use localsend_uyava.Webrtc.Trust.Accepting.{receive_task_safe}
use localsend_uyava.Webrtc.Trust.Sending as OfSender
use localsend_uyava.Webrtc.Trust.Accepting as OfReceiver
use localsend_uyava.Webrtc.Transfer.{RtcFile}
use localsend_uyava.Webrtc.Session.Complete.{sends, receives, turns}
use localsend_uyava.Webrtc.Tests.Toy.{toy}

abbrev sender_nonce : Bytes
sender_nonce = ascii "the nonce of the sending device."

abbrev receiver_nonce : Bytes
receiver_nonce = ascii "the nonce of the other, receiver"

abbrev token_of : Result Text → Text
token_of (ok t) = t
token_of (err e) = []

-- The sender's key is 7, the receiver's 8.
abbrev token : crypto.SigningKey → Text
token key = token_of (generate_token_nonce crypto key (sender_nonce ++ receiver_nonce))

abbrev key_of : crypto.SigningKey → Option VerifyingTokenKey
key_of key = some (to_verifying_key crypto key)

abbrev said : Text → DataChannelMessage
said t = record { is_string = true; contents = t }

abbrev sent : Bytes → DataChannelMessage
sent b = record { is_string = false; contents = b }

abbrev pin_config : PinConfig
pin_config = record { pin = ascii "12"; max_tries = 3 }

abbrev file : FileDto
file = record {
  id = ascii "f";
  file_name = ascii "f";
  size = 3;
  file_type = ascii "x";
  sha256 = none;
  preview = none;
  metadata = none;
}

-- The receiver has set a PIN.
abbrev to_receiver : Io
to_receiver = record {
  incoming =
      said (toy.nonce.to_string (record { nonce = crypto.encode sender_nonce }))
      ∷ said (toy.token_request.to_string (record { token = token 7 }))
      ∷ said (toy.pin.to_string (record { pin = ascii "12" }))
      ∷ sent (toy.pin_sending.to_string (RtcPinSendingResponse.ok (file ∷ [])))
      ∷ delimiter
      ∷ [];
  pins = [];
  log = [];
}

abbrev to_sender : Io
to_sender = record {
  incoming =
      said (toy.nonce.to_string (record { nonce = crypto.encode receiver_nonce }))
      ∷ said (toy.token_response.to_string (RtcTokenResponse.ok (token 8)))
      ∷ sent (toy.file_list.to_string (RtcFileListResponse.ok []))
      ∷ delimiter
      ∷ [];
  pins = [];
  log = [];
}

receive_task_safe_example :
    All
      (λ e.
        IsQuiet e
        ⊎ OfReceiver.IsTrusted toy crypto to_receiver.incoming receiver_nonce
            (key_of 7)
            (some pin_config))
      (receive_task toy works crypto true receiver_nonce
        (λ id. id)
        8
        (key_of 7)
        (some pin_config)
        (some (some []))
        []
        to_receiver).1.log
receive_task_safe_example =
    receive_task_safe toy works crypto true receiver_nonce (λ id. id) 8 (key_of 7) (some pin_config)
      (some (some [])) [] to_receiver refl

abbrev made : RtcFile
made = record { file_id = ascii "f"; binary_rx = (1 ∷ 2 ∷ []) ∷ (3 ∷ []) ∷ [] }

abbrev nonce : Bytes
nonce = sender_nonce ++ receiver_nonce

-- The first peer's task, that of the second, and what the second has sent after some turns.
abbrev send : List DataChannelMessage → Result (Unit {0}) × Io
send =
    sends toy crypto (λ key kind. err []) sender_nonce receiver_nonce 7 8 (key_of 8) (key_of 7)
      (file ∷ []) made [] none (λ id. id) (ascii "f" ∷ []) []

abbrev receive : List DataChannelMessage → Result (Unit {0}) × Io
receive =
    receives toy crypto (λ key kind. err []) sender_nonce receiver_nonce 7 8 (key_of 8) (key_of 7)
      (file ∷ []) made [] none (λ id. id) (ascii "f" ∷ []) []

abbrev heard : ℕ → List DataChannelMessage
heard =
    turns toy crypto (λ key kind. err []) sender_nonce receiver_nonce 7 8 (key_of 8) (key_of 7)
      (file ∷ []) made [] none (λ id. id) (ascii "f" ∷ []) []
