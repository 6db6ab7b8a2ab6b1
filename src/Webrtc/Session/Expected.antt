-- ===== src/Webrtc/Session/Expected.antt =====
-- What the two peers of a data channel expect of each other.
use localsend_uyava.Prelude.{
  Text-Eq, ◌≡◌, ◌⊎◌, inl, inr, List, [], ◌∷◌, Option, none, some, Bytes, Text, ok,
}
use localsend_uyava.Model.{FileDto}
use localsend_uyava.Crypto.Token.{Crypto, VerifyingTokenKey, generate_token_nonce, to_verifying_key}
use localsend_uyava.Crypto.Token.RoundTrip.{CryptoLaws, verify_token_nonce-generate}
use localsend_uyava.Webrtc.Messages.{Json}
use localsend_uyava.Webrtc.Transfer.{RtcFile}
use localsend_uyava.Webrtc.Transfer.Sender.{AreSelected}
use localsend_uyava.Webrtc.Transfer.Receiver.{AreKnown}
use localsend_uyava.Webrtc.Trust.{IsVerified}

-- A peer expects nobody in particular, or the one that has this key.
abbrev pub Expects : (c : Crypto) → Option VerifyingTokenKey → c.SigningKey → Type 0
Expects c expecting key = (expecting ≡ none) ⊎ (expecting ≡ some (to_verifying_key c key))

pub expected-IsVerified :
    (c : Crypto) (expecting : Option VerifyingTokenKey) (key : c.SigningKey) (nonce : Bytes)
    (token : Text)
    → CryptoLaws c
    → Expects c expecting key
    → generate_token_nonce c key nonce ≡ ok token
    → IsVerified c expecting nonce token
expected-IsVerified c expecting key nonce token laws (inl e) made = rw e tt
expected-IsVerified c expecting key nonce token laws (inr e) made =
    rw e (verify_token_nonce-generate c key nonce token laws made)

pub AreKnown-AreSelected :
    (json : Json) (files : List FileDto) (tokens : List (Text × Text)) (fs : List RtcFile)
    → AreKnown json files tokens fs
    → AreSelected tokens fs
AreKnown-AreSelected json files tokens [] known = tt
AreKnown-AreSelected json files tokens (f ∷ fs) ((selected, listed), known) =
    (selected, AreKnown-AreSelected json files tokens fs known)
