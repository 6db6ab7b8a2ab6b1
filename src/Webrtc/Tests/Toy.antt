-- ===== src/Webrtc/Tests/Toy.antt =====
-- A toy instance of serde_json at the types of the protocol.
use localsend_uyava.Prelude.{◌≡◌, refl, ◌⊎◌, inl, inr, List, Text}
use localsend_uyava.Model.{FileDto}
use localsend_uyava.Webrtc.Messages.{
  Json, RtcNonceMessage, RtcTokenRequest, RtcTokenResponse, RtcPinMessage, RtcPinReceivingResponse,
  RtcPinSendingResponse, RtcFileListResponse, RtcPairResponse, RtcSendFileHeaderRequest,
  RtcSendFileResponse,
}
use localsend_uyava.Model.Format.{
  Format, number, unit, both, either, list, via, option, bool, codec, text, file,
}

abbrev nonce : Format RtcNonceMessage
nonce = via text (λ m. m.nonce) (λ t. record { nonce = t }) λ m. refl

abbrev token_request : Format RtcTokenRequest
token_request = via text (λ m. m.token) (λ t. record { token = t }) λ m. refl

abbrev pin : Format RtcPinMessage
pin = via text (λ m. m.pin) (λ t. record { pin = t }) λ m. refl

abbrev TokenResponseParts : Type 0
TokenResponseParts = Text ⊎ (Text ⊎ Unit {0})

abbrev put_token_response : RtcTokenResponse → TokenResponseParts
put_token_response (RtcTokenResponse.ok t) = inl t
put_token_response (RtcTokenResponse.pin_required t) = inr (inl t)
put_token_response RtcTokenResponse.invalid_signature = inr (inr tt)

abbrev parse_token_response : TokenResponseParts → RtcTokenResponse
parse_token_response (inl t) = RtcTokenResponse.ok t
parse_token_response (inr (inl t)) = RtcTokenResponse.pin_required t
parse_token_response (inr (inr u)) = RtcTokenResponse.invalid_signature

pub token_response_lem : (r : RtcTokenResponse) → parse_token_response (put_token_response r) ≡ r
token_response_lem (RtcTokenResponse.ok t) = refl
token_response_lem (RtcTokenResponse.pin_required t) = refl
token_response_lem RtcTokenResponse.invalid_signature = refl

abbrev PinReceivingParts : Type 0
PinReceivingParts = Unit {0} ⊎ (Unit {0} ⊎ Unit {0})

abbrev put_pin_receiving : RtcPinReceivingResponse → PinReceivingParts
put_pin_receiving RtcPinReceivingResponse.ok = inl tt
put_pin_receiving RtcPinReceivingResponse.pin_required = inr (inl tt)
put_pin_receiving RtcPinReceivingResponse.too_many_attempts = inr (inr tt)

abbrev parse_pin_receiving : PinReceivingParts → RtcPinReceivingResponse
parse_pin_receiving (inl u) = RtcPinReceivingResponse.ok
parse_pin_receiving (inr (inl u)) = RtcPinReceivingResponse.pin_required
parse_pin_receiving (inr (inr u)) = RtcPinReceivingResponse.too_many_attempts

pub pin_receiving_lem :
    (r : RtcPinReceivingResponse) → parse_pin_receiving (put_pin_receiving r) ≡ r
pin_receiving_lem RtcPinReceivingResponse.ok = refl
pin_receiving_lem RtcPinReceivingResponse.pin_required = refl
pin_receiving_lem RtcPinReceivingResponse.too_many_attempts = refl

abbrev PinSendingParts : Type 0
PinSendingParts = List FileDto ⊎ (Unit {0} ⊎ Unit {0})

abbrev put_pin_sending : RtcPinSendingResponse → PinSendingParts
put_pin_sending (RtcPinSendingResponse.ok files) = inl files
put_pin_sending RtcPinSendingResponse.pin_required = inr (inl tt)
put_pin_sending RtcPinSendingResponse.too_many_attempts = inr (inr tt)

abbrev parse_pin_sending : PinSendingParts → RtcPinSendingResponse
parse_pin_sending (inl files) = RtcPinSendingResponse.ok files
parse_pin_sending (inr (inl u)) = RtcPinSendingResponse.pin_required
parse_pin_sending (inr (inr u)) = RtcPinSendingResponse.too_many_attempts

pub pin_sending_lem : (r : RtcPinSendingResponse) → parse_pin_sending (put_pin_sending r) ≡ r
pin_sending_lem (RtcPinSendingResponse.ok files) = refl
pin_sending_lem RtcPinSendingResponse.pin_required = refl
pin_sending_lem RtcPinSendingResponse.too_many_attempts = refl

abbrev FileListParts : Type 0
FileListParts = List (Text × Text) ⊎ (Text ⊎ (Unit {0} ⊎ Unit {0}))

abbrev put_file_list : RtcFileListResponse → FileListParts
put_file_list (RtcFileListResponse.ok files) = inl files
put_file_list (RtcFileListResponse.pair key) = inr (inl key)
put_file_list RtcFileListResponse.declined = inr (inr (inl tt))
put_file_list RtcFileListResponse.invalid_signature = inr (inr (inr tt))

abbrev parse_file_list : FileListParts → RtcFileListResponse
parse_file_list (inl files) = RtcFileListResponse.ok files
parse_file_list (inr (inl key)) = RtcFileListResponse.pair key
parse_file_list (inr (inr (inl u))) = RtcFileListResponse.declined
parse_file_list (inr (inr (inr u))) = RtcFileListResponse.invalid_signature

pub file_list_lem : (r : RtcFileListResponse) → parse_file_list (put_file_list r) ≡ r
file_list_lem (RtcFileListResponse.ok files) = refl
file_list_lem (RtcFileListResponse.pair key) = refl
file_list_lem RtcFileListResponse.declined = refl
file_list_lem RtcFileListResponse.invalid_signature = refl

abbrev PairParts : Type 0
PairParts = Text ⊎ (Unit {0} ⊎ Unit {0})

abbrev put_pair : RtcPairResponse → PairParts
put_pair (RtcPairResponse.ok key) = inl key
put_pair RtcPairResponse.pair_declined = inr (inl tt)
put_pair RtcPairResponse.invalid_signature = inr (inr tt)

abbrev parse_pair : PairParts → RtcPairResponse
parse_pair (inl key) = RtcPairResponse.ok key
parse_pair (inr (inl u)) = RtcPairResponse.pair_declined
parse_pair (inr (inr u)) = RtcPairResponse.invalid_signature

pub pair_lem : (r : RtcPairResponse) → parse_pair (put_pair r) ≡ r
pair_lem (RtcPairResponse.ok key) = refl
pair_lem RtcPairResponse.pair_declined = refl
pair_lem RtcPairResponse.invalid_signature = refl

-- Two numbers are in front, so that no header is as short as the delimiter.
abbrev header : Format RtcSendFileHeaderRequest
header =
    via (both number (both number (both text text))) (λ h. (0, (0, (h.id, h.token))))
      (λ (m, (n, (i, t))). record { id = i; token = t }) λ h. refl

abbrev response : Format RtcSendFileResponse
response =
    via (both text (both bool (option text))) (λ r. (r.id, (r.success, r.error)))
      (λ (i, (s, e)). record { id = i; success = s; error = e }) λ r. refl

abbrev pub toy : Json
toy = record {
  nonce = codec nonce;
  token_request = codec token_request;
  token_response = codec (
      via (either text (either text unit)) put_token_response parse_token_response
        token_response_lem);
  pin = codec pin;
  pin_receiving = codec (
      via (either unit (either unit unit)) put_pin_receiving parse_pin_receiving pin_receiving_lem);
  pin_sending = codec (
      via (either (list file) (either unit unit)) put_pin_sending parse_pin_sending
        pin_sending_lem);
  file_list = codec (
      via (either (list (both text text)) (either text (either unit unit))) put_file_list
        parse_file_list file_list_lem);
  pair = codec (via (either text (either unit unit)) put_pair parse_pair pair_lem);
  header = codec header;
  file_response = codec response;
}
