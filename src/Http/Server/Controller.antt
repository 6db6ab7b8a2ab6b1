-- ===== src/Http/Server/Controller.antt =====
-- core/src/http/server/: the state, the errors and responses, and the controllers of the server
-- (mod.rs, error.rs, response.rs, collect_to_json.rs, controller/v2.rs and v3.rs).
use localsend_uyava.Prelude.{
  ℕ, ◌++◌, Option, none, some, not, Bytes, Text, ascii, Result, if◌then◌else◌, is_some,
}
use localsend_uyava.Model.{Codec}
use localsend_uyava.Crypto.Nonce.{validate_nonce}
use localsend_uyava.Crypto.Token.{Crypto}
use localsend_uyava.Crypto.Cert.{X509, public_key_from_cert_der}
use localsend_uyava.Http.Dto.{ClientInfo, NonceResponse, RegisterResponseDto, Json}
use localsend_uyava.Http.Lru.{Lru}
use localsend_uyava.Http.Reply.{Act, ◌>>=◌, ◌>>◌, pure, fail, or_fail, of_result, modify, get_state}

-- A status is the number of a `StatusCode`.
pub data AppError : Type 0 where
  hyper : AppError
  status : ℕ → AppError
  bad_request : Text → AppError

pub record JsonResponse (A : Type 0) : Type 0 where
  pub status : ℕ
  pub body : A

-- `hyper::Response<Full<Bytes>>`
pub record Response : Type 0 where
  pub status : ℕ
  pub content_type : Option Text
  pub body : Bytes

-- `ip` is the printed address, and `cert` the client's certificate in DER.
pub record RequestClientInfo : Type 0 where
  pub ip : Text
  pub cert : Option Bytes

-- `web` is there when a page is served; `WebPageState` has no fields.
pub record AppState (l : Lru) : Type 0 where
  pub info : ClientInfo
  pub web : Option (Unit {0})
  pub received_nonce_map : l.Cache
  pub generated_nonce_map : l.Cache

-- `AppState::new`
unfoldable pub new : (l : Lru) → ClientInfo → AppState l
new l info = record {
  info = info;
  web = none;
  received_nonce_map = l.new 200;
  generated_nonce_map = l.new 200;
}

unfoldable pub into_response : {A : Type 0} → Codec A → JsonResponse A → Response
into_response codec response = record {
  status = response.status;
  content_type = some (ascii "application/json");
  body = codec.to_string response.body;
}

-- `status_text` is how the crate http prints a status.
unfoldable pub to_response : Json → (ℕ → Text) → AppError → Response
unfolding into_response
to_response json status_text hyper =
    into_response json.error_response
      (record { status = 500; body = record { message = ascii "Internal server error" } })
to_response json status_text (AppError.status code) = into_response json.error_response (record {
  status = code;
  body = record { message = ascii "Status code: " ++ status_text code };
})
to_response json status_text (bad_request message) =
    into_response json.error_response (record { status = 400; body = record { message = message } })

-- A handler on the shared state.
abbrev pub Handler : Lru → Type 0 → Type 0
Handler l A = Act (AppState l) AppError A

-- The body is what is read of it, or the error of the connection.
unfoldable pub collect_to_json : {A S : Type 0} → Codec A → Result Bytes → Act S AppError A
collect_to_json codec body = do
  bytes ← of_result hyper body
  or_fail (bad_request (ascii "Invalid JSON body")) (codec.from_slice bytes)

-- `Ok(a) => Some(a)`, where an error is only logged.
abbrev pub ok_of {ℓ} : {A : Type ℓ} → Result A → Option A
ok_of (Result.ok a) = some a
ok_of (Result.err e) = none

module _ (x : X509) where
  unfoldable pub extract_public_key : RequestClientInfo → Option Text
  extract_public_key client = elim client.cert [
    | none ↦ none
    | some cert ↦ ok_of (public_key_from_cert_der x cert)
  ]

  unfoldable pub identifier : RequestClientInfo → Text
  unfolding extract_public_key
  identifier client = elim (extract_public_key client) [
    | none ↦ client.ip
    | some public_key ↦ public_key
  ]

-- Registration, which v2.rs and v3.rs write out alike.
module _ (json : Json) (l : Lru) where
  unfoldable pub registered : AppState l → JsonResponse RegisterResponseDto
  registered state = record {
    status = 200;
    body = record {
      alias = state.info.alias;
      version = state.info.version;
      device_model = state.info.device_model;
      device_type = state.info.device_type;
      token = state.info.token;
      has_web_interface = is_some state.web;
    };
  }

  unfoldable pub register : Result Bytes → Handler l (JsonResponse RegisterResponseDto)
  unfolding collect_to_json registered
  register body = do
    payload ← collect_to_json json.register body
    state ← get_state
    pure (registered state)

  -- `new_nonce` is what `generate_nonce` gives.
  unfoldable pub nonce_exchange :
      Crypto
      → X509
      → Bytes
      → Result Bytes
      → RequestClientInfo
      → Handler l (JsonResponse NonceResponse)
  unfolding collect_to_json identifier
  nonce_exchange c x new_nonce body client_info = do
    payload ← collect_to_json json.nonce_request body
    nonce ← of_result (bad_request (ascii "Invalid nonce format")) (c.decode payload.nonce)
    if not (validate_nonce nonce) then fail (bad_request (ascii "Invalid nonce")) else (do
      let remote_key : Text = identifier x client_info
      modify (λ state. record state {
        received_nonce_map = l.put remote_key nonce state.received_nonce_map;
      })
      modify (λ state. record state {
        generated_nonce_map = l.put remote_key new_nonce state.generated_nonce_map;
      })
      pure (record { status = 200; body = record { nonce = c.encode new_nonce } }))
