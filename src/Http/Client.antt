-- ===== src/Http/Client.antt =====
-- core/src/http/client/mod.rs: the HTTP client. A request is sent over a transport, the crate
-- reqwest, whose state is the network's.
pub mod Url
pub mod Checks
pub mod Agreement
use localsend_uyava.Prelude.{
  ℕ, ℕ-Eq, Text-Eq, ◌==◌, ◌++◌, List, [], ◌∷◌, flatten, Option, none, some, Bool, true, false, not,
  Bytes, Text, ascii, if◌then◌else◌, Result,
}
use localsend_uyava.Prelude.{◌>>=◌ as and_then}
use localsend_uyava.Model.{Codec}
use localsend_uyava.Crypto.Token.{Crypto}
use localsend_uyava.Crypto.Cert.{X509, public_key_from_cert_der, verify_cert_from_der}
use localsend_uyava.Http.Dto.{
  ProtocolType, http, https, as_str, ErrorResponse, RegisterDto, RegisterResponseDto,
  PrepareUploadRequestDto, PrepareUploadResponseDto, StatusCodeError, Json,
}
use localsend_uyava.Http.Lru.{Lru}
use localsend_uyava.Http.Reply.{◌>>◌, ◌>>=◌, Act, pure, fail, or_fail, modify}
use localsend_uyava.Http.Client.Url.{v3, port_text, to_string}

-- `reqwest::Response`: `remote_addr` is the printed address of the other end, `tls_info` is there on
-- TLS with the certificate of the other end, and reading the body may fail.
pub record Response : Type 0 where
  pub status : ℕ
  pub remote_addr : Option Text
  pub tls_info : Option (Option Bytes)
  pub body : Result Bytes

pub data ClientError : Type 0 where
  failed : Text → ClientError
  status_code : StatusCodeError → ClientError

pub record LsHttpClient (l : Lru) (N : Type 0) : Type 0 where
  pub received_nonce_map : l.Cache
  pub generated_nonce_map : l.Cache
  pub network : N

pub record RegisterResult : Type 0 where
  pub public_key : Option Text
  pub body : RegisterResponseDto

-- `client.post(url).body(body).send()`
abbrev pub Transport : Type 0 → Type 0
Transport N = Text → Bytes → N → Result Response × N

abbrev pub is_https : ProtocolType → Bool
is_https http = false
is_https https = true

abbrev pub base_path : Text
base_path = ascii "/api/localsend/v3"

-- The URL of all requests but `nonce`.
unfoldable pub url : ProtocolType → Text → ℕ → Text → Text
url protocol ip port path =
    as_str protocol
    ++ (ascii "://" ++ (ip ++ (ascii ":" ++ (port_text port ++ (base_path ++ path)))))

abbrev pub nonempty : Text → Option Text
nonempty [] = none
nonempty (a ∷ s) = some (a ∷ s)

-- The message of an error response, or else the whole body.
abbrev pub message_in : Option ErrorResponse → Text → Text
message_in (some error) body = error.message
message_in none body = body

module _ (x : X509) where
  unfoldable pub certificate : Response → Result Bytes
  certificate response = elim response.tls_info [
    | none ↦ Result.err (ascii "TLS info not found")
    | some none ↦ Result.err (ascii "Certificate not found")
    | some (some cert) ↦ Result.ok cert
  ]

  -- The key that is asked for, or else the certificate's own.
  unfoldable pub key_for : Bytes → Option Text → Result Text
  key_for cert none = public_key_from_cert_der x cert
  key_for cert (some public_key) = Result.ok public_key

  unfoldable pub verify_cert_from_res : Response → Option Text → Result Text
  unfolding certificate key_for
  verify_cert_from_res response public_key = and_then (certificate response) λ cert.
      and_then (key_for cert public_key)
        λ key. and_then (verify_cert_from_der x cert (some key)) λ u. Result.ok key

  unfoldable pub to_identifier : Response → Bool → Option Text → Result Text
  unfolding verify_cert_from_res
  to_identifier response true public_key = verify_cert_from_res response public_key
  to_identifier response false public_key = elim response.remote_addr [
    | none ↦ Result.err (ascii "Remote address not found in response")
    | some ip ↦ Result.ok ip
  ]

module _ (json : Json) where
  unfoldable pub status_code_error_from_res : Response → Result StatusCodeError
  status_code_error_from_res response = and_then response.body λ body. Result.ok (record {
    status = response.status;
    message = nonempty (message_in (json.error_response.from_slice body) body);
  })

module _ (json : Json) (l : Lru) (c : Crypto) (x : X509) (N : Type 0)
    (transport : Transport N) where
  -- A method of the client.
  abbrev pub Method : Type 0 → Type 0
  Method A = Act (LsHttpClient l N) ClientError A

  -- `?` on a result of a crate.
  abbrev pub try : {A : Type 0} → Result A → Method A
  try (Result.ok a) = pure a
  try (Result.err e) = fail (failed e)

  unfoldable pub send : Text → Bytes → Method Response
  send url body client =
      let r = transport url body client.network in try r.0 (record client { network = r.1 })

  -- `res.json()`
  unfoldable pub json_of : {A : Type 0} → Codec A → Response → Method A
  json_of codec response = do
    bytes ← try response.body
    or_fail (failed (ascii "reqwest")) (codec.from_slice bytes)

  unfoldable pub fail_with_status : {A : Type 0} → Response → Method A
  unfolding status_code_error_from_res
  fail_with_status response = do
    error ← try (status_code_error_from_res json response)
    fail (status_code error)

  -- `generated` is what `generate_nonce` gives.
  unfoldable pub nonce : Bytes → ProtocolType → Text → ℕ → Method Text
  unfolding send json_of fail_with_status to_string
  nonce generated protocol ip port = do
    response ←
        send
          (to_string (record {
            version = v3;
            protocol = protocol;
            host = ip;
            port = port;
            path = ascii "/nonce";
          }))
          (json.nonce_request.to_string (record { nonce = c.encode generated }))
    if not (response.status == 200) then fail_with_status response else (do
      remote_key ← try (to_identifier x response (is_https protocol) none)
      body ← json_of json.nonce_response response
      response_nonce ← try (c.decode body.nonce)
      modify (λ client. record client {
        received_nonce_map = l.put remote_key response_nonce client.received_nonce_map;
      })
      modify (λ client. record client {
        generated_nonce_map = l.put remote_key generated client.generated_nonce_map;
      })
      pure body.nonce)

  abbrev pub key_from : ProtocolType → Response → Method (Option Text)
  key_from http response = pure none
  key_from https response = do
    public_key ← try (verify_cert_from_res x response none)
    pure (some public_key)

  unfoldable pub register : ProtocolType → Text → ℕ → RegisterDto → Method RegisterResult
  unfolding send json_of
  register protocol ip port payload = do
    response ← send (url protocol ip port (ascii "/register")) (json.register.to_string payload)
    public_key ← key_from protocol response
    body ← json_of json.register_response response
    pure (record { public_key = public_key; body = body })

  -- The certificate is checked only against a key that is given.
  abbrev pub check_key : Option Text → Response → Method (Unit {0})
  check_key none response = pure tt
  check_key (some public_key) response = do
    key ← try (verify_cert_from_res x response (some public_key))
    pure tt

  unfoldable pub prepare_upload :
      ProtocolType
      → Text
      → ℕ
      → Option Text
      → PrepareUploadRequestDto
      → Method PrepareUploadResponseDto
  unfolding send json_of fail_with_status
  prepare_upload protocol ip port public_key payload = do
    response ←
        send (url protocol ip port (ascii "/prepare-upload"))
          (json.prepare_upload.to_string payload)
    check_key public_key response
    if not (response.status == 200)
        then fail_with_status response
        else json_of json.prepare_upload_response response

  -- `binary` are the parts of the file.
  unfoldable pub upload :
      ProtocolType → Text → ℕ → Text → Text → Text → List Bytes → Method (Unit {0})
  unfolding send fail_with_status
  upload protocol ip port session_id file_id token binary = do
    response ←
        send
          (url protocol ip port (
            ascii "/upload?sessionId="
            ++ (session_id ++ (ascii "&fileId=" ++ (file_id ++ (ascii "&token=" ++ token))))))
          (flatten binary)
    if not (response.status == 200) then fail_with_status response else pure tt

  unfoldable pub cancel : ProtocolType → Text → ℕ → Text → Method (Unit {0})
  unfolding send
  cancel protocol ip port session_id = do
    response ← send (url protocol ip port (ascii "/cancel?sessionId=" ++ session_id)) []
    pure tt
