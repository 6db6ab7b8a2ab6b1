-- ===== src/Http/Tests.antt =====
-- Toy instances of the crates, on which the theorems about HTTP and certificates are tried.
mod Toy
mod Secured
mod Started
use localsend_uyava.Prelude.{
  ℕ, ℕ-Eq, Text-Eq, text_eq, ◌==◌, ==-refl, text_eq_iff, sym, ap, ◌≡◌, ◌↔◌, ◌⊎◌, refl, inl, inr,
  List, [], ◌∷◌, none, some, true, false, Bytes, Text, ascii, drop, Result, if◌then◌else◌,
  Bool-cases,
}
use localsend_uyava.Prelude.Dict.{get, insert, get-insert}
use localsend_uyava.Http.Tests.Toy.{toy}
use localsend_uyava.Crypto.Toy.{toy as crypto, decode-encode_toy}
use localsend_uyava.Crypto.Nonce.{validate_nonce}
use localsend_uyava.Crypto.Cert.{X509, verify_cert_from_cert, verify_cert_from_der}
use localsend_uyava.Crypto.Cert.Checks.{MatchesIfAsked, EncodesKeys, verify_cert_from_cert_iff}
use localsend_uyava.Server.IpGroup.{print}
use localsend_uyava.Http.Lru.{Lru, LruLaws}
use localsend_uyava.Http.Dto.{
  http, https, as_str, PrepareUploadRequestDto, PrepareUploadResponseDto,
}
use localsend_uyava.Http.Reply.{ok}
use localsend_uyava.Http.Server.Controller.{
  bad_request, RequestClientInfo, AppState, new, to_response,
}
use localsend_uyava.Http.Server.{post, Request, handle_request}
use localsend_uyava.Http.Server.Nonces.{IsExchange, handle_request_frame}
use localsend_uyava.Http.Client.Url.{to_string}
use localsend_uyava.Http.Client.{
  Response, LsHttpClient, Transport, url, to_identifier, status_code_error_from_res, nonce,
  prepare_upload, verify_cert_from_res,
}
use localsend_uyava.Http.Client.Checks.{Answers, HasKey, prepare_upload_sound}
use localsend_uyava.Http.Client.Agreement.{
  seen, understood, status_code_error_from_res-to_response, to_server, Agree, nonce_agrees,
}

abbrev lru : Lru
lru = record { Cache = List (Text × Bytes); new = λ capacity. []; put = insert; get = get }

lru-LruLaws : LruLaws lru
lru-LruLaws = record {
  get-put = λ k v m. rw (get-insert k k v m, ==-refl k) refl;
  get-put_other = λ k j v m differ. inr (elim (Bool-cases (k == j)) [
    | inl same ↦ absurd (differ (sym ((text_eq_iff k j).0 same)))
    | inr other ↦ rw (get-insert k j v m, other) refl
  ]);
}

-- A certificate is its key.
abbrev x509 : X509
x509 = record {
  Certificate = Bytes;
  Spki = Bytes;
  PublicKey = Bytes;
  pem_read = λ t. Result.ok t;
  pem_encode = λ label contents. contents;
  from_der = λ b. Result.ok b;
  spki_from_der = λ b. Result.ok b;
  subject_pki = λ cert. cert;
  raw = λ spki. spki;
  parsed = λ spki. Result.ok spki;
  key_eq = λ a b. a == b;
  is_valid = λ cert. true;
  verify_signature = λ cert. Result.ok tt;
}

x509-EncodesKeys : EncodesKeys x509
x509-EncodesKeys = record {
  pem_read-pem_encode = λ label contents. refl;
  spki_from_der-raw = λ spki. refl;
  key_eq_refl = ==-refl;
}

verify_cert_from_cert_iff_example :
    (verify_cert_from_cert x509 (1 ∷ 2 ∷ []) (some (1 ∷ 3 ∷ [])) ≡ Result.ok tt) ↔ (
      (x509.is_valid (1 ∷ 2 ∷ []) ≡ true)
      × MatchesIfAsked x509 (1 ∷ 2 ∷ []) (some (1 ∷ 3 ∷ []))
      × (x509.verify_signature (1 ∷ 2 ∷ []) ≡ Result.ok tt))
verify_cert_from_cert_iff_example = verify_cert_from_cert_iff x509 (1 ∷ 2 ∷ []) (some (1 ∷ 3 ∷ []))

abbrev status_text : ℕ → Text
status_text code = code ∷ []

abbrev client_nonce : Bytes
client_nonce = ascii "a nonce of the HTTP client"

abbrev server_nonce : Bytes
server_nonce = ascii "a nonce of the HTTP server"

validate_lem : validate_nonce client_nonce ≡ true
unfolding validate_nonce
validate_lem = refl

abbrev client_info : RequestClientInfo
client_info = record { ip = ascii "10.0.0.2"; cert = none }

abbrev state : AppState lru
state = new lru (record {
  alias = ascii "server";
  version = ascii "3.0";
  device_model = none;
  device_type = none;
  token = [];
})

abbrev exchange : Request
exchange = record {
  method = post;
  path = ascii "/api/localsend/v3/nonce";
  body = Result.ok (toy.nonce_request.to_string (record { nonce = crypto.encode client_nonce }));
  state = true;
  client_info = some client_info;
}

handle_request_frame_example :
    let r = handle_request toy lru crypto x509 status_text false server_nonce exchange state in
    (r.1 ≡ state) ⊎ IsExchange toy lru crypto x509 status_text server_nonce exchange state r
handle_request_frame_example =
    handle_request_frame toy lru crypto x509 status_text false server_nonce exchange state

status_code_error_from_res-to_response_example :
    status_code_error_from_res toy
      (seen none none (to_response toy status_text (bad_request (ascii "Invalid nonce"))))
    ≡ Result.ok (understood status_text (bad_request (ascii "Invalid nonce")))
status_code_error_from_res-to_response_example =
    status_code_error_from_res-to_response toy status_text none none
      (bad_request (ascii "Invalid nonce"))

-- The part of a URL from the first slash behind the scheme.
abbrev from_slash : Text → Text
from_slash [] = []
from_slash (c ∷ s) = let rest = from_slash s in if c == b'/' then c ∷ s else rest

abbrev path_of : Text → Text
path_of url = from_slash (drop 8 url)

abbrev client : LsHttpClient lru (AppState lru)
client = record { received_nonce_map = []; generated_nonce_map = []; network = state }

nonce_agrees_example :
    (after : LsHttpClient lru (AppState lru)) × (nonce toy lru crypto x509
        (AppState lru)
        (to_server toy lru crypto x509 status_text path_of client_info
          (some (ascii "10.0.0.1"))
          none
          false
          server_nonce)
        client_nonce
        http
        (ascii "10.0.0.1")
        53317
        client
      ≡ (ok (crypto.encode server_nonce), after))
    × Agree toy lru crypto x509 status_text path_of client_info
        (some (ascii "10.0.0.1"))
        none
        false
        server_nonce
        (ascii "10.0.0.1")
        client_nonce
        after
unfolding to_identifier to_string print as_str
nonce_agrees_example =
    nonce_agrees toy lru crypto x509 status_text path_of client_info (some (ascii "10.0.0.1")) none
      false server_nonce http (ascii "10.0.0.1") 53317 (ascii "10.0.0.1") client_nonce client
      lru-LruLaws validate_lem (λ b. ap Result.ok (decode-encode_toy b)) refl λ response. refl

abbrev payload : PrepareUploadRequestDto
payload = record {
  info = record {
    alias = ascii "client";
    version = ascii "3.0";
    device_model = none;
    device_type = none;
    token = [];
    port = 53317;
    protocol = https;
    has_web_interface = false;
  };
  files = [];
}

abbrev accepted : PrepareUploadResponseDto
accepted = record { session_id = ascii "s"; files = [] }

-- Whatever is asked, files are accepted, by the server with the key 1, 2.
abbrev accepting : Transport (Unit {0})
accepting url body network = (
  Result.ok (record {
    status = 200;
    remote_addr = none;
    tls_info = some (some (1 ∷ 2 ∷ []));
    body = Result.ok (toy.prepare_upload_response.to_string accepted);
  }),
  network,
)

abbrev other_client : LsHttpClient lru (Unit {0})
other_client = record { received_nonce_map = []; generated_nonce_map = []; network = tt }

prepare_upload_sound_example :
    (response : Response) × (bytes : Bytes) × Answers toy lru crypto x509
      (Unit {0})
      accepting
      (url https (ascii "10.0.0.1") 53317 (ascii "/prepare-upload"))
      (toy.prepare_upload.to_string payload)
      other_client
      response
    × HasKey x509 response (1 ∷ 2 ∷ [])
    × (response.status ≡ 200)
    × (response.body ≡ Result.ok bytes)
    × (toy.prepare_upload_response.from_slice bytes ≡ some accepted)
unfolding prepare_upload verify_cert_from_res verify_cert_from_der verify_cert_from_cert text_eq
prepare_upload_sound_example =
    prepare_upload_sound toy lru crypto x509 (Unit {0}) accepting https (ascii "10.0.0.1") 53317
      (1 ∷ 2 ∷ []) payload other_client other_client accepted refl
