-- ===== src/Http/Server/Accept.antt =====
-- core/src/http/server/mod.rs: how the server serves a connection, with or without TLS.
pub mod Identified
use localsend_uyava.Prelude.{
  ℕ, List, [], ◌∷◌, Option, none, some, Bool, true, false, Bytes, Text, Result, ok, err,
}
use localsend_uyava.Crypto.Token.{Crypto}
use localsend_uyava.Crypto.Cert.{X509, verify_client_cert}
use localsend_uyava.Http.Dto.{Json}
use localsend_uyava.Http.Lru.{Lru}
use localsend_uyava.Http.Server.{Method, Request, handle_request}
use localsend_uyava.Http.Server.Controller.{RequestClientInfo, AppState, Response}

-- A request as hyper reads it, with the nonce that `generate_nonce` would give for it.
pub record Incoming : Type 0 where
  pub method : Method
  pub path : Text
  pub body : Result Bytes
  pub new_nonce : Bytes

-- A connection: the address, what a client shows of itself, and its requests.
pub record TcpStream (Client : Type 0) : Type 0 where
  pub remote_addr : Text
  pub client : Client
  pub requests : List Incoming

-- The crate rustls: the handshake of an acceptor whose verifier of clients has the given answers to
-- `offer_client_auth` and `client_auth_mandatory`, and the given check of a certificate. It fails,
-- or gives `peer_certificates`, which are not empty where they are there: the certificate of the
-- client itself and those behind it.
pub record Tls : Type 1 where
  pub Client : Type 0
  pub accept :
      Bool → Bool → (Bytes → Result (Unit {0})) → Client → Result (Option (Bytes × List Bytes))

-- Of `CustomClientCertVerifier`.
abbrev pub offer_client_auth : Bool
offer_client_auth = true

abbrev pub client_auth_mandatory : Bool
client_auth_mandatory = true

-- `.map(|cert| cert.get(0).unwrap().to_vec())`
abbrev pub first_cert : Option (Bytes × List Bytes) → Option Bytes
first_cert none = none
first_cert (some (cert, chain)) = some cert

module _ (json : Json) (l : Lru) (c : Crypto) (x : X509) (status_text : ℕ → Text)
    (legacy_enabled : Bool) where
  -- The closure of `service_fn`: the request with the state and what is known of the client.
  unfoldable pub request_of : RequestClientInfo → Incoming → Request
  request_of client_info req = record {
    method = req.method;
    path = req.path;
    body = req.body;
    state = true;
    client_info = some client_info;
  }

  unfoldable pub serve_connection :
      RequestClientInfo → List Incoming → AppState l → List Response × AppState l
  unfolding request_of
  serve_connection client_info [] state = ([], state)
  serve_connection client_info (req ∷ reqs) state =
      let first =
        handle_request json l c x status_text legacy_enabled req.new_nonce
          (request_of client_info req) state in
      let rest = serve_connection client_info reqs first.1 in (first.0 ∷ rest.0, rest.1)

  module _ (tls : Tls) where
    -- The handshake's error is only logged.
    abbrev pub shaken :
        Text
        → List Incoming
        → Result (Option (Bytes × List Bytes))
        → AppState l
        → List Response × AppState l
    shaken ip requests (err e) state = ([], state)
    shaken ip requests (ok certs) state =
        serve_connection (record { ip = ip; cert = first_cert certs }) requests state

    -- One round of the loop. `with_tls` says whether there is a `tls_acceptor`, which
    -- `create_tls_config` makes with the check of `CustomClientCertVerifier`.
    unfoldable pub accept : Bool → TcpStream tls.Client → AppState l → List Response × AppState l
    unfolding serve_connection
    accept true stream state =
        shaken stream.remote_addr stream.requests
          (tls.accept offer_client_auth client_auth_mandatory (verify_client_cert x) stream.client)
          state
    accept false stream state =
        serve_connection (record { ip = stream.remote_addr; cert = none }) stream.requests state
