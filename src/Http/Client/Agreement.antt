-- ===== src/Http/Client/Agreement.antt =====
-- The HTTP client with the HTTP server at the other end of its transport.
use localsend_uyava.Prelude.{
  ℕ, ◌≡◌, refl, Option, none, some, Bool, true, Bytes, Text, ascii, ◌++◌, Result, text_eq,
}
use localsend_uyava.Crypto.Nonce.{validate_nonce}
use localsend_uyava.Crypto.Token.{Crypto}
use localsend_uyava.Crypto.Cert.{X509}
use localsend_uyava.Http.Dto.{ProtocolType, StatusCodeError, Json}
use localsend_uyava.Http.Lru.{Lru, LruLaws}
use localsend_uyava.Http.Reply.{ok}
use localsend_uyava.Http.Server.Controller.{
  AppError, hyper, bad_request, RequestClientInfo, AppState, Response as Served, into_response,
  to_response, identifier, collect_to_json, nonce_exchange,
}
use localsend_uyava.Http.Server.{post, route, handle_route, handle_request_inner, handle_request}
use localsend_uyava.Http.Server.Nonces.{exchanged}
use localsend_uyava.Http.Client.Url.{v3, to_string}
use localsend_uyava.Http.Client.{
  Response, LsHttpClient, Transport, is_https, nonempty, to_identifier, status_code_error_from_res,
  send, json_of, nonce,
}

-- What the client sees of a response: it comes from an address, over TLS or not.
abbrev pub seen : Option Text → Option (Option Bytes) → Served → Response
seen remote_addr tls_info response = record {
  status = response.status;
  remote_addr = remote_addr;
  tls_info = tls_info;
  body = Result.ok response.body;
}

-- How a client should understand an error of the server.
abbrev pub understood : (ℕ → Text) → AppError → StatusCodeError
understood status_text hyper = record {
  status = 500;
  message = some (ascii "Internal server error");
}
understood status_text (AppError.status code) = record {
  status = code;
  message = some (ascii "Status code: " ++ status_text code);
}
understood status_text (bad_request message) = record { status = 400; message = nonempty message }

-- The server's response to an error is read by the client as that error: with its status, and its
-- message unless that is empty.
pub status_code_error_from_res-to_response :
    (json : Json) (status_text : ℕ → Text) (remote_addr : Option Text)
    (tls_info : Option (Option Bytes)) (e : AppError)
    → status_code_error_from_res json (seen remote_addr tls_info (to_response json status_text e))
      ≡ Result.ok (understood status_text e)
unfolding status_code_error_from_res to_response into_response
status_code_error_from_res-to_response json status_text remote_addr tls_info hyper =
    rw (json.error_response.from_slice-to_string) refl
status_code_error_from_res-to_response json status_text remote_addr tls_info
      (AppError.status code) =
    rw (json.error_response.from_slice-to_string) refl
status_code_error_from_res-to_response json status_text remote_addr tls_info (bad_request message) =
    rw (json.error_response.from_slice-to_string) refl

-- The run of `nonce` on a response that it accepts.
nonce_run :
    (json : Json) (l : Lru) (c : Crypto) (x : X509) (N : Type 0) (transport : Transport N)
    (generated received : Bytes) (protocol : ProtocolType) (ip : Text) (port : ℕ)
    (client : LsHttpClient l N) (response : Response) (network : N) (bytes : Bytes) (key : Text)
    → transport
        (to_string (record {
          version = v3;
          protocol = protocol;
          host = ip;
          port = port;
          path = ascii "/nonce";
        }))
        (json.nonce_request.to_string (record { nonce = c.encode generated }))
        client.network
      ≡ (Result.ok response, network)
    → response.status ≡ 200
    → to_identifier x response (is_https protocol) none ≡ Result.ok key
    → response.body ≡ Result.ok bytes
    → json.nonce_response.from_slice bytes ≡ some (record { nonce = c.encode received })
    → c.decode (c.encode received) ≡ Result.ok received
    → nonce json l c x N transport generated protocol ip port client ≡ (
      ok (c.encode received),
      record {
        received_nonce_map = l.put key received client.received_nonce_map;
        generated_nonce_map = l.put key generated client.generated_nonce_map;
        network = network;
      },
    )
unfolding nonce send json_of to_identifier
nonce_run json l c x N transport generated received protocol ip port client response network bytes
      key sent status known read parsed decoded =
    rw (sent, status, known, read, parsed, decoded) refl

-- The server's response to an exchange.
abbrev served : Json → Crypto → Bytes → Served
served json c server_nonce =
    into_response json.nonce_response
      (record { status = 200; body = record { nonce = c.encode server_nonce } })

module _ (json : Json) (l : Lru) (c : Crypto) (x : X509) (status_text : ℕ → Text)
    (path_of : Text → Text) (client_info : RequestClientInfo) (remote_addr : Option Text)
    (tls_info : Option (Option Bytes)) (legacy_enabled : Bool) (server_nonce : Bytes) where
  -- The request arrives at the server with the path of its URL, which the crate reqwest takes out
  -- of it, and the server generates `server_nonce`.
  abbrev pub to_server : Transport (AppState l)
  to_server url body state =
      let r =
        handle_request json l c x status_text legacy_enabled server_nonce
          (record {
            method = post;
            path = path_of url;
            body = Result.ok body;
            state = true;
            client_info = some client_info;
          })
          state in
      (Result.ok (seen remote_addr tls_info r.0), r.1)

  exchange_served :
      (url : Text) (client_nonce : Bytes) (state : AppState l)
      → path_of url ≡ ascii "/api/localsend/v3/nonce"
      → validate_nonce client_nonce ≡ true
      → c.decode (c.encode client_nonce) ≡ Result.ok client_nonce
      → to_server url
          (json.nonce_request.to_string (record { nonce = c.encode client_nonce }))
          state
        ≡ (
          Result.ok (seen remote_addr tls_info (served json c server_nonce)),
          exchanged l (identifier x client_info) client_nonce server_nonce state,
        )
  unfolding handle_request handle_request_inner handle_route route nonce_exchange collect_to_json
      text_eq into_response
  exchange_served url client_nonce state path valid coded =
      rw
        (
          path,
          json.nonce_request.from_slice-to_string (record { nonce = c.encode client_nonce }),
          coded,
          valid,
        )
        refl

  -- The URL that `nonce` asks for.
  abbrev pub nonce_url : ProtocolType → Text → ℕ → Text
  nonce_url protocol ip port =
      to_string (record {
        version = v3;
        protocol = protocol;
        host = ip;
        port = port;
        path = ascii "/nonce";
      })

  abbrev pub Agree : Text → Bytes → LsHttpClient l (AppState l) → Type 0
  Agree server_key client_nonce client =
      (l.get server_key client.received_nonce_map ≡ some server_nonce)
      × (l.get server_key client.generated_nonce_map ≡ some client_nonce)
      × (l.get (identifier x client_info) client.network.received_nonce_map ≡ some client_nonce)
      × (l.get (identifier x client_info) client.network.generated_nonce_map ≡ some server_nonce)

  -- Under the laws of the caches, an exchange of nonces of the client with the server succeeds, if
  -- the client's nonce has a valid length, base64 can be read back, the URL's path is that of the
  -- route, and the client can identify the server. Then the two agree: each has the other's nonce
  -- as received and its own as generated, the client under the server's identifier and the server
  -- under the client's.
  pub nonce_agrees :
      (protocol : ProtocolType) (ip : Text) (port : ℕ) (server_key : Text) (client_nonce : Bytes)
      (client : LsHttpClient l (AppState l))
      → LruLaws l
      → validate_nonce client_nonce ≡ true
      → ((b : Bytes) → c.decode (c.encode b) ≡ Result.ok b)
      → path_of (nonce_url protocol ip port) ≡ ascii "/api/localsend/v3/nonce"
      → ((response : Served)
          → to_identifier x (seen remote_addr tls_info response) (is_https protocol) none
            ≡ Result.ok server_key)
      → (after : LsHttpClient l (AppState l)) × (nonce json l c x
            (AppState l)
            to_server
            client_nonce
            protocol
            ip
            port
            client
          ≡ (ok (c.encode server_nonce), after))
        × Agree server_key client_nonce after
  unfolding into_response
  nonce_agrees protocol ip port server_key client_nonce client laws valid coded path known = (
    record {
      received_nonce_map = l.put server_key server_nonce client.received_nonce_map;
      generated_nonce_map = l.put server_key client_nonce client.generated_nonce_map;
      network = exchanged l (identifier x client_info) client_nonce server_nonce client.network;
    },
    nonce_run json l c x (AppState l) to_server client_nonce server_nonce protocol ip port client _
        _ (json.nonce_response.to_string (record { nonce = c.encode server_nonce })) server_key
        (exchange_served (nonce_url protocol ip port) client_nonce client.network path valid
          (coded client_nonce))
        refl (known (served json c server_nonce)) refl
        (json.nonce_response.from_slice-to_string (record { nonce = c.encode server_nonce }))
        (coded server_nonce),
    (
      laws.get-put server_key server_nonce client.received_nonce_map,
      laws.get-put server_key client_nonce client.generated_nonce_map,
      laws.get-put (identifier x client_info) client_nonce client.network.received_nonce_map,
      laws.get-put (identifier x client_info) server_nonce client.network.generated_nonce_map,
    ),
  )
