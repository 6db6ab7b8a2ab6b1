-- ===== src/Http/Server.antt =====
-- core/src/http/server/mod.rs: the routes of the HTTP server. The controllers are below.
pub mod Controller
pub mod Nonces
pub mod Accept
pub mod Start
use localsend_uyava.Prelude.{
  ℕ, Text-Eq, ◌==◌, [], Option, none, some, Bool, Bytes, Text, ascii, Result, if◌then◌else◌, not,
}
use localsend_uyava.Crypto.Token.{Crypto}
use localsend_uyava.Crypto.Cert.{X509}
use localsend_uyava.Http.Dto.{Json}
use localsend_uyava.Http.Lru.{Lru}
use localsend_uyava.Http.Reply.{◌>>=◌, Reply, ok, err, pure, fail}
use localsend_uyava.Http.Server.Controller.{
  AppError, status, RequestClientInfo, AppState, Response, Handler, into_response, to_response,
  register, nonce_exchange,
}

-- `hyper::Method`, of which only POST is named.
pub data Method : Type 0 where
  post other : Method

-- `state` says whether the request carries the state, which the connection's handler puts there.
pub record Request : Type 0 where
  pub method : Method
  pub path : Text
  pub body : Result Bytes
  pub state : Bool
  pub client_info : Option RequestClientInfo

pub data Route : Type 0 where
  v2_register v3_nonce v3_register no_route : Route

-- Of v2, every path leads to the controller `register`.
unfoldable pub route : Method → Text → Route
route other path = no_route
route post path =
    if path == ascii "/api/localsend/v2/register"
    then v2_register
    else if path == ascii "/api/localsend/v2/prepare-upload"
    then v2_register
    else if path == ascii "/api/localsend/v2/upload"
    then v2_register
    else if path == ascii "/api/localsend/v2/cancel"
    then v2_register
    else if path == ascii "/api/localsend/v3/nonce"
    then v3_nonce
    else if path == ascii "/api/localsend/v3/register"
    then v3_register
    else no_route

module _ (json : Json) (l : Lru) (c : Crypto) (x : X509) (status_text : ℕ → Text) where
  abbrev responds : {A : Type 0} → (A → Response) → Handler l A → Handler l Response
  responds f handler = do a ← handler; pure (f a)

  unfoldable pub handle_route :
      Bool → Bytes → Result Bytes → RequestClientInfo → Route → Handler l Response
  handle_route legacy_enabled new_nonce body client_info v2_register =
      if not legacy_enabled
      then fail (status 404)
      else responds (into_response json.register_response) (register json l body)
  handle_route legacy_enabled new_nonce body client_info v3_nonce =
      responds (into_response json.nonce_response)
        (nonce_exchange json l c x new_nonce body client_info)
  handle_route legacy_enabled new_nonce body client_info v3_register =
      responds (into_response json.register_response) (register json l body)
  handle_route legacy_enabled new_nonce body client_info no_route =
      pure (record { status = 404; content_type = none; body = [] })

  unfoldable pub handle_request_inner : Bool → Bytes → Request → Handler l Response
  unfolding handle_route route
  handle_request_inner legacy_enabled new_nonce req =
      if not req.state then fail (status 500) else elim req.client_info [
        | none ↦ fail (status 500)
        | some client_info ↦
            handle_route legacy_enabled new_nonce req.body client_info (route req.method req.path)
      ]

  abbrev pub or_response : Reply AppError Response → Response
  or_response (ok response) = response
  or_response (err e) = to_response json status_text e

  unfoldable pub handle_request : Bool → Bytes → Request → AppState l → Response × AppState l
  unfolding handle_request_inner
  handle_request legacy_enabled new_nonce req state =
      let r = handle_request_inner legacy_enabled new_nonce req state in (or_response r.0, r.1)
