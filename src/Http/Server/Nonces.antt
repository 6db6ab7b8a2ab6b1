-- ===== src/Http/Server/Nonces.antt =====
-- What the requests to the HTTP server do with its nonces.
use localsend_uyava.Prelude.{
  ℕ, ◌≡◌, refl, ◌∙◌, inl, inr, ◌⊎◌, Option, none, some, Bool, true, false, Bytes, Text, ascii,
  Result, Bool-cases, Option-cases, arith, text_eq_iff,
}
use localsend_uyava.Crypto.Nonce.{validate_nonce}
use localsend_uyava.Crypto.Token.{Crypto}
use localsend_uyava.Crypto.Cert.{X509}
use localsend_uyava.Http.Dto.{NonceRequest, NonceResponse, Json}
use localsend_uyava.Http.Lru.{Lru}
use localsend_uyava.Http.Reply.{Reply, ok, err, continue, or_fail}
use localsend_uyava.Http.Server.Controller.{
  AppError, hyper, bad_request, JsonResponse, RequestClientInfo, AppState, Response, into_response,
  collect_to_json, identifier, registered, register, nonce_exchange,
}
use localsend_uyava.Http.Server.{
  Method, post, other, Request, Route, v2_register, v3_nonce, v3_register, no_route, route,
  handle_route, handle_request_inner, handle_request,
}

-- The state after an exchange: each map has the other's nonce, or the own one, for the client.
abbrev pub exchanged : (l : Lru) → Text → Bytes → Bytes → AppState l → AppState l
exchanged l key received generated state = record state {
  received_nonce_map = l.put key received state.received_nonce_map;
  generated_nonce_map = l.put key generated state.generated_nonce_map;
}

-- The body asks for an exchange with this nonce, which has a valid length.
abbrev pub Asks : Json → Crypto → Result Bytes → Bytes → Type 0
Asks json c body nonce =
    (bytes : Bytes) × (payload : NonceRequest) × (body ≡ Result.ok bytes)
    × (json.nonce_request.from_slice bytes ≡ some payload)
    × (c.decode payload.nonce ≡ Result.ok nonce)
    × (validate_nonce nonce ≡ true)

-- Only this request is an exchange.
route_nonce :
    (m : Method) (path : Text)
    → route m path ≡ v3_nonce
    → (m ≡ post) × (path ≡ ascii "/api/localsend/v3/nonce")
unfolding route
route_nonce other path h = cc
route_nonce post path h =
    (refl, ground (arith, h, text_eq_iff path (ascii "/api/localsend/v3/nonce")))

responds-keeps :
    {S E A B : Type 0} (r : Reply E A × S) (f : A → B) → (continue r (λ a s. (ok (f a), s))).1 ≡ r.1
responds-keeps (ok a, s) f = refl
responds-keeps (err e, s) f = refl

module _ (json : Json) (l : Lru) (c : Crypto) (x : X509) (status_text : ℕ → Text) where
  -- An error and the state as it was, or an exchange.
  abbrev Exchange :
      Bytes
      → Result Bytes
      → RequestClientInfo
      → AppState l
      → Reply AppError (JsonResponse NonceResponse) × AppState l
      → Type 0
  Exchange new_nonce body client_info state r =
      ((e : AppError) × (r ≡ (err e, state)))
      ⊎ ((nonce : Bytes) × Asks json c body nonce
          × (r ≡ (
            ok (record { status = 200; body = record { nonce = c.encode new_nonce } }),
            exchanged l (identifier x client_info) nonce new_nonce state,
          )))

  nonce_exchange_cases :
      (new_nonce : Bytes) (body : Result Bytes) (client_info : RequestClientInfo)
      (state : AppState l)
      → Exchange new_nonce body client_info state
          (nonce_exchange json l c x new_nonce body client_info state)
  unfolding nonce_exchange collect_to_json
  nonce_exchange_cases new_nonce (Result.err e) client_info state = inl (hyper, refl)
  nonce_exchange_cases new_nonce (Result.ok bytes) client_info state =
      parse_cases (json.nonce_request.from_slice bytes) refl
    where
      decode_cases :
          (payload : NonceRequest) (d : Result Bytes)
          → json.nonce_request.from_slice bytes ≡ some payload
          → c.decode payload.nonce ≡ d
          → Exchange new_nonce
              (Result.ok bytes)
              client_info
              state
              (nonce_exchange json l c x new_nonce (Result.ok bytes) client_info state)
      decode_cases payload (Result.err e) p d =
          inl (bad_request (ascii "Invalid nonce format"), rw (p, d) refl)
      decode_cases payload (Result.ok nonce) p d = elim (Bool-cases (validate_nonce nonce)) [
        | inl valid ↦ inr (nonce, (bytes, payload, refl, p, d, valid), rw (p, d, valid) refl)
        | inr invalid ↦ inl (bad_request (ascii "Invalid nonce"), rw (p, d, invalid) refl)
      ]

      parse_cases :
          (o : Option NonceRequest)
          → json.nonce_request.from_slice bytes ≡ o
          → Exchange new_nonce
              (Result.ok bytes)
              client_info
              state
              (nonce_exchange json l c x new_nonce (Result.ok bytes) client_info state)
      parse_cases none p = inl (bad_request (ascii "Invalid JSON body"), rw p refl)
      parse_cases (some payload) p = decode_cases payload (c.decode payload.nonce) p refl

  register_keeps :
      (body : Result Bytes) (state : AppState l) → (register json l body state).1 ≡ state
  unfolding register collect_to_json
  register_keeps (Result.err e) state = refl
  register_keeps (Result.ok bytes) state =
      elim (json.register.from_slice bytes)
        as (λ o.
          (continue (or_fail (bad_request (ascii "Invalid JSON body")) o state)
            (λ payload s. (ok (registered json l s), s))).1
          ≡ state) [ none ↦ refl | some payload ↦ refl ]

  abbrev Routed :
      Bytes
      → Result Bytes
      → RequestClientInfo
      → AppState l
      → Route
      → Reply AppError Response × AppState l
      → Type 0
  Routed new_nonce body client_info state route r =
      (r.1 ≡ state)
      ⊎ ((route ≡ v3_nonce)
          × (nonce : Bytes) × Asks json c body nonce
          × (r ≡ (
            ok (
                into_response json.nonce_response
                  (record { status = 200; body = record { nonce = c.encode new_nonce } })),
            exchanged l (identifier x client_info) nonce new_nonce state,
          )))

  handle_route_cases :
      (legacy_enabled : Bool) (new_nonce : Bytes) (body : Result Bytes)
      (client_info : RequestClientInfo) (state : AppState l) (r : Route)
      → Routed new_nonce body client_info state r
          (handle_route json l c x status_text legacy_enabled new_nonce body client_info r state)
  unfolding handle_route
  handle_route_cases legacy_enabled new_nonce body client_info state no_route = inl refl
  handle_route_cases legacy_enabled new_nonce body client_info state v3_register =
      inl (responds-keeps (register json l body state) _ ∙ register_keeps body state)
  handle_route_cases true new_nonce body client_info state v2_register =
      inl (responds-keeps (register json l body state) _ ∙ register_keeps body state)
  handle_route_cases false new_nonce body client_info state v2_register = inl refl
  handle_route_cases legacy_enabled new_nonce body client_info state v3_nonce =
      elim (nonce_exchange_cases new_nonce body client_info state) [
        | inl (e, failed) ↦ inl (rw failed refl)
        | inr (nonce, asks, done) ↦ inr (refl, nonce, asks, rw done refl)
      ]

  abbrev pub IsExchange : Bytes → Request → AppState l → Response × AppState l → Type 0
  IsExchange new_nonce req state r =
      (client_info : RequestClientInfo) × (nonce : Bytes) × (req.client_info ≡ some client_info)
      × (req.method ≡ post)
      × (req.path ≡ ascii "/api/localsend/v3/nonce")
      × Asks json c req.body nonce
      × (r ≡ (
        into_response json.nonce_response
            (record { status = 200; body = record { nonce = c.encode new_nonce } }),
        exchanged l (identifier x client_info) nonce new_nonce state,
      ))

  abbrev Frame : Bytes → Request → AppState l → Response × AppState l → Type 0
  Frame new_nonce req state r = (r.1 ≡ state) ⊎ IsExchange new_nonce req state r

  -- For every request and state: the state stays as it is, or the request is an exchange of nonces
  -- over v3 with a nonce of a valid length; then that nonce and the new one are stored under the
  -- client's identifier, the response has status 200 and the new nonce, and nothing else changes.
  pub handle_request_frame :
      (legacy_enabled : Bool) (new_nonce : Bytes) (req : Request) (state : AppState l)
      → let r = handle_request json l c x status_text legacy_enabled new_nonce req state in
        (r.1 ≡ state) ⊎ IsExchange new_nonce req state r
  unfolding handle_request handle_request_inner
  handle_request_frame legacy_enabled new_nonce req state = elim (Bool-cases req.state) [
    | inr absent ↦ rw absent (inl refl)
    | inl present ↦ elim (Option-cases req.client_info) [
      | inl absent ↦ rw (present, absent) (inl refl)
      | inr (client_info, given) ↦
          rw (present, given)
            (elim (handle_route_cases legacy_enabled new_nonce req.body client_info state
              (route req.method req.path)) [
                | inl same ↦ inl same
                | inr (at, nonce, asks, done) ↦
                    let (posted, there) = route_nonce req.method req.path at in
                    inr (client_info, nonce, refl, posted, there, asks, rw done refl)
              ])
    ]
  ]
