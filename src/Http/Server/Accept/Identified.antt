-- ===== src/Http/Server/Accept/Identified.antt =====
-- Who a server with TLS takes its clients for.
use localsend_uyava.Prelude.{
  ℕ, ◌≡◌, refl, ap, ascii, ◌⊎◌, inl, inr, List, [], Option, none, some, Bool, true, false, Bytes,
  Text, Result, ok, err, >>=-eq-ok,
}
use localsend_uyava.Crypto.Token.{Crypto}
use localsend_uyava.Crypto.Cert.{
  X509, verify_client_cert, verify_cert_from_der, verify_cert_from_cert, public_key_from_cert_der,
  public_key_from_cert,
}
use localsend_uyava.Http.Dto.{Json}
use localsend_uyava.Http.Lru.{Lru}
use localsend_uyava.Http.Server.Accept.{
  offer_client_auth, client_auth_mandatory, Tls, TcpStream, accept, serve_connection, shaken,
}
use localsend_uyava.Http.Server.Controller.{AppState, Response, identifier, ok_of}

-- A certificate that a client has shown passes the check, and a client that has shown none is let in
-- only where a certificate is not asked for, or need not be shown.
pub record TlsLaws (tls : Tls) : Type 0 where
  pub checked :
      (offer mandatory : Bool) (check : Bytes → Result (Unit {0})) (client : tls.Client)
      (cert : Bytes) (chain : List Bytes)
      → tls.accept offer mandatory check client ≡ ok (some (cert, chain))
      → check cert ≡ ok tt
  pub anonymous :
      (offer mandatory : Bool) (check : Bytes → Result (Unit {0})) (client : tls.Client)
      → tls.accept offer mandatory check client ≡ ok none
      → (offer ≡ false) ⊎ (mandatory ≡ false)

key_of_cert :
    (x : X509) (cert : Bytes) (parsed : x.Certificate)
    → x.from_der cert ≡ ok parsed
    → public_key_from_cert_der x cert ≡ public_key_from_cert x parsed
unfolding public_key_from_cert_der
key_of_cert x cert parsed read = rw read refl

-- A certificate that is let in has a public key, by which its client is known.
verify_client_cert-identifier :
    (x : X509) (ip : Text) (cert : Bytes)
    → verify_client_cert x cert ≡ ok tt
    → (parsed : x.Certificate) × (x.from_der cert ≡ ok parsed)
      × (verify_cert_from_cert x parsed none ≡ ok tt)
      × (ok (identifier x (record { ip = ip; cert = some cert })) ≡ public_key_from_cert x parsed)
unfolding verify_client_cert identifier public_key_from_cert
verify_client_cert-identifier x ip cert h =
    let (parsed, read, valid) =
      >>=-eq-ok (x.from_der cert) (λ parsed. verify_cert_from_cert x parsed none)
        (accepted (verify_cert_from_der x cert none) h) in
    (parsed, read, valid, ap (λ r. ok (name r)) (key_of_cert x cert parsed read))
  where
    accepted :
        (r : Result (Unit {0}))
        → ◌≡◌ {A = Result (Unit {0})}
            (elim r as (λ k. Result (Unit {0})) [
              | ok u ↦ ok tt
              | err e ↦ err (ascii "ApplicationVerificationFailure")
            ])
            (ok tt)
        → r ≡ ok tt
    accepted (ok u) e = refl
    accepted (err m) e = cc

    name : Result Text → Text
    name r = elim (ok_of r) as (λ o. Text) [ none ↦ ip | some public_key ↦ public_key ]

-- A connection to a server with TLS, if a certificate that is shown passes the check, and only where
-- it is not asked for or not mandatory none is shown: nothing is served and the state stays as it is; or the client has shown a
-- certificate that is valid now and signed by its own key, and each of its requests is served
-- under that public key as its identifier, never under its address.
pub accept_identified :
    (json : Json) (l : Lru) (c : Crypto) (x : X509) (status_text : ℕ → Text) (legacy_enabled : Bool)
    (tls : Tls) (stream : TcpStream tls.Client) (state : AppState l)
    → TlsLaws tls
    → (accept json l c x status_text legacy_enabled tls true stream state ≡ ([], state))
      ⊎ ((cert : Bytes) × (parsed : x.Certificate) × (x.from_der cert ≡ ok parsed)
          × (verify_cert_from_cert x parsed none ≡ ok tt)
          × (ok (identifier x (record { ip = stream.remote_addr; cert = some cert }))
              ≡ public_key_from_cert x parsed)
          × (accept json l c x status_text legacy_enabled tls true stream state
              ≡ serve_connection json l c x status_text legacy_enabled
                  (record { ip = stream.remote_addr; cert = some cert })
                  stream.requests
                  state))
unfolding accept
accept_identified json l c x status_text legacy_enabled tls stream state laws =
    go (tls.accept offer_client_auth client_auth_mandatory (verify_client_cert x) stream.client)
      refl
  where
    serves : Result (Option (Bytes × List Bytes)) → List Response × AppState l
    serves r =
        shaken json l c x status_text legacy_enabled tls stream.remote_addr stream.requests r state

    go :
        (r : Result (Option (Bytes × List Bytes)))
        → tls.accept offer_client_auth client_auth_mandatory (verify_client_cert x) stream.client
          ≡ r
        → (serves r ≡ ([], state))
          ⊎ ((cert : Bytes) × (parsed : x.Certificate) × (x.from_der cert ≡ ok parsed)
              × (verify_cert_from_cert x parsed none ≡ ok tt)
              × (ok (identifier x (record { ip = stream.remote_addr; cert = some cert }))
                  ≡ public_key_from_cert x parsed)
              × (serves r
                  ≡ serve_connection json l c x status_text legacy_enabled
                      (record { ip = stream.remote_addr; cert = some cert })
                      stream.requests
                      state))
    go (err e) shook = inl refl
    go (ok none) shook =
        elim (laws.anonymous offer_client_auth client_auth_mandatory (verify_client_cert x)
          stream.client shook) [ inl e ↦ cc | inr e ↦ cc ]
    go (ok (some (cert, chain))) shook =
        let checked =
          laws.checked offer_client_auth client_auth_mandatory (verify_client_cert x) stream.client
            cert chain shook in
        let (parsed, read, valid, known) =
          verify_client_cert-identifier x stream.remote_addr cert checked in
        inr (cert, parsed, read, valid, known, refl)
