-- ===== src/Http/Tests/Secured.antt =====
-- A server with TLS.
use localsend_uyava.Prelude.{
  ◌≡◌, refl, ◌⊎◌, inl, inr, Bool, List, [], ◌∷◌, Option, none, some, true, false, Bytes, ascii,
  Result, ok, err,
}
use localsend_uyava.Http.Tests.{lru, x509, status_text, server_nonce, exchange, state}
use localsend_uyava.Http.Tests.Toy.{toy}
use localsend_uyava.Crypto.Toy.{toy as crypto}
use localsend_uyava.Crypto.Cert.{verify_cert_from_cert, public_key_from_cert}
use localsend_uyava.Http.Server.Controller.{identifier}
use localsend_uyava.Http.Server.Accept.{Tls, TcpStream, accept, serve_connection}
use localsend_uyava.Http.Server.Accept.Identified.{TlsLaws, accept_identified}

-- Who shows a certificate is checked where one is asked for.
abbrev shown : Bytes → Bool → Result (Unit {0}) → Result (Option (Bytes × List Bytes))
shown cert false r = ok none
shown cert true (ok u) = ok (some (cert, []))
shown cert true (err e) = err e

abbrev handshake :
    Bool → Bool → (Bytes → Result (Unit {0})) → Option Bytes → Result (Option (Bytes × List Bytes))
handshake offer mandatory check (some cert) = shown cert offer (check cert)
handshake false mandatory check none = ok none
handshake true false check none = ok none
handshake true true check none = err (ascii "no certificate")

abbrev tls : Tls
tls = record { Client = Option Bytes; accept = handshake }

shown-checked :
    (offer : Bool) (shows cert : Bytes) (chain : List Bytes) (check : Bytes → Result (Unit {0}))
    (r : Result (Unit {0}))
    → check shows ≡ r
    → shown shows offer r ≡ ok (some (cert, chain))
    → check cert ≡ ok tt
shown-checked false shows cert chain check r e h = cc
shown-checked true shows cert chain check (ok u) e h = cc
shown-checked true shows cert chain check (err m) e h = cc

shown-anonymous :
    (offer : Bool) (cert : Bytes) (r : Result (Unit {0}))
    → shown cert offer r ≡ ok none
    → offer ≡ false
shown-anonymous false cert r h = refl
shown-anonymous true cert (ok u) h = cc
shown-anonymous true cert (err m) h = cc

checked_lem :
    (offer mandatory : Bool) (check : Bytes → Result (Unit {0})) (client : Option Bytes)
    (cert : Bytes) (chain : List Bytes)
    → handshake offer mandatory check client ≡ ok (some (cert, chain))
    → check cert ≡ ok tt
checked_lem offer mandatory check (some shows) cert chain h =
    shown-checked offer shows cert chain check (check shows) refl h
checked_lem false mandatory check none cert chain h = cc
checked_lem true false check none cert chain h = cc
checked_lem true true check none cert chain h = cc

anonymous_lem :
    (offer mandatory : Bool) (check : Bytes → Result (Unit {0})) (client : Option Bytes)
    → handshake offer mandatory check client ≡ ok none
    → (offer ≡ false) ⊎ (mandatory ≡ false)
anonymous_lem offer mandatory check (some shows) h =
    inl (shown-anonymous offer shows (check shows) h)
anonymous_lem false mandatory check none h = inl refl
anonymous_lem true false check none h = inr refl
anonymous_lem true true check none h = cc

tls-TlsLaws : TlsLaws tls
tls-TlsLaws = record { checked = checked_lem; anonymous = anonymous_lem }

abbrev stream : TcpStream (Option Bytes)
stream = record {
  remote_addr = ascii "10.0.0.2";
  client = some (1 ∷ 2 ∷ []);
  requests =
      (record {
        method = exchange.method;
        path = exchange.path;
        body = exchange.body;
        new_nonce = server_nonce;
      })
      ∷ [];
}

accept_identified_example :
    (accept toy lru crypto x509 status_text false tls true stream state ≡ ([], state))
    ⊎ ((cert : Bytes) × (parsed : Bytes) × (x509.from_der cert ≡ ok parsed)
        × (verify_cert_from_cert x509 parsed none ≡ ok tt)
        × (ok (identifier x509 (record { ip = stream.remote_addr; cert = some cert }))
            ≡ public_key_from_cert x509 parsed)
        × (accept toy lru crypto x509 status_text false tls true stream state
            ≡ serve_connection toy lru crypto x509 status_text false
                (record { ip = stream.remote_addr; cert = some cert })
                stream.requests
                state))
accept_identified_example =
    accept_identified toy lru crypto x509 status_text false tls stream state tls-TlsLaws
