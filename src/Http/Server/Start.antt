-- ===== src/Http/Server/Start.antt =====
-- core/src/http/server/mod.rs, client_cert_verifier.rs: how the server starts on both kinds of
-- addresses, goes on, and stops. How a connection is served is in Accept.
pub mod Families
pub mod Ends
use localsend_uyava.Prelude.{
  List, [], ◌∷◌, ◌++◌, map, Option, none, some, Bool, true, false, Bytes, Text, Result, ok, err,
  ◌>>=◌, if◌then◌else◌,
}
use localsend_uyava.Http.Server.Accept.{TcpStream}

pub record TlsConfig : Type 0 where
  pub cert : Text
  pub private_key : Text

-- The crate rustls: the readers of PEM texts, the store of root certificates and the verifier that
-- it is built into, and the acceptor with a verifier of clients, a certificate and a key.
pub record Rustls : Type 1 where
  pub RootCertStore : Type 0
  pub Verifier : Type 0
  pub TlsAcceptor : Type 0
  pub certificate : Text → Result Bytes
  pub private_key : Text → Result Bytes
  pub empty : RootCertStore
  pub add : RootCertStore → Bytes → Result RootCertStore
  pub build : RootCertStore → Result Verifier
  pub with_single_cert : Verifier → Bytes → Bytes → Result TlsAcceptor

pub data Family : Type 0 where
  ipv4 ipv6 : Family

-- What becomes of a socket: it is bound, or it accepts a connection, or one of these fails.
pub data SocketEvent (Client : Type 0) : Type 0 where
  bound : Result (Unit {0}) → SocketEvent Client
  accepted : Result (TcpStream Client) → SocketEvent Client

-- `stopped`: there is a message for `stop_rx`, or its sender is gone.
pub data Event (Client : Type 0) : Type 0 where
  at : Family → SocketEvent Client → Event Client
  stopped : Event Client

-- How far a call of `start_server_with_addr` is. It never returns with success.
pub data Server (TlsAcceptor : Type 0) : Type 0 where
  binding : Server TlsAcceptor
  listening : Option TlsAcceptor → Server TlsAcceptor
  failed : Server TlsAcceptor

-- A connection, and the acceptor that it is served with, if any.
pub record Served (TlsAcceptor Client : Type 0) : Type 0 where
  pub acceptor : Option TlsAcceptor
  pub stream : TcpStream Client

pub record Servers (TlsAcceptor : Type 0) : Type 0 where
  pub v4 : Server TlsAcceptor
  pub v6 : Server TlsAcceptor

abbrev pub is_failed : {A : Type 0} → Server A → Bool
is_failed failed = true
is_failed s = false

module _ (rustls : Rustls) where
  open rustls use {TlsAcceptor}

  -- `CustomClientCertVerifier::try_new`
  unfoldable pub try_new : Text → Result rustls.Verifier
  try_new cert =
      rustls.certificate cert >>= λ der. rustls.add rustls.empty der >>= λ store. rustls.build store

  unfoldable pub create_tls_config : TlsConfig → Result TlsAcceptor
  unfolding try_new
  create_tls_config tls_config = rustls.certificate tls_config.cert >>= λ cert.
      rustls.private_key tls_config.private_key >>= λ key.
      try_new tls_config.cert >>= λ verifier. rustls.with_single_cert verifier cert key

  unfoldable pub tls_acceptor : Option TlsConfig → Result (Option TlsAcceptor)
  unfolding create_tls_config
  tls_acceptor none = ok none
  tls_acceptor (some tls_config) = create_tls_config tls_config >>= λ acceptor. ok (some acceptor)

  abbrev pub listen : Result (Option TlsAcceptor) → Server TlsAcceptor
  listen (ok acceptor) = listening acceptor
  listen (err e) = failed

  module _ {Client : Type 0} (tls_config : Option TlsConfig) where
    -- A call of `start_server_with_addr`, and the connections that it serves, each in a task of
    -- its own. What cannot happen to it changes nothing.
    unfoldable pub socket_step :
        Server TlsAcceptor
        → SocketEvent Client
        → Server TlsAcceptor × List (Served TlsAcceptor Client)
    unfolding tls_acceptor
    socket_step binding (bound (ok u)) = (listen (tls_acceptor tls_config), [])
    socket_step binding (bound (err e)) = (failed, [])
    socket_step (listening acceptor) (accepted (ok stream)) =
        (listening acceptor, (record { acceptor = acceptor; stream = stream }) ∷ [])
    socket_step (listening acceptor) (accepted (err e)) = (failed, [])
    socket_step server e = (server, [])

    unfoldable pub start_server_with_addr :
        List (SocketEvent Client)
        → Server TlsAcceptor
        → Server TlsAcceptor × List (Served TlsAcceptor Client)
    unfolding socket_step
    start_server_with_addr [] server = (server, [])
    start_server_with_addr (e ∷ es) server =
        let next = socket_step server e in
        let rest = start_server_with_addr es next.0 in (rest.0, next.1 ++ rest.1)

    -- The task of `start_with_port`: whether its `select!` still waits, and the connections served,
    -- with the kind of address that they came to. After an error the part for IPv6 only sleeps.
    unfoldable pub start_with_port :
        List (Event Client) → Servers TlsAcceptor → Bool × List (Family × Served TlsAcceptor Client)
    unfolding socket_step
    start_with_port [] servers = (true, [])
    start_with_port (stopped ∷ es) servers = (false, [])
    start_with_port (at Family.ipv4 e ∷ es) servers =
        let next = socket_step servers.v4 e in
        let rest = start_with_port es (record servers { v4 = next.0 }) in
        if is_failed next.0
        then (false, [])
        else (rest.0, map (λ c. (Family.ipv4, c)) next.1 ++ rest.1)
    start_with_port (at Family.ipv6 e ∷ es) servers =
        let next = socket_step servers.v6 e in
        let rest = start_with_port es (record servers { v6 = next.0 }) in
        (rest.0, map (λ c. (Family.ipv6, c)) next.1 ++ rest.1)
