-- ===== src/Http/Tests/Started.antt =====
-- A server that cannot be bound for IPv6.
use localsend_uyava.Prelude.{
  All, ◌≡◌, refl, ◌⊎◌, List, [], ◌∷◌, some, false, not, ◌&&◌, Bytes, ascii, ok, err,
}
use localsend_uyava.Http.Server.Accept.{TcpStream}
use localsend_uyava.Http.Server.Start.{
  TlsConfig, Rustls, ipv4, ipv6, bound, accepted, Event, at, binding, is_failed, tls_acceptor,
  start_server_with_addr, start_with_port,
}
use localsend_uyava.Http.Server.Start.Families.{events_of, not_stopped, connections_of}
use localsend_uyava.Http.Server.Start.Ends.{start_with_port_lem}

-- PEM texts are read as they are, and an acceptor holds what it is made of.
abbrev rustls : Rustls
rustls = record {
  RootCertStore = List Bytes;
  Verifier = List Bytes;
  TlsAcceptor = List Bytes;
  certificate = λ pem. ok pem;
  private_key = λ pem. ok pem;
  empty = [];
  add = λ store der. ok (der ∷ store);
  build = λ store. ok store;
  with_single_cert = λ verifier cert key. ok (cert ∷ key ∷ verifier);
}

abbrev tls_config : TlsConfig
tls_config = record { cert = ascii "cert"; private_key = ascii "key" }

abbrev stream : TcpStream Bytes
stream = record { remote_addr = ascii "10.0.0.2"; client = []; requests = [] }

abbrev events : List (Event Bytes)
events =
    at ipv4 (bound (ok tt))
    ∷ at ipv6 (bound (err (ascii "in use")))
    ∷ at ipv4 (accepted (ok stream))
    ∷ []

start_with_port_example :
    let run =
      start_with_port rustls (some tls_config) events (record { v4 = binding; v6 = binding }) in
    (run.0 ≡ (
      not_stopped events
      && not (
          is_failed
            (start_server_with_addr rustls (some tls_config) (events_of ipv4 events) binding).0)))
    × ((run.0 ≡ false)
        ⊎ (connections_of ipv4 run.1
            ≡ (start_server_with_addr rustls (some tls_config) (events_of ipv4 events) binding).1))
    × All (λ c. tls_acceptor rustls (some tls_config) ≡ ok c.1.acceptor) run.1
start_with_port_example = start_with_port_lem rustls Bytes (some tls_config) events ipv4

-- It serves over IPv4, with TLS.
served :
    connections_of ipv4
      (start_with_port rustls (some tls_config) events (record { v4 = binding; v6 = binding })).1
    ≡ (record { acceptor = some (ascii "cert" ∷ ascii "key" ∷ ascii "cert" ∷ []); stream = stream })
      ∷ []
unfolding start_with_port
served = refl
