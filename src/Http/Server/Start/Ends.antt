-- ===== src/Http/Server/Start/Ends.antt =====
-- When the server ends, and what it serves until then.
use localsend_uyava.Prelude.{
  All, All-append, ◌≡◌, refl, ap, ◌∙◌, List, [], ◌∷◌, ◌++◌, map, Option, Bool, true, false, not,
  ◌&&◌, Result, ok, err, Bool-cases, ◌⊎◌, inl, inr, arith,
}
use localsend_uyava.Http.Server.Start.{
  TlsConfig, Rustls, Family, ipv4, ipv6, SocketEvent, bound, accepted, Event, at, stopped, Server,
  Served, binding, listening, failed, Servers, is_failed, tls_acceptor, socket_step, listen,
  start_server_with_addr, start_with_port,
}
use localsend_uyava.Http.Server.Start.Families.{
  events_of, not_stopped, connections_of, server_of, of-own, v4-of-v6, v6-of-v4,
}

abbrev with_v4 : {A : Type 0} → Servers A → Server A → Servers A
with_v4 servers server = record servers { v4 = server }

abbrev with_v6 : {A : Type 0} → Servers A → Server A → Servers A
with_v6 servers server = record servers { v6 = server }

and_false : (b : Bool) → false ≡ (b && false)
and_false true = refl
and_false false = refl

module _ (rustls : Rustls) (tls_config : Option TlsConfig) where
  open rustls use {TlsAcceptor}

  abbrev Fits : Server TlsAcceptor → Type 0
  Fits binding = Unit {0}
  Fits (listening acceptor) = tls_acceptor rustls tls_config ≡ ok acceptor
  Fits failed = Unit {0}

  listen-Fits :
      (r : Result (Option TlsAcceptor))
      → tls_acceptor rustls tls_config ≡ r
      → Fits (listen rustls r)
  listen-Fits (ok a) e = e
  listen-Fits (err m) e = tt

module _ (rustls : Rustls) {Client : Type 0} (tls_config : Option TlsConfig) where
  open rustls use {TlsAcceptor}

  -- A server that has failed does nothing more.
  failed-stays :
      (es : List (SocketEvent Client))
      → start_server_with_addr rustls tls_config es failed ≡ (failed, [])
  unfolding start_server_with_addr socket_step
  failed-stays [] = refl
  failed-stays (bound r ∷ es) = rw (failed-stays es) refl
  failed-stays (accepted r ∷ es) = rw (failed-stays es) refl

  failed_alone :
      (es : List (SocketEvent Client)) (s : Server TlsAcceptor)
      → is_failed s ≡ true
      → is_failed (start_server_with_addr rustls tls_config es s).0 ≡ true
  failed_alone es failed h = rw (failed-stays es) refl
  failed_alone es binding h = cc
  failed_alone es (listening a) h = cc

  abbrev IsServed : Served TlsAcceptor Client → Type 0
  IsServed c = tls_acceptor rustls tls_config ≡ ok c.acceptor

  socket_step-Fits :
      (s : Server TlsAcceptor) (e : SocketEvent Client)
      → Fits rustls tls_config s
      → Fits rustls tls_config (socket_step rustls tls_config s e).0
        × All IsServed (socket_step rustls tls_config s e).1
  unfolding socket_step
  socket_step-Fits binding (bound (ok u)) h =
      (listen-Fits rustls tls_config (tls_acceptor rustls tls_config) refl, tt)
  socket_step-Fits binding (bound (err e)) h = (tt, tt)
  socket_step-Fits binding (accepted r) h = (tt, tt)
  socket_step-Fits (listening a) (accepted (ok stream)) h = (h, (h, tt))
  socket_step-Fits (listening a) (accepted (err e)) h = (tt, tt)
  socket_step-Fits (listening a) (bound r) h = (h, tt)
  socket_step-Fits failed (bound r) h = (tt, tt)
  socket_step-Fits failed (accepted r) h = (tt, tt)

  abbrev next :
      Server TlsAcceptor
      → SocketEvent Client
      → Server TlsAcceptor × List (Served TlsAcceptor Client)
  next server e = socket_step rustls tls_config server e

  abbrev run :
      List (Event Client) → Servers TlsAcceptor → Bool × List (Family × Served TlsAcceptor Client)
  run es servers = start_with_port rustls tls_config es servers

  abbrev alone :
      Family
      → List (Event Client)
      → Servers TlsAcceptor
      → Server TlsAcceptor × List (Served TlsAcceptor Client)
  alone f es servers =
      start_server_with_addr rustls tls_config (events_of f es) (server_of f servers)

  abbrev AllServed : List (Family × Served TlsAcceptor Client) → Type 0
  AllServed cs = All (λ c. IsServed c.1) cs

  tagged-AllServed :
      (f : Family) (cs : List (Served TlsAcceptor Client))
      → All IsServed cs
      → AllServed (map (λ c. (f, c)) cs)
  tagged-AllServed f [] h = tt
  tagged-AllServed f (c ∷ cs) (p, h) = (p, tagged-AllServed f cs h)

  run-AllServed :
      (es : List (Event Client)) (servers : Servers TlsAcceptor)
      → Fits rustls tls_config servers.v4
      → Fits rustls tls_config servers.v6
      → AllServed (run es servers).1
  unfolding start_with_port
  run-AllServed [] servers h k = tt
  run-AllServed (stopped ∷ es) servers h k = tt
  run-AllServed (at ipv4 e ∷ es) servers h k =
      let (fits, served) = socket_step-Fits servers.v4 e h in
      let later = run-AllServed es (with_v4 servers (next servers.v4 e).0) fits k in
      elim (Bool-cases (is_failed (next servers.v4 e).0)) [
        | inl a ↦ rw a tt
        | inr a ↦ rw a (
            All-append (λ c. IsServed c.1) _ _ (tagged-AllServed ipv4 (next servers.v4 e).1 served)
              later)
      ]
  run-AllServed (at ipv6 e ∷ es) servers h k =
      let (fits, served) = socket_step-Fits servers.v6 e k in
      All-append (λ c. IsServed c.1) _ _ (tagged-AllServed ipv6 (next servers.v6 e).1 served)
        (run-AllServed es (with_v6 servers (next servers.v6 e).0) h fits)

  run-ends :
      (es : List (Event Client)) (servers : Servers TlsAcceptor)
      → is_failed servers.v4 ≡ false
      → (run es servers).0 ≡ (not_stopped es && not (is_failed (alone ipv4 es servers).0))
  unfolding start_with_port start_server_with_addr
  run-ends [] servers h = rw h refl
  run-ends (stopped ∷ es) servers h = refl
  run-ends (at ipv4 e ∷ es) servers h = elim (Bool-cases (is_failed (next servers.v4 e).0)) [
    | inl a ↦
        rw (a, failed_alone (events_of ipv4 es) (next servers.v4 e).0 a)
          (and_false (not_stopped es))
    | inr a ↦ rw a (run-ends es (with_v4 servers (next servers.v4 e).0) a)
  ]
  run-ends (at ipv6 e ∷ es) servers h = run-ends es (with_v6 servers (next servers.v6 e).0) h

  abbrev Alone : List (Event Client) → Servers TlsAcceptor → Family → Type 0
  Alone es servers f = connections_of f (run es servers).1 ≡ (alone f es servers).1

  on_v4 :
      (f : Family) (es : List (Event Client)) (servers : Servers TlsAcceptor)
      (e : SocketEvent Client)
      → Alone es (with_v4 servers (next servers.v4 e).0) f
      → connections_of f (
          map (λ c. (ipv4, c)) (next servers.v4 e).1
          ++ (run es (with_v4 servers (next servers.v4 e).0)).1)
        ≡ (alone f (at ipv4 e ∷ es) servers).1
  unfolding start_server_with_addr
  on_v4 ipv4 es servers e h =
      of-own ipv4 (next servers.v4 e).1 (run es (with_v4 servers (next servers.v4 e).0)).1
      ∙ ap (λ l. (next servers.v4 e).1 ++ l) h
  on_v4 ipv6 es servers e h =
      v6-of-v4 (next servers.v4 e).1 (run es (with_v4 servers (next servers.v4 e).0)).1 ∙ h

  run-Alone :
      (f : Family) (es : List (Event Client)) (servers : Servers TlsAcceptor)
      → (run es servers).0 ≡ true
      → Alone es servers f
  unfolding start_with_port start_server_with_addr
  run-Alone f [] servers h = refl
  run-Alone f (stopped ∷ es) servers h = cc
  run-Alone f (at ipv4 e ∷ es) servers h = elim (Bool-cases (is_failed (next servers.v4 e).0)) [
    | inl a ↦ ground (arith, a, h)
    | inr a ↦
        rw a (
          on_v4 f es servers e (run-Alone f es (with_v4 servers (next servers.v4 e).0) (rw a at h)))
  ]
  run-Alone ipv4 (at ipv6 e ∷ es) servers h =
      v4-of-v6 (next servers.v6 e).1 (run es (with_v6 servers (next servers.v6 e).0)).1
      ∙ run-Alone ipv4 es (with_v6 servers (next servers.v6 e).0) h
  run-Alone ipv6 (at ipv6 e ∷ es) servers h =
      of-own ipv6 (next servers.v6 e).1 (run es (with_v6 servers (next servers.v6 e).0)).1
      ∙ ap (λ l. (next servers.v6 e).1 ++ l)
          (run-Alone ipv6 es (with_v6 servers (next servers.v6 e).0) h)

-- The task of `start_with_port`, whatever becomes of its sockets and of `stop_rx`: it still runs
-- exactly if it is not stopped and the server of IPv4 has not failed, whatever becomes of that of
-- IPv6; while it runs, it serves for each kind of address the connections that
-- `start_server_with_addr` serves there alone, in order; and each is served with the acceptor of
-- the TLS configuration, so that none is served without TLS where there is one.
pub start_with_port_lem :
    (rustls : Rustls) (Client : Type 0) (tls_config : Option TlsConfig) (es : List (Event Client))
    (family : Family)
    → (let run = start_with_port rustls tls_config es (record { v4 = binding; v6 = binding }) in
        (run.0 ≡ (
          not_stopped es
          && not
              (is_failed (start_server_with_addr rustls tls_config (events_of ipv4 es) binding).0)))
        × ((run.0 ≡ false)
            ⊎ (connections_of family run.1
                ≡ (start_server_with_addr rustls tls_config (events_of family es) binding).1))
        × All (λ c. tls_acceptor rustls tls_config ≡ ok c.1.acceptor) run.1)
start_with_port_lem rustls Client tls_config es family = (
  run-ends rustls tls_config es begin refl,
  elim (Bool-cases (start_with_port rustls tls_config es begin).0) [
    | inl a ↦ inr (run-Alone rustls tls_config family es begin a ∙ begun family)
    | inr a ↦ inl a
  ],
  run-AllServed rustls tls_config es begin tt tt,
)
  where
    begin : Servers rustls.TlsAcceptor
    begin = record { v4 = binding; v6 = binding }

    begun :
        (f : Family)
        → (start_server_with_addr rustls tls_config (events_of f es) (server_of f begin)).1
          ≡ (start_server_with_addr rustls tls_config (events_of f es) binding).1
    begun ipv4 = refl
    begun ipv6 = refl
