-- ===== src/Http/Server/Start/Families.antt =====
-- What the server's events say of one kind of address.
use localsend_uyava.Prelude.{◌≡◌, refl, ap, List, [], ◌∷◌, ◌++◌, map, Bool, true, false}
use localsend_uyava.Http.Server.Start.{
  Family, ipv4, ipv6, SocketEvent, Event, at, stopped, Server, Servers,
}

-- What becomes of the sockets of one kind of address.
abbrev pub events_of : {Client : Type 0} → Family → List (Event Client) → List (SocketEvent Client)
events_of f [] = []
events_of f (stopped ∷ es) = events_of f es
events_of ipv4 (at ipv4 e ∷ es) = e ∷ events_of ipv4 es
events_of ipv4 (at ipv6 e ∷ es) = events_of ipv4 es
events_of ipv6 (at ipv4 e ∷ es) = events_of ipv6 es
events_of ipv6 (at ipv6 e ∷ es) = e ∷ events_of ipv6 es

abbrev pub not_stopped : {Client : Type 0} → List (Event Client) → Bool
not_stopped [] = true
not_stopped (stopped ∷ es) = false
not_stopped (at f e ∷ es) = not_stopped es

-- The connections that came to one kind of address.
abbrev pub connections_of : {A : Type 0} → Family → List (Family × A) → List A
connections_of f [] = []
connections_of ipv4 ((ipv4, c) ∷ cs) = c ∷ connections_of ipv4 cs
connections_of ipv4 ((ipv6, c) ∷ cs) = connections_of ipv4 cs
connections_of ipv6 ((ipv4, c) ∷ cs) = connections_of ipv6 cs
connections_of ipv6 ((ipv6, c) ∷ cs) = c ∷ connections_of ipv6 cs

abbrev pub server_of : {A : Type 0} → Family → Servers A → Server A
server_of ipv4 servers = servers.v4
server_of ipv6 servers = servers.v6

module _ {A : Type 0} where
  pub of-own :
      (f : Family) (cs : List A) (rest : List (Family × A))
      → connections_of f (map (λ c. (f, c)) cs ++ rest) ≡ cs ++ connections_of f rest
  of-own f [] rest = refl
  of-own ipv4 (c ∷ cs) rest = ap (λ l. c ∷ l) (of-own ipv4 cs rest)
  of-own ipv6 (c ∷ cs) rest = ap (λ l. c ∷ l) (of-own ipv6 cs rest)

  pub v4-of-v6 :
      (cs : List A) (rest : List (Family × A))
      → connections_of ipv4 (map (λ c. (ipv6, c)) cs ++ rest) ≡ connections_of ipv4 rest
  v4-of-v6 [] rest = refl
  v4-of-v6 (c ∷ cs) rest = v4-of-v6 cs rest

  pub v6-of-v4 :
      (cs : List A) (rest : List (Family × A))
      → connections_of ipv6 (map (λ c. (ipv4, c)) cs ++ rest) ≡ connections_of ipv6 rest
  v6-of-v4 [] rest = refl
  v6-of-v4 (c ∷ cs) rest = v6-of-v4 cs rest
