-- ===== src/System/FromServers.antt =====
-- Addresses that the servers of the system resolver give.
use getresolvd.Base.{
  List, [], ◌∷◌, ◌++◌, ◌≡◌, refl, sym, ap, subst, ◌∙◌, none, some, Text, codes, Bool-cases, Member,
  inl, inr, if◌then◌else◌, ltb_ℤ, pos,
}
use getresolvd.Netip.{Addr}
use getresolvd.Errors.{Result, ok, err, panic, ◌>>=◌}
use getresolvd.Errors.Laws.{>>=-eq-ok}
use getresolvd.Resolver.{Resolver, Gives, OneGives}
use getresolvd.Sequential.Answers.{sequential-OneGives}
use getresolvd.RoundRobin.Answers.{round_robin-OneGives}
use getresolvd.Retry.Answers.{RetryReturns, retry-Gives}
use getresolvd.Relative.{candidates_of, relative_conf}
use getresolvd.Relative.Answers.{OneAnswers, relative-OneAnswers}
use getresolvd.Dnsconfig.{Config}
use getresolvd.Dns.{AddrPort}
use getresolvd.Dns.Lookup.{dns_lookup}
use getresolvd.Dns.Lookup.Answers.{Answered, dns_lookup-ok}
use getresolvd.System.{
  Env, explained, server_resolver, server_resolvers, balanced, retried, with_search,
}

module _ {W : Type 0} (env : Env W) where
  -- The names that the servers are asked for.
  abbrev pub asked_names : Config → List Text → Text → List Text
  asked_names conf [] host = host ∷ []
  asked_names conf (s ∷ search) host =
      candidates_of env.names
        (relative_conf (s ∷ search) (if ltb_ℤ conf.n_dots (pos 0) then none else some conf.n_dots))
        host

  -- A server of the configuration answered a lookup of this name, from some world on.
  pub record FromServer (conf : Config) (servers : List Text) (network name : Text)
      (addrs : List Addr) : Type 0 where
    pub server : Text
    pub member : Member server servers
    pub addr_port : AddrPort
    pub parsed : env.parse_addr_port server ≡ ok addr_port
    pub before : W
    pub answered :
        Answered env.names env.net env.dialer env.merge
          (server_resolver env conf addr_port)
          env.swapped
          network
          name
          before
          addrs

  -- The resolver of a server.
  pub IsServer : Config → List Text → Resolver W → Type 0
  IsServer conf servers r =
      (server : Text) × Member server servers
      × (addr_port : AddrPort) × (env.parse_addr_port server ≡ ok addr_port)
      × (r
          ≡ dns_lookup env.names env.net env.dialer env.merge (server_resolver env conf addr_port)
              env.swapped)

  pub explained_ok :
      {A : Type 0} (t : Text) (p : Result A) (a : A) → explained t p ≡ ok a → p ≡ ok a
  explained_ok t (ok b) a e = e
  explained_ok t (err x) a e = cc
  explained_ok t panic a e = cc

  pub server_resolvers-IsServer :
      (conf : Config) (servers : List Text) (rs : List (Resolver W))
      → server_resolvers env conf servers ≡ ok rs
      → (r : Resolver W) → Member r rs
      → IsServer conf servers r
  unfolding server_resolvers IsServer
  server_resolvers-IsServer conf [] rs e r m =
      let same : rs ≡ [] = cc in elim (subst (Member r) same m) [ ]
  server_resolvers-IsServer conf (s ∷ servers) rs e r m =
      let here = λ (a : AddrPort).
        dns_lookup env.names env.net env.dialer env.merge (server_resolver env conf a)
          env.swapped in
      let (addr_port, rest, parsed) =
        >>=-eq-ok
          (explained (codes "failed to parse server address " ++ env.quote s)
            (env.parse_addr_port s))
          (λ a. server_resolvers env conf servers >>= λ rs. ok (here a ∷ rs)) e in
      let (others, end, later) =
        >>=-eq-ok (server_resolvers env conf servers) (λ rs. ok (here addr_port ∷ rs)) rest in
      let same : rs ≡ here addr_port ∷ others = cc in
      elim (subst (Member r) same m) [
        | inl first ↦
            (s, inl refl, addr_port, explained_ok _ (env.parse_addr_port s) addr_port parsed, first)
        | inr more ↦
            let (server, at, a, q, is) =
              server_resolvers-IsServer conf servers others later r more in
            (server, inr at, a, q, is)
      ]

  pub server_resolvers-nil :
      (conf : Config) (servers : List Text)
      → server_resolvers env conf servers ≡ ok []
      → servers ≡ []
  unfolding server_resolvers
  server_resolvers-nil conf [] e = refl
  server_resolvers-nil conf (s ∷ servers) e =
      let here = λ (a : AddrPort).
        dns_lookup env.names env.net env.dialer env.merge (server_resolver env conf a)
          env.swapped in
      let (a, rest, _) =
        >>=-eq-ok
          (explained (codes "failed to parse server address " ++ env.quote s)
            (env.parse_addr_port s))
          (λ a. server_resolvers env conf servers >>= λ rs. ok (here a ∷ rs)) e in
      let (others, end, later) =
        >>=-eq-ok (server_resolvers env conf servers) (λ rs. ok (here a ∷ rs)) rest in
      cc

  pub IsServer-FromServer :
      (conf : Config) (servers : List Text) (r : Resolver W) (network name : Text)
      (addrs : List Addr)
      → IsServer conf servers r
      → Gives r network name addrs
      → FromServer conf servers network name addrs
  unfolding IsServer
  IsServer-FromServer conf servers r network name addrs (server, at, addr_port, parsed, is)
        (w, w', e) =
      record {
        server = server;
        member = at;
        addr_port = addr_port;
        parsed = parsed;
        before = w;
        answered =
            dns_lookup-ok env.names env.net env.dialer env.merge
              (server_resolver env conf addr_port) env.swapped network name w w' addrs
              (ap (λ (f : Resolver W). f network name w) (sym is) ∙ e);
      }

  balanced-OneGives :
      (conf : Config) (rs : List (Resolver W)) (network host : Text) (addrs : List Addr)
      → Gives (balanced env conf rs) network host addrs
      → OneGives rs network host addrs
  unfolding balanced
  balanced-OneGives conf rs network host addrs (w, w', e) = elim (Bool-cases conf.rotate) [
    | inl h ↦ round_robin-OneGives env.rand rs network host w w' addrs (rw h at e)
    | inr h ↦ sequential-OneGives rs network host w w' addrs (rw h at e)
  ]

  pub retried-OneGives :
      RetryReturns env.retry_lib
      → (conf : Config) (rs : List (Resolver W)) (network host : Text) (addrs : List Addr)
      → Gives (retried env conf rs) network host addrs
      → OneGives rs network host addrs
  unfolding retried
  retried-OneGives returns conf rs network host addrs (w, w', e) =
      balanced-OneGives conf rs network host addrs
        (retry-Gives env.retry_lib returns (balanced env conf rs) _ network host w w' addrs e)

  pub with_search-OneAnswers :
      (conf : Config) (search : List Text) (r : Resolver W) (network host : Text)
      (addrs : List Addr)
      → Gives (with_search env conf search r) network host addrs
      → OneAnswers r (asked_names conf search host) network addrs
  unfolding with_search
  with_search-OneAnswers conf [] r network host addrs g = inl (host, inl refl, g)
  with_search-OneAnswers conf (s ∷ search) r network host addrs (w, w', e) =
      relative-OneAnswers env.names r _ network host w w' addrs e
