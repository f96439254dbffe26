-- ===== src/System/Working.antt =====
-- One server that works is enough for the system resolver.
use getresolvd.Base.{
  false, List, [], ◌∷◌, ◌++◌, ◌≡◌, refl, ap, sym, subst, ◌∙◌, Option, none, Text, codes, Bool-cases,
  Member, inl, inr,
}
use getresolvd.Errors.{Error, Result, ok, ◌>>=◌}
use getresolvd.Errors.Laws.{>>=-eq-ok}
use getresolvd.Deps.{Scan}
use getresolvd.Resolver.{Resolver, NeverFails}
use getresolvd.Sequential.Answers.{sequential-NeverFails}
use getresolvd.RoundRobin.Answers.{round_robin-NeverFails}
use getresolvd.Shuffle.{RandLawful}
use getresolvd.Retry.Answers.{RetryFails, retry-NeverFails}
use getresolvd.Relative.Answers.{relative-NeverFails}
use getresolvd.Hosts.{NameMap}
use getresolvd.Dnsconfig.{Config}
use getresolvd.Dns.{AddrPort}
use getresolvd.Dns.Lookup.{dns_lookup}
use getresolvd.System.{
  Env, explained, server_resolver, server_resolvers, balanced, retried, with_search, composed,
  system,
}
use getresolvd.System.FromServers.{asked_names}
use getresolvd.System.Outcomes.{Outcome, system-Outcome}

module _ {W : Type 0} (env : Env W) where
  -- The DNS resolver that `System` makes for a server.
  abbrev pub dns_of : Config → AddrPort → Resolver W
  dns_of conf a =
      dns_lookup env.names env.net env.dialer env.merge (server_resolver env conf a) env.swapped

  server_resolvers-Member :
      (conf : Config) (servers : List Text) (rs : List (Resolver W)) (server : Text) (a : AddrPort)
      → server_resolvers env conf servers ≡ ok rs
      → Member server servers
      → env.parse_addr_port server ≡ ok a
      → Member (dns_of conf a) rs
  unfolding server_resolvers
  server_resolvers-Member conf [] rs server a made m parsed = elim m [ ]
  server_resolvers-Member conf (s ∷ servers) rs server a made m parsed =
      let (b, rest, first) =
        >>=-eq-ok
          (explained (codes "failed to parse server address " ++ env.quote s)
            (env.parse_addr_port s))
          (λ b. server_resolvers env conf servers >>= λ rs. ok (dns_of conf b ∷ rs)) made in
      let (others, end, later) =
        >>=-eq-ok (server_resolvers env conf servers) (λ rs. ok (dns_of conf b ∷ rs)) rest in
      let same : dns_of conf b ∷ others ≡ rs = cc in
      subst (Member (dns_of conf a)) same (elim m [
        | inl here ↦
            let found : explained (codes "failed to parse server address " ++ env.quote s) (ok a)
                ≡ ok b =
              ap (λ t. explained (codes "failed to parse server address " ++ env.quote s) t)
                (sym parsed ∙ ap env.parse_addr_port here)
              ∙ first in
            let one : a ≡ b = cc in inl (ap (dns_of conf) one)
        | inr more ↦ inr (server_resolvers-Member conf servers others server a later more parsed)
      ])

  module _ (random : RandLawful env.rand) (failing : RetryFails env.retry_lib)
      (active : (w : W) → env.retry_lib.done w ≡ false) where
    retried-NeverFails :
        (conf : Config) (rs : List (Resolver W)) (r : Resolver W) (network name : Text)
        → Member r rs
        → NeverFails r network name
        → NeverFails (retried env conf rs) network name
    unfolding retried balanced
    retried-NeverFails conf rs r network name m n =
        retry-NeverFails env.retry_lib failing active (balanced env conf rs) _ network name
          (elim (Bool-cases conf.rotate) [
            | inl h ↦ rw h (round_robin-NeverFails env.rand random rs r network name m n)
            | inr h ↦ rw h (sequential-NeverFails rs r network name m n)
          ])

    with_search-NeverFails :
        (conf : Config) (search : List Text) (r : Resolver W) (network host name : Text)
        → Member name (asked_names env conf search host)
        → NeverFails r network name
        → NeverFails (with_search env conf search r) network host
    unfolding with_search
    with_search-NeverFails conf [] r network host name (inl e) n =
        subst (λ h. NeverFails r network h) e n
    with_search-NeverFails conf [] r network host name (inr m) n = elim m [ ]
    with_search-NeverFails conf (s ∷ search) r network host name m n =
        relative-NeverFails env.names r _ network host name m n

    composed-NeverFails :
        (conf : Config) (rs : List (Resolver W)) (m : NameMap) (network host : Text)
        → NeverFails (with_search env conf conf.search (retried env conf rs)) network host
        → NeverFails (composed env conf rs m) network host
    unfolding composed
    composed-NeverFails conf rs m network host n =
        sequential-NeverFails _ _ network host (inr (inr (inl refl))) n

    -- If the source of randomness does not fail, retry-go fails only after a failed call or with a
    -- context that is done, and the context is not done: for the resolver that `System` makes, if the
    -- DNS lookup at one of the configured servers never fails for one of the candidate names of a
    -- host, then no lookup of the host returns an error, whatever the literal resolver, the hosts,
    -- the other servers and the other names give.
    pub system-NeverFails :
        (read : Config × Option Error) (hosts_file : Option (Text × Result Scan))
        (system_file : Result Scan) (r : Resolver W) (conf : Config)
        → system env read hosts_file system_file ≡ ok r
        → read ≡ (conf, none)
        → (server : Text) (a : AddrPort) → Member server conf.servers
        → env.parse_addr_port server ≡ ok a
        → (network host name : Text) → Member name (asked_names env conf conf.search host)
        → NeverFails (dns_of conf a) network name
        → NeverFails r network host
    system-NeverFails read hosts_file system_file r conf made was_read server a at parsed network
          host name candidate n w w' e q =
        let sys =
          subst (Outcome env read hosts_file system_file) made
            (system-Outcome env read hosts_file system_file) in
        let same : sys.conf ≡ conf = cc (sym sys.was_read ∙ was_read) in
        let here = subst (λ (c : Config). Member server c.servers) (sym same) at in
        let works = subst (λ (c : Config). NeverFails (dns_of c a) network name) (sym same) n in
        let asked =
          subst (λ (c : Config). Member name (asked_names env c c.search host)) (sym same)
            candidate in
        composed-NeverFails sys.conf sys.rs sys.m network host
          (with_search-NeverFails sys.conf sys.conf.search (retried env sys.conf sys.rs) network
            host name asked
            (retried-NeverFails sys.conf sys.rs (dns_of sys.conf a) network name
              (server_resolvers-Member sys.conf sys.conf.servers sys.rs server a sys.servers_made
                here parsed)
              works))
          w w' e (ap (λ (t : Resolver W). t network host w) (sym sys.is_composed) ∙ q)
