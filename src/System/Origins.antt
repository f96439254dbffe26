-- ===== src/System/Origins.antt =====
-- Where the addresses of the system resolver come from.
use getresolvd.Base.{
  List, [], ◌∷◌, ◌++◌, ◌≡◌, ◌≢◌, refl, ap, subst, ◌∙◌, Option, none, some, Text, codes, Member, inl,
  inr, ◌⊎◌,
}
use getresolvd.Netip.{Addr}
use getresolvd.Errors.{Error, Result, ok, err, panic}
use getresolvd.Errors.Laws.{>>=-eq-ok}
use getresolvd.Deps.{Scan}
use getresolvd.Resolver.{or_else, join_result, Resolver, Gives}
use getresolvd.Sequential.{sequential, sequential_loop}
use getresolvd.Retry.Answers.{RetryReturns}
use getresolvd.Literal.{literal}
use getresolvd.Hosts.{NameMap, hosts, hosts_lookup}
use getresolvd.Dnsconfig.{Config}
use getresolvd.System.{
  Env, explained, server_resolvers, retried, with_search, composed, hosts_reader, dns_error_of,
  system,
}
use getresolvd.System.FromServers.{
  asked_names, FromServer, explained_ok, server_resolvers-IsServer, server_resolvers-nil,
  IsServer-FromServer, retried-OneGives, with_search-OneAnswers,
}

join_result-concat :
    (es : List Error) (x : Error) {addrs : List Addr} → join_result (es ++ x ∷ []) ≢ ok addrs
join_result-concat [] x e = cc
join_result-concat (y ∷ es) x e = cc

module _ {W : Type 0} (env : Env W) where
  -- Neither the literal resolver nor the hosts answer.
  pub record NotLocal (m : NameMap) (network host : Text) (w : W) : Type 0 where
    pub no_literal : Error
    pub no_host : Error
    pub after_literal : W
    pub after_hosts : W
    pub literal_fails :
        literal env.names env.parse_addr env.filter network host w ≡ (err no_literal, after_literal)
    pub hosts_fail :
        hosts_lookup env.names env.merge env.filter env.hosts_dialer m network host after_literal
        ≡ (err no_host, after_hosts)

  -- Where the addresses for a host come from.
  pub data Origin (conf : Config) (m : NameMap) (network host : Text) (w : W) (addrs : List Addr)
      : Type 0 where
    from_literal :
        (w' : W)
        → literal env.names env.parse_addr env.filter network host w ≡ (ok addrs, w')
        → Origin conf m network host w addrs
    from_hosts :
        (e : Error) (w' w'' : W)
        → literal env.names env.parse_addr env.filter network host w ≡ (err e, w')
        → hosts_lookup env.names env.merge env.filter env.hosts_dialer m network host w'
          ≡ (ok addrs, w'')
        → Origin conf m network host w addrs
    from_server :
        NotLocal m network host w
        → (name : Text) → Member name (asked_names env conf conf.search host)
        → FromServer env conf conf.servers network name addrs
        → Origin conf m network host w addrs
    from_nothing :
        NotLocal m network host w
        → addrs ≡ []
        → (conf.servers ≡ []) ⊎ (asked_names env conf conf.search host ≡ [])
        → Origin conf m network host w addrs

  module _ (returns : RetryReturns env.retry_lib) (conf : Config) (rs : List (Resolver W))
      (m : NameMap) (made : server_resolvers env conf conf.servers ≡ ok rs) (network host : Text)
      (w : W) (addrs : List Addr) where
    servers-Origin :
        NotLocal m network host w
        → Gives (with_search env conf conf.search (retried env conf rs)) network host addrs
        → Origin conf m network host w addrs
    servers-Origin others g =
        elim (with_search-OneAnswers env conf conf.search (retried env conf rs) network host addrs
          g) [
            | inr (none_asked, no_addr) ↦ from_nothing others no_addr (inr none_asked)
            | inl (name, at, h) ↦ elim (retried-OneGives env returns conf rs network name addrs h) [
              | inl (r, member, k) ↦ from_server others name at (
                  IsServer-FromServer env conf conf.servers r network name addrs
                    (server_resolvers-IsServer env conf conf.servers rs made r member) k)
              | inr (none_there, no_addr) ↦ from_nothing others no_addr (
                  inl (
                    server_resolvers-nil env conf conf.servers
                      (subst (λ l. server_resolvers env conf conf.servers ≡ ok l) none_there made)))
            ]
          ]

    abbrev the_literal : Resolver W
    the_literal = literal env.names env.parse_addr env.filter

    abbrev the_hosts : Resolver W
    the_hosts = hosts_lookup env.names env.merge env.filter env.hosts_dialer m

    abbrev the_servers : Resolver W
    the_servers = with_search env conf conf.search (retried env conf rs)

    after_hosts_fail :
        (es : List Error) (v w' : W)
        → NotLocal m network host w
        → sequential_loop (the_servers ∷ []) es network host v ≡ (ok addrs, w')
        → Origin conf m network host w addrs
    unfolding sequential_loop
    after_hosts_fail es v w' others e = answered (the_servers network host v) refl e
      where
        answered :
            (p : Result (List Addr) × W)
            → the_servers network host v ≡ p
            → or_else p (λ x v. sequential_loop [] (es ++ x ∷ []) network host v) ≡ (ok addrs, w')
            → Origin conf m network host w addrs
        answered (ok a, u) q f = servers-Origin others (v, w', q ∙ f)
        answered (err x, u) q f =
            absurd (join_result-concat es x (ap (λ (p : Result (List Addr) × W). p.0) f))
        answered (panic, u) q f = cc

    composed-Origin :
        (w' : W)
        → composed env conf rs m network host w ≡ (ok addrs, w')
        → Origin conf m network host w addrs
    unfolding composed sequential sequential_loop
    composed-Origin w' e = by_literal (the_literal network host w) refl e
      where
        by_hosts :
            (x : Error) (v : W)
            → the_literal network host w ≡ (err x, v)
            → (p : Result (List Addr) × W) → the_hosts network host v ≡ p
            → or_else p (λ y u. sequential_loop (the_servers ∷ []) (x ∷ y ∷ []) network host u)
              ≡ (ok addrs, w')
            → Origin conf m network host w addrs
        by_hosts x v l (ok a, u) q f = from_hosts x v w' l (q ∙ f)
        by_hosts x v l (err y, u) q f =
            after_hosts_fail (x ∷ y ∷ []) u w'
              (record {
                no_literal = x;
                no_host = y;
                after_literal = v;
                after_hosts = u;
                literal_fails = l;
                hosts_fail = q;
              })
              f
        by_hosts x v l (panic, u) q f = cc

        by_literal :
            (p : Result (List Addr) × W)
            → the_literal network host w ≡ p
            → or_else p
                (λ x v. sequential_loop (the_hosts ∷ the_servers ∷ []) (x ∷ []) network host v)
              ≡ (ok addrs, w')
            → Origin conf m network host w addrs
        by_literal (ok a, v) l f = from_literal w' (l ∙ f)
        by_literal (err x, v) l f = by_hosts x v l (the_hosts network host v) refl f
        by_literal (panic, v) l f = cc

  -- If retry-go gives only what a call gave: whatever resolver `System` makes, for the configuration
  -- and the hosts file that were read, the addresses for a host come from the literal resolver; or if
  -- that fails, from the hosts; or if they fail too, from the reply of one of the configured servers
  -- to one of the candidate names, as a DNS lookup that succeeds says; or there is no server or no
  -- candidate name, and no address.
  pub system-Origin :
      RetryReturns env.retry_lib
      → (read : Config × Option Error) (hosts_file : Option (Text × Result Scan))
        (system_file : Result Scan) (r : Resolver W)
      → system env read hosts_file system_file ≡ ok r
      → (network host : Text) (w w' : W) (addrs : List Addr) → r network host w ≡ (ok addrs, w')
      → (conf : Config) × (reader : Scan) × (m : NameMap) × (read ≡ (conf, none))
        × (hosts_reader env hosts_file system_file ≡ ok reader)
        × (hosts env.names env.to_addr env.resolve_ip_addr (some reader) ≡ ok m)
        × Origin conf m network host w addrs
  unfolding system
  system-Origin returns read hosts_file system_file r e network host w w' addrs f =
      let (conf, e1, was_read) = >>=-eq-ok (dns_error_of env read) _ e in
      let (rs, e2, made) = >>=-eq-ok (server_resolvers env conf conf.servers) _ e1 in
      let (reader, e3, opened) = >>=-eq-ok (hosts_reader env hosts_file system_file) _ e2 in
      let (m, e4, filled) =
        >>=-eq-ok
          (explained (codes "failed to create hosts file resolver")
            (hosts env.names env.to_addr env.resolve_ip_addr (some reader)))
          (λ m. ok (composed env conf rs m)) e3 in
      let same : composed env conf rs m ≡ r = cc in
      (
        conf,
        reader,
        m,
        read_ok read conf was_read,
        opened,
        explained_ok env _ _ m filled,
        composed-Origin returns conf rs m made network host w addrs w'
            (ap (λ (g : Resolver W). g network host w) same ∙ f),
      )
    where
      read_ok :
          (p : Config × Option Error) (conf : Config)
          → dns_error_of env p ≡ ok conf
          → p ≡ (conf, none)
      read_ok (c, none) conf q = unfold dns_error_of in let same : c ≡ conf = cc in rw same
      read_ok (c, some x) conf q = unfold dns_error_of in cc
