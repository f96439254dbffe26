-- ===== src/System/Laws.antt =====
-- The system resolver: literals are answered first, and the servers are asked once.
use getresolvd.Base.{
  false, List, ◌≡◌, sym, subst, codes, ◌∙◌, Option, some, Text, inl, inr, Bool-cases,
}
use getresolvd.Netip.{Addr}
use getresolvd.Errors.{Error, Result, ok, err}
use getresolvd.Errors.Laws.{IfOk, IfOk->>=}
use getresolvd.Deps.{Scan}
use getresolvd.Resolver.{Resolver}
use getresolvd.Sequential.{sequential, sequential_loop}
use getresolvd.Literal.{literal}
use getresolvd.Retry.{RetryLawful}
use getresolvd.Retry.Laws.{NeverTemporary, sequential-NeverTemporary, retry_once}
use getresolvd.RoundRobin.{round_robin}
use getresolvd.RoundRobin.Laws.{round_robin-sequential}
use getresolvd.Shuffle.{RandLawful}
use getresolvd.Dnsconfig.{Config}
use getresolvd.System.{
  Env, balanced, retried, composed, system, server_resolvers, dns_error_of, hosts_reader, explained,
}
use getresolvd.Hosts.{NameMap, hosts, hosts_lookup}

module _ {W : Type 0} (env : Env W) where
  round_robin-NeverTemporary :
      RandLawful env.rand → (rs : List (Resolver W)) → NeverTemporary (round_robin env.rand rs)
  round_robin-NeverTemporary lawful rs network host w w' x e =
      let (order, v, _, same) = round_robin-sequential env.rand lawful rs network host w in
      sequential-NeverTemporary order network host v w' x (sym same ∙ e)

  -- If retry-go does what it documents and the source of randomness does not fail: around the
  -- servers, in order or rotated, the configured attempts have no effect: while the
  -- context is not done, the servers are asked once, however temporary their errors are.
  pub retried_once :
      RandLawful env.rand
      → RetryLawful env.retry_lib
      → (conf : Config) (rs : List (Resolver W)) (network host : Text) (w : W)
      → env.retry_lib.done w ≡ false
      → retried env conf rs network host w ≡ balanced env conf rs network host w
  unfolding retried
  retried_once random lawful conf rs network host w d =
      retry_once env.retry_lib lawful (balanced env conf rs) never _ network host w d
    where
      never : NeverTemporary (balanced env conf rs)
      never = elim (Bool-cases conf.rotate) [
        | inl h ↦ rw (h, balanced) (round_robin-NeverTemporary random rs)
        | inr h ↦ rw (h, balanced) (sequential-NeverTemporary rs)
      ]

  -- The resolver gives the literal resolver's answers.
  abbrev AnswersLiterals : Resolver W → Type 0
  AnswersLiterals r =
      (network host : Text) (w w' : W) (addrs : List Addr)
      → literal env.names env.parse_addr env.filter network host w ≡ (ok addrs, w')
      → r network host w ≡ (ok addrs, w')

  composed-AnswersLiterals :
      (conf : Config) (rs : List (Resolver W)) (m : NameMap)
      → AnswersLiterals (composed env conf rs m)
  unfolding composed sequential
  composed-AnswersLiterals conf rs m network host w w' addrs found = rw (found, sequential_loop)

  system-AnswersLiterals :
      (read : Config × Option Error) (hosts_file : Option (Text × Result Scan))
      (system_file : Result Scan)
      → IfOk AnswersLiterals (system env read hosts_file system_file)
  unfolding system
  system-AnswersLiterals read hosts_file system_file =
      IfOk->>= AnswersLiterals (dns_error_of env read) _ λ conf.
        IfOk->>= AnswersLiterals (server_resolvers env conf conf.servers) _ λ rs.
          IfOk->>= AnswersLiterals (hosts_reader env hosts_file system_file) _ λ reader.
            IfOk->>= AnswersLiterals
              (explained (codes "failed to create hosts file resolver")
                (hosts env.names env.to_addr env.resolve_ip_addr (some reader)))
              _ λ m. composed-AnswersLiterals conf rs m

  -- Whatever the configuration and the hosts file, an address that the literal resolver answers is
  -- the answer of the system resolver, and nothing else is asked.
  pub system-literal :
      (read : Config × Option Error) (hosts_file : Option (Text × Result Scan))
      (system_file : Result Scan) (r : Resolver W)
      → system env read hosts_file system_file ≡ ok r
      → (network host : Text) (w w' : W) (addrs : List Addr)
      → literal env.names env.parse_addr env.filter network host w ≡ (ok addrs, w')
      → r network host w ≡ (ok addrs, w')
  system-literal read hosts_file system_file r e =
      subst (IfOk AnswersLiterals) e (system-AnswersLiterals read hosts_file system_file)

  -- The resolver gives the answers of these hosts for names that are no literals.
  abbrev AnswersHosts : NameMap → Resolver W → Type 0
  AnswersHosts m r =
      (network host : Text) (w w' w'' : W) (e : Error) (addrs : List Addr)
      → literal env.names env.parse_addr env.filter network host w ≡ (err e, w')
      → hosts_lookup env.names env.merge env.filter env.hosts_dialer m network host w'
        ≡ (ok addrs, w'')
      → r network host w ≡ (ok addrs, w'')

  composed-AnswersHosts :
      (conf : Config) (rs : List (Resolver W)) (m : NameMap)
      → AnswersHosts m (composed env conf rs m)
  unfolding composed sequential
  composed-AnswersHosts conf rs m network host w w' w'' e addrs not_literal found =
      rw (not_literal, sequential_loop, found)

  -- Whatever the configuration: a name that is no literal and that the hosts file answers gets that
  -- answer from the system resolver, and no server is asked.
  pub system-hosts :
      (read : Config × Option Error) (hosts_file : Option (Text × Result Scan))
      (system_file : Result Scan) (r : Resolver W) (reader : Scan) (m : NameMap)
      → system env read hosts_file system_file ≡ ok r
      → hosts_reader env hosts_file system_file ≡ ok reader
      → hosts env.names env.to_addr env.resolve_ip_addr (some reader) ≡ ok m
      → (network host : Text) (w w' w'' : W) (e : Error) (addrs : List Addr)
      → literal env.names env.parse_addr env.filter network host w ≡ (err e, w')
      → hosts_lookup env.names env.merge env.filter env.hosts_dialer m network host w'
        ≡ (ok addrs, w'')
      → r network host w ≡ (ok addrs, w'')
  unfolding system
  system-hosts read hosts_file system_file r reader m made opened filled =
      subst (IfOk (AnswersHosts m)) made answers
    where
      answers : IfOk (AnswersHosts m) (system env read hosts_file system_file)
      answers = IfOk->>= (AnswersHosts m) (dns_error_of env read) _ λ conf.
          IfOk->>= (AnswersHosts m) (server_resolvers env conf conf.servers) _
            λ rs. rw (opened, filled) (composed-AnswersHosts conf rs m)
