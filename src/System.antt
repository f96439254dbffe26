-- ===== src/System.antt =====
-- system.go: the resolver that the system's DNS configuration asks for.
pub mod Laws
pub mod FromServers
pub mod Origins
pub mod Outcomes
pub mod Written
pub mod Working
use getresolvd.Base.{
  ℕ, ◌<◌, Bool, true, false, List, [], ◌∷◌, ◌++◌, Option, none, some, Text, codes, if◌then◌else◌,
  map, ℤ, pos, ltb_ℤ, not,
}
use getresolvd.Netip.{Addr}
use getresolvd.AddrSelect.Sort.{Dialer}
use getresolvd.Errors.{Error, plain, wrapped, Result, ok, err, panic, ◌>>=◌, Merge}
use getresolvd.Deps.{DnsNames, ParseAddr, Filter, Scan}
use getresolvd.Resolver.{Resolver}
use getresolvd.Sequential.{sequential}
use getresolvd.Shuffle.{Rand}
use getresolvd.RoundRobin.{round_robin}
use getresolvd.Retry.{RetryLib, retry, retry_attempts}
use getresolvd.Relative.{relative, relative_conf}
use getresolvd.Literal.{literal}
use getresolvd.Hostsfile.{IpAddr}
use getresolvd.Hosts.{NameMap, hosts, hosts_lookup}
use getresolvd.Dnsconfig.{Config}
use getresolvd.Dns.{AddrPort, DnsResolver, dns, dns_transport_udp, dns_transport_tcp}
use getresolvd.Dns.Query.{Network}
use getresolvd.Dns.Lookup.{dns_lookup}

-- Everything outside this repository that the system resolver uses. `swapped` is the order in which
-- the queries of a group end, `dialer` sorts with the dialer of the configuration, `hosts_dialer` with
-- the zero `net.Dialer`, which `Hosts` takes by default, and `quote` is the verb `%q` of package fmt.
pub record Env (W : Type 0) : Type 0 where
  pub names : DnsNames
  pub parse_addr : ParseAddr
  pub filter : Filter
  pub merge : Merge
  pub dialer : Dialer W
  pub hosts_dialer : Dialer W
  pub net : Network W
  pub rand : Rand W
  pub retry_lib : RetryLib W
  pub swapped : Bool
  pub to_addr : IpAddr → Result Addr
  pub resolve_ip_addr : Text → Result IpAddr
  pub quote : Text → Text
  pub parse_addr_port : Text → Result AddrPort

-- `%w` in the message of an error.
abbrev pub explained {ℓ} : {A : Type ℓ} → Text → Result A → Result A
explained message (ok a) = ok a
explained message (err e) = err (wrapped message e)
explained message panic = panic

module _ {W : Type 0} (env : Env W) where
  -- The configuration of one server.
  unfoldable pub server_resolver : Config → AddrPort → DnsResolver
  server_resolver conf server = dns (record {
    server = server;
    transport = some (if conf.use_tcp then dns_transport_tcp else dns_transport_udp);
    timeout = if ltb_ℤ (pos 0) conf.timeout then some conf.timeout else none;
    single_request = some conf.single_request;
  })

  -- The loop over the servers.
  unfoldable pub server_resolvers : Config → List Text → Result (List (Resolver W))
  unfolding server_resolver
  server_resolvers conf [] = ok []
  server_resolvers conf (server ∷ servers) =
      explained (codes "failed to parse server address " ++ env.quote server)
        (env.parse_addr_port server)
      >>= λ addr_port. server_resolvers conf servers >>= λ rs. ok (
          dns_lookup env.names env.net env.dialer env.merge (server_resolver conf addr_port)
            env.swapped
          ∷ rs)

  -- `if systemDNSConf.Rotate`.
  unfoldable pub balanced : Config → List (Resolver W) → Resolver W
  balanced conf rs = if conf.rotate then round_robin env.rand rs else sequential rs

  -- `Attempts`, if it is positive.
  unfoldable pub attempts_of : Config → Option ℤ
  attempts_of conf = if ltb_ℤ (pos 0) conf.attempts then some conf.attempts else none

  -- `Retry(resolver, …)`.
  unfoldable pub retried : Config → List (Resolver W) → Resolver W
  unfolding balanced attempts_of
  retried conf rs = retry env.retry_lib (balanced conf rs) (retry_attempts (attempts_of conf))

  -- `if len(systemDNSConf.Search) > 0`.
  pub with_search : Config → List Text → Resolver W → Resolver W
  with_search conf [] r = r
  with_search conf (s ∷ search) r =
      relative env.names r
        (relative_conf (s ∷ search) (if ltb_ℤ conf.n_dots (pos 0) then none else some conf.n_dots))

  -- The hosts file: the one at the path that the configuration names (`some`), or the system's.
  unfoldable pub hosts_reader : Option (Text × Result Scan) → Result Scan → Result Scan
  hosts_reader (some (path, file)) system_file =
      explained (codes "failed to open hosts file " ++ env.quote path) file
  hosts_reader none system_file =
      explained (codes "failed to create hosts file resolver")
        (explained (codes "failed to open hosts file") system_file)

  unfoldable pub dns_error_of : Config × Option Error → Result Config
  dns_error_of (conf, none) = ok conf
  dns_error_of (conf, some e) = err (wrapped (codes "failed to read system DNS configuration") e)

  -- The result of `System`: literals, then the hosts file, then the servers.
  unfoldable pub composed : Config → List (Resolver W) → NameMap → Resolver W
  unfolding with_search
  composed conf rs m = sequential (
      literal env.names env.parse_addr env.filter
      ∷ hosts_lookup env.names env.merge env.filter env.hosts_dialer m
      ∷ with_search conf conf.search (retried conf rs)
      ∷ [])

  -- `System`, for what `dnsconfig.Read` returned and the opened hosts files.
  unfoldable pub system :
      Config × Option Error → Option (Text × Result Scan) → Result Scan → Result (Resolver W)
  unfolding dns_error_of server_resolvers hosts_reader
  system read hosts_file system_file = dns_error_of read >>= λ conf.
      server_resolvers conf conf.servers >>= λ rs. hosts_reader hosts_file system_file >>= λ reader.
      explained (codes "failed to create hosts file resolver")
        (hosts env.names env.to_addr env.resolve_ip_addr (some reader))
      >>= λ m. ok (composed conf rs m)
