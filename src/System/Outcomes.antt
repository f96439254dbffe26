-- ===== src/System/Outcomes.antt =====
-- What `System` returns: a resolver, or the first error on the way to it.
use getresolvd.Base.{
  List, [], ◌∷◌, ◌++◌, ◌≡◌, refl, ap, Option, none, some, Text, codes, Member, inl, inr, All,
  length,
}
use getresolvd.Errors.{Error, wrapped, Result, ok, err, panic, ◌>>=◌}
use getresolvd.Deps.{Scan}
use getresolvd.Resolver.{Resolver}
use getresolvd.Hosts.{NameMap, hosts}
use getresolvd.Dnsconfig.{Config}
use getresolvd.Dns.{AddrPort}
use getresolvd.Dns.Lookup.{dns_lookup}
use getresolvd.System.{
  Env, explained, server_resolver, server_resolvers, composed, hosts_reader, dns_error_of, system,
}

module _ {W : Type 0} (env : Env W) where
  -- The text of a server is an address with a port.
  abbrev pub IsAddress : Text → Type 0
  IsAddress server = (a : AddrPort) × (env.parse_addr_port server ≡ ok a)

  -- The first server whose text is no address, and the error for it.
  pub record BadServer (servers : List Text) (e : Error) : Type 0 where
    pub server : Text
    pub before : List Text
    pub after : List Text
    pub cause : Error
    pub split : servers ≡ before ++ server ∷ after
    pub good_before : All IsAddress before
    pub fails : env.parse_addr_port server ≡ err cause
    pub explains : e ≡ wrapped (codes "failed to parse server address " ++ env.quote server) cause

  BadServer-later :
      (s : Text) (servers : List Text) (e : Error)
      → IsAddress s
      → BadServer servers e
      → BadServer (s ∷ servers) e
  BadServer-later s servers e good b = record {
    server = b.server;
    before = s ∷ b.before;
    after = b.after;
    cause = b.cause;
    split = ap (◌∷◌ s) b.split;
    good_before = (good, b.good_before);
    fails = b.fails;
    explains = b.explains;
  }

  -- A resolver for each server, or the error of the first one whose text is no address.
  abbrev pub ServersOutcome : List Text → Result (List (Resolver W)) → Type 0
  ServersOutcome servers (ok rs) = All IsAddress servers × (length rs ≡ length servers)
  ServersOutcome servers (err e) = BadServer servers e
  ServersOutcome servers panic =
      (server : Text) × Member server servers × (env.parse_addr_port server ≡ panic)

  ServersOutcome-cons :
      (s : Text) (servers : List Text) (p : Result AddrPort) (q : Result (List (Resolver W)))
      (resolver : AddrPort → Resolver W)
      → env.parse_addr_port s ≡ p
      → ServersOutcome servers q
      → ServersOutcome (s ∷ servers) (
          explained (codes "failed to parse server address " ++ env.quote s) p >>= λ a.
          q >>= λ rs. ok (resolver a ∷ rs))
  ServersOutcome-cons s servers (ok a) (ok rs) resolver e h = (((a, e), h.0), rw h.1 refl)
  ServersOutcome-cons s servers (ok a) (err x) resolver e h = BadServer-later s servers x (a, e) h
  ServersOutcome-cons s servers (ok a) panic resolver e (server, at, f) = (server, inr at, f)
  ServersOutcome-cons s servers (err x) q resolver e h = record {
    server = s;
    before = [];
    after = servers;
    cause = x;
    split = refl;
    good_before = tt;
    fails = e;
    explains = refl;
  }
  ServersOutcome-cons s servers panic q resolver e h = (s, inl refl, e)

  servers-Outcome :
      (conf : Config) (servers : List Text)
      → ServersOutcome servers (server_resolvers env conf servers)
  unfolding server_resolvers
  servers-Outcome conf [] = (tt, refl)
  servers-Outcome conf (s ∷ servers) =
      ServersOutcome-cons s servers (env.parse_addr_port s) (server_resolvers env conf servers)
        (λ a.
          dns_lookup env.names env.net env.dialer env.merge (server_resolver env conf a)
            env.swapped)
        refl (servers-Outcome conf servers)

  module _ (read : Config × Option Error) (hosts_file : Option (Text × Result Scan))
      (system_file : Result Scan) where
    -- The hosts that a file gives.
    abbrev pub hosts_of : Scan → Result NameMap
    hosts_of reader = hosts env.names env.to_addr env.resolve_ip_addr (some reader)

    -- The configuration is read, and it is the one of `composed` with a resolver for each server and
    -- with the hosts of the file.
    pub record Made (r : Resolver W) : Type 0 where
      pub conf : Config
      pub rs : List (Resolver W)
      pub reader : Scan
      pub m : NameMap
      pub was_read : read ≡ (conf, none)
      pub servers_good : All IsAddress conf.servers
      pub servers_made : server_resolvers env conf conf.servers ≡ ok rs
      pub one_each : length rs ≡ length conf.servers
      pub file_opened : hosts_reader env hosts_file system_file ≡ ok reader
      pub hosts_made : hosts_of reader ≡ ok m
      pub is_composed : r ≡ composed env conf rs m

    -- The step that fails, all steps before it having succeeded.
    pub data Fails (e : Error) : Type 0 where
      unread :
          (conf : Config) (cause : Error)
          → read ≡ (conf, some cause)
          → e ≡ wrapped (codes "failed to read system DNS configuration") cause
          → Fails e
      bad_server : (conf : Config) → read ≡ (conf, none) → BadServer conf.servers e → Fails e
      no_hosts_file :
          (conf : Config)
          → read ≡ (conf, none)
          → All IsAddress conf.servers
          → hosts_reader env hosts_file system_file ≡ err e
          → Fails e
      bad_hosts_file :
          (conf : Config) (reader : Scan) (cause : Error)
          → read ≡ (conf, none)
          → All IsAddress conf.servers
          → hosts_reader env hosts_file system_file ≡ ok reader
          → hosts_of reader ≡ err cause
          → e ≡ wrapped (codes "failed to create hosts file resolver") cause
          → Fails e

    -- What panics.
    pub data Panics : Type 0 where
      in_server :
          (conf : Config) (server : Text)
          → read ≡ (conf, none)
          → Member server conf.servers
          → env.parse_addr_port server ≡ panic
          → Panics
      in_open : hosts_reader env hosts_file system_file ≡ panic → Panics
      in_hosts : (reader : Scan) → hosts_of reader ≡ panic → Panics

    abbrev pub Outcome : Result (Resolver W) → Type 0
    Outcome (ok r) = Made r
    Outcome (err e) = Fails e
    Outcome panic = Panics

    module _ (conf : Config) (was_read : read ≡ (conf, none)) where
      hosts-Outcome :
          (rs : List (Resolver W)) (reader : Scan)
          → server_resolvers env conf conf.servers ≡ ok rs
          → All IsAddress conf.servers × (length rs ≡ length conf.servers)
          → hosts_reader env hosts_file system_file ≡ ok reader
          → (p : Result NameMap) → hosts_of reader ≡ p
          → Outcome (
              explained (codes "failed to create hosts file resolver") p >>= λ m.
              ok (composed env conf rs m))
      hosts-Outcome rs reader made good opened (ok m) e = record {
        conf = conf;
        rs = rs;
        reader = reader;
        m = m;
        was_read = was_read;
        servers_good = good.0;
        servers_made = made;
        one_each = good.1;
        file_opened = opened;
        hosts_made = e;
        is_composed = refl;
      }
      hosts-Outcome rs reader made good opened (err x) e =
          bad_hosts_file conf reader x was_read good.0 opened e refl
      hosts-Outcome rs reader made good opened panic e = in_hosts reader e

      file-Outcome :
          (rs : List (Resolver W))
          → server_resolvers env conf conf.servers ≡ ok rs
          → All IsAddress conf.servers × (length rs ≡ length conf.servers)
          → (p : Result Scan) → hosts_reader env hosts_file system_file ≡ p
          → Outcome (
              p >>= λ reader.
              explained (codes "failed to create hosts file resolver") (hosts_of reader) >>= λ m.
              ok (composed env conf rs m))
      file-Outcome rs made good (ok reader) e =
          hosts-Outcome rs reader made good e (hosts_of reader) refl
      file-Outcome rs made good (err x) e = no_hosts_file conf was_read good.0 e
      file-Outcome rs made good panic e = in_open e

      made-Outcome :
          (p : Result (List (Resolver W)))
          → server_resolvers env conf conf.servers ≡ p
          → ServersOutcome conf.servers p
          → Outcome (
              p >>= λ rs. hosts_reader env hosts_file system_file >>= λ reader.
              explained (codes "failed to create hosts file resolver") (hosts_of reader) >>= λ m.
              ok (composed env conf rs m))
      made-Outcome (ok rs) e h = file-Outcome rs e h (hosts_reader env hosts_file system_file) refl
      made-Outcome (err x) e h = bad_server conf was_read h
      made-Outcome panic e (server, at, f) = in_server conf server was_read at f

    read-Outcome :
        (p : Config × Option Error) → read ≡ p → Outcome (system env p hosts_file system_file)
    unfolding system dns_error_of
    read-Outcome (conf, some x) e = unread conf x e refl
    read-Outcome (conf, none) e =
        made-Outcome conf e (server_resolvers env conf conf.servers) refl
          (servers-Outcome conf conf.servers)

    -- `System` succeeds only if the configuration can be read, every server is an address with a
    -- port, and the hosts file can be opened and parsed; then it makes `composed`, with one resolver
    -- for each server. It fails with the explained error of the first of these steps that fails, for
    -- the servers that of the first one that is no address. It panics only if a call of them does.
    pub system-Outcome : Outcome (system env read hosts_file system_file)
    system-Outcome = read-Outcome read refl
