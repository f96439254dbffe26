-- ===== src/System/Written.antt =====
-- The system resolver of a written resolv.conf and a written hosts file.
use mathlib.Core.List.Perm
use mathlib.Core.Logic.{∥∥₁_map}
use getresolvd.Base.{
  Option, Bool-cases, inl, inr, subst, keep, Member, Perm, All-members, Member-All, Perm-Member_in,
  text_eq, ℕ, List, [], ◌∷◌, ◌≡◌, refl, ap, ◌∙◌, none, some, Text, codes, All, map, true,
  text_eq_refl,
}
use getresolvd.Netip.{Addr}
use getresolvd.Errors.{Error, Result, ok, err}
use getresolvd.Deps.{
  Scan, is_network, net_ip4, IsOfNetwork, is_clearly_of, FilterLawful, FilterComplete,
}
use getresolvd.Resolver.{Resolver}
use getresolvd.Literal.{literal}
use getresolvd.Hostsfile.RoundTrip.{Line}
use getresolvd.Hosts.Found.{Lists, hosts_lookup_found}
use getresolvd.Hosts.{lookup, NameMap, hosts, hosts_lookup}
use getresolvd.Hosts.Contents.{entry}
use getresolvd.Hosts.Written.{file_of, HasAddr, given, hosts_lookup-line_text}
use getresolvd.Dnsconfig.{Config, default_ns}
use getresolvd.Dnsconfig.Unix.{or_default, opened, read}
use getresolvd.Dnsconfig.Unix.Settings.{Settings, lines_of}
use getresolvd.Dnsconfig.Unix.RoundTrip.{IsServer, config_of, read-lines_of}
use getresolvd.System.{Env, server_resolvers, composed, hosts_reader, dns_error_of, system}
use getresolvd.System.Laws.{system-hosts}
use getresolvd.System.Outcomes.{IsAddress}

module _ {W : Type 0} (env : Env W) where
  server_resolvers_total :
      (conf : Config) (servers : List Text)
      → All (IsAddress env) servers
      → (rs : List (Resolver W)) × (server_resolvers env conf servers ≡ ok rs)
  unfolding server_resolvers
  server_resolvers_total conf [] h = ([], refl)
  server_resolvers_total conf (s ∷ servers) h =
      let (rs, later) = server_resolvers_total conf servers h.1 in rw (h.0.1, later) (_, refl)

  -- The answer of a resolver from these addresses: what the filter leaves of them, in order for ip4
  -- and rearranged otherwise.
  pub record Answers (r : Resolver W) (network host : Text) (w : W) (held : List Addr)
      : Type 0 where
    pub addrs : List Addr
    pub after : W
    pub answer : r network host w ≡ (ok addrs, after)
    pub lists :
        Lists env.names env.merge env.filter env.hosts_dialer network
          (env.filter held network)
          addrs

  -- Each address is one of those held and of the network, and each that is held and clearly of the
  -- network is there.
  pub record Complete (network : Text) (held addrs : List Addr) : Type 0 where
    pub only : All (λ a. ∥ IsOfNetwork network a × Member a held ∥₁) addrs
    pub whole : All (λ a. ∥ Member a addrs ∥₁) (keep (is_clearly_of network) held)

  entry-Answers :
      (held : List Addr) (a : Addr) (more : List Addr) (network host : Text) (w : W)
      → held ≡ a ∷ more
      → is_network network ≡ true
      → Answers
          (hosts_lookup env.names env.merge env.filter env.hosts_dialer
            (entry env.names env.to_addr (env.names.fqdn host) held))
          network
          host
          w
          held
  unfolding lookup
  entry-Answers held a more network host w some_held supported =
      let k = env.names.fqdn host in
      let m = entry env.names env.to_addr k held in
      let out = hosts_lookup env.names env.merge env.filter env.hosts_dialer m network host w in
      let (addrs, found, lists) =
        hosts_lookup_found env.names env.merge env.filter env.hosts_dialer m network host w held
          (rw some_held (rw (text_eq_refl k) refl)) supported in
      record { addrs = addrs; after = out.1; answer = ap (λ p. (p, out.1)) found; lists = lists }

  Lists-Perm :
      (network : Text) (kept addrs : List Addr)
      → Lists env.names env.merge env.filter env.hosts_dialer network kept addrs
      → Perm addrs kept
  Lists-Perm network kept addrs l = elim (Bool-cases (text_eq network net_ip4)) [
    | inl h ↦ subst (λ ys. Perm addrs ys) (rw h at l) (Perm.refl addrs)
    | inr h ↦ rw h at l
  ]

  Lists-Complete :
      FilterLawful env.filter
      → FilterComplete env.filter
      → (network : Text) → is_network network ≡ true
      → (held addrs : List Addr)
      → Lists env.names env.merge env.filter env.hosts_dialer network
          (env.filter held network)
          addrs
      → Complete network held addrs
  Lists-Complete lawful complete network supported held addrs l =
      let kept = env.filter held network in
      let p = Lists-Perm network kept addrs l in
      record {
        only = All-members _ addrs (λ a m. ∥∥₁_map (Perm-Member_in a p m) (λ k. (
          Member-All (IsOfNetwork network) a kept (lawful.of_network held network) k,
          lawful.keeps held network a k,
        )));
        whole = All-members _ (keep (is_clearly_of network) held) (λ a m.
            Perm-Member_in a (Perm.symm p) (
              Member-All (λ a. Member a kept) a (keep (is_clearly_of network) held)
                (complete held network supported) m));
      }

module _ {W : Type 0} (env : Env W) (join_host_port : Text → Text → Text) where
  -- What `net.JoinHostPort` and `netip.ParseAddrPort` document: the text of an address with a port is
  -- parsed; and the default servers are such texts.
  pub record PortsLawful : Type 0 where
    pub joined :
        (v : Text) (a : Addr)
        → env.parse_addr v ≡ some a
        → IsAddress env (join_host_port v (codes "53"))
    pub defaults : All (IsAddress env) default_ns

  joined-All :
      PortsLawful
      → (vs : List Text) → All (IsServer env.names env.parse_addr join_host_port) vs
      → All (IsAddress env) (map (λ v. join_host_port v (codes "53")) vs)
  joined-All lawful [] h = tt
  joined-All lawful (v ∷ vs) h =
      let (word, a, parsed) = h.0 in (lawful.joined v a parsed, joined-All lawful vs h.1)

  or_default-All :
      (xs ys : List Text)
      → All (IsAddress env) xs
      → All (IsAddress env) ys
      → All (IsAddress env) (or_default env.names env.parse_addr join_host_port xs ys)
  or_default-All [] ys h k = k
  or_default-All (x ∷ xs) ys h k = h

  config_of-IsAddress :
      PortsLawful
      → (hostname : Option Text) (time : ℕ) (s : Settings)
      → getresolvd.Dnsconfig.Unix.RoundTrip.IsPrintable env.names env.parse_addr join_host_port s
      → All
          (IsAddress env)
          (config_of env.names env.parse_addr join_host_port hostname time s).servers
  unfolding config_of
  config_of-IsAddress lawful hostname time s h =
      or_default-All (map (λ v. join_host_port v (codes "53")) s.servers) default_ns
        (joined-All lawful s.servers h.servers_All) lawful.defaults

  -- If the filter keeps nothing but addresses of the network and drops only those of the other family,
  -- and the texts of servers are parsed: for a resolv.conf written from settings and a hosts file
  -- written from lines, as their round trips ask for, `System` makes a resolver. For a supported
  -- network and a host that is no literal and to which the lines give an address, that resolver
  -- succeeds with what the filter leaves of the addresses that the lines give it, in order for ip4
  -- and rearranged otherwise: each is given by the lines and of the network, and each that the lines
  -- give and that is clearly of the network is there.
  pub system-lines_of :
      PortsLawful
      → FilterLawful env.filter
      → FilterComplete env.filter
      → (hostname : Option Text) (time : ℕ) (s : Settings)
      → getresolvd.Dnsconfig.Unix.RoundTrip.IsPrintable env.names env.parse_addr join_host_port s
      → (ls : List Line)
      → All (getresolvd.Hostsfile.RoundTrip.IsPrintable env.names env.resolve_ip_addr) ls
      → All (HasAddr env.names env.resolve_ip_addr env.to_addr) ls
      → (path : Text) (system_file : Result Scan) (network host : Text) (w w' : W) (e : Error)
        (a : Addr) (more : List Addr)
      → is_network network ≡ true
      → literal env.names env.parse_addr env.filter network host w ≡ (err e, w')
      → given env.names env.resolve_ip_addr env.to_addr (env.names.fqdn host) ls ≡ a ∷ more
      → (r : Resolver W) × (system env
            (read env.names env.parse_addr join_host_port hostname
              (opened time (record { lines = lines_of s; failure = none })))
            (some (path, ok (file_of ls)))
            system_file
          ≡ ok r)
        × (out : Answers env r network host w (a ∷ more)) × Complete env network
            (a ∷ more)
            out.addrs
  unfolding hosts_reader
  system-lines_of lawful filters complete hostname time s printable ls lines has path system_file
        network host w w' e a more supported not_literal held =
      let conf = config_of env.names env.parse_addr join_host_port hostname time s in
      let (rs, made) =
        server_resolvers_total env conf conf.servers
          (config_of-IsAddress lawful hostname time s printable) in
      let (m, filled, same) =
        hosts_lookup-line_text env.names env.resolve_ip_addr env.to_addr env.merge env.filter
          env.hosts_dialer ls lines has network host w' in
      let start =
        ap (λ c. system env c (some (path, ok (file_of ls))) system_file)
          (read-lines_of env.names env.parse_addr join_host_port hostname time s printable)
        ∙ system_made conf rs m (file_of ls) made filled in
      let found = rw held at (entry-Answers env _ a more network host w' held supported) in
      (
        composed env conf rs m,
        start,
        record {
          addrs = found.addrs;
          after = found.after;
          answer =
              system-hosts env _ _ _ _ (file_of ls) m start refl filled network host w w'
                found.after e found.addrs not_literal (rw held at same ∙ found.answer);
          lists = found.lists;
        },
        Lists-Complete env filters complete network supported (a ∷ more) found.addrs found.lists,
      )
    where
      system_made :
          (conf : Config) (rs : List (Resolver W)) (m : NameMap) (f : Scan)
          → server_resolvers env conf conf.servers ≡ ok rs
          → hosts env.names env.to_addr env.resolve_ip_addr (some f) ≡ ok m
          → system env (conf, none) (some (path, ok f)) system_file ≡ ok (composed env conf rs m)
      system_made conf rs m f made filled = unfold system dns_error_of in rw (made, filled) refl
