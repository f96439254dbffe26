-- ===== src/Hosts.antt =====
-- hosts.go: names from a hosts file, and names added while the program runs. The lock makes each
-- operation one step on the map.
pub mod Names
pub mod Contents
pub mod Found
pub mod Runs
pub mod Written
pub mod Laws
use getresolvd.Base.{
  Bool, true, false, not, ◌&&◌, List, [], ◌∷◌, ◌++◌, Option, none, some, Text, text_eq,
  if◌then◌else◌, length, ltb,
}
use getresolvd.Netip.{Addr}
use getresolvd.AddrSelect.Sort.{Dialer, sort_by_rfc6724}
use getresolvd.Errors.{
  Error, wrapped, Result, ok, err, panic, ◌>>=◌, Merge, extend_dns_error, empty_dns_error,
  err_no_such_host, err_unsupported_network,
}
use getresolvd.Base.{codes}
use getresolvd.Deps.{DnsNames, Filter, Scan, is_network, net_ip4}
use getresolvd.Hostsfile.{IpAddr, Record, decode}
use getresolvd.Resolver.{Resolver}

-- `map[string][]netip.Addr`.
abbrev pub NameMap : Type 0
NameMap = List (Text × List Addr)

unfoldable pub lookup : Text → NameMap → Option (List Addr)
lookup k [] = none
lookup k ((j, v) ∷ m) = let rest = lookup k m in if text_eq j k then some v else rest

unfoldable pub insert : Text → List Addr → NameMap → NameMap
insert k v [] = (k, v) ∷ []
insert k v ((j, u) ∷ m) =
    let rest = insert k v m in if text_eq j k then (j, v) ∷ m else (j, u) ∷ rest

unfoldable pub erase : Text → NameMap → NameMap
erase k [] = []
erase k ((j, u) ∷ m) = let rest = erase k m in if text_eq j k then rest else (j, u) ∷ rest

-- The value of a key that may be missing: Go's nil slice.
abbrev pub or_nil : Option (List Addr) → List Addr
or_nil none = []
or_nil (some addrs) = addrs

pub explain_parse : Result (List Record) → Result (List Record)
explain_parse (err e) = err (wrapped (codes "failed to parse hosts file") e)
explain_parse (ok records) = ok records
explain_parse panic = panic

explain_address : Result Addr → Result Addr
explain_address (err e) = err (wrapped (codes "failed to parse IP address") e)
explain_address (ok addr) = ok addr
explain_address panic = panic

module _ (names : DnsNames) where
  -- `netip.ParseAddr(record.IpAddress.String())`.
  module _ (to_addr : IpAddr → Result Addr) where
    -- The inner loop of `Hosts`, over the names of a record.
    add_names : IpAddr → List Text → NameMap → Result NameMap
    add_names ip [] m = ok m
    add_names ip (name ∷ rest) m = explain_address (to_addr ip) >>= λ addr.
        add_names ip rest
          (insert (names.fqdn name) (or_nil (lookup (names.fqdn name) m) ++ addr ∷ []) m)

    -- The outer loop, over the records.
    add_records : List Record → NameMap → Result NameMap
    add_records [] m = ok m
    add_records (r ∷ records) m =
        add_names r.ip_address r.hostnames m >>= λ m'. add_records records m'

    -- `Hosts`: what follows the choice of a reader. `none` is a set `NoHostsFile`.
    unfoldable pub hosts : (Text → Result IpAddr) → Option Scan → Result NameMap
    unfolding explain_parse explain_address add_records add_names insert lookup
    hosts resolve_ip_addr none = ok []
    hosts resolve_ip_addr (some reader) =
        explain_parse (decode names resolve_ip_addr reader) >>= λ records. add_records records []

  -- `AddHost`.
  unfoldable pub add_host : Text → List Addr → NameMap → NameMap
  unfolding insert
  add_host host addrs m = insert (names.fqdn host) addrs m

  -- `RemoveHost`.
  unfoldable pub remove_host : Text → NameMap → NameMap
  unfolding erase
  remove_host host m = erase (names.fqdn host) m

  module _ (merge : Merge) (filter : Filter) {W : Type 0} (dialer : Dialer W) where
    sorted : Option (List Addr) × W → Result (List Addr) × W
    sorted (some addrs, w) = (ok addrs, w)
    sorted (none, w) = (panic, w)

    -- What follows the test of the network.
    found_lookup : Text → List Addr → W → Result (List Addr) × W
    found_lookup network addrs w =
        if not (text_eq network net_ip4) && ltb 0 (length addrs)
        then sorted (sort_by_rfc6724 dialer addrs w)
        else (ok addrs, w)

    -- What follows the access to the map.
    pub map_lookup : Option (List Addr) → Resolver W
    map_lookup none network host w = (
      extend_dns_error merge (record empty_dns_error { name = host })
          (record empty_dns_error { err = err_no_such_host; is_not_found = true }),
      w,
    )
    map_lookup (some addrs) network host w =
        if not (is_network network)
        then (
          extend_dns_error merge (record empty_dns_error { name = host })
              (record empty_dns_error { err = err_unsupported_network }),
          w,
        )
        else found_lookup network (filter addrs network) w

    -- `(*HostsResolver).LookupNetIP`.
    unfoldable pub hosts_lookup : NameMap → Resolver W
    unfolding map_lookup found_lookup sorted lookup
    hosts_lookup m network host w = map_lookup (lookup (names.fqdn host) m) network host w
