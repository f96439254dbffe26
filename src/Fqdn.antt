-- ===== src/Fqdn.antt =====
-- internal/fqdn/fqdn.go: the fully qualified name of this machine; and `Domain` of domain.go.
pub mod Laws
pub mod Sources
pub mod Tried
pub mod Missing
pub mod Domains
use getresolvd.Base.{
  Bool, true, false, ◌&&◌, List, [], ◌∷◌, Option, Text, codes, if◌then◌else◌, join_text,
}
use getresolvd.Errors.{Error, plain, wrapped, Result, ok, err, panic, ◌>>=◌}
use getresolvd.Deps.{DnsNames, Scan}
use getresolvd.Hostsfile.{IpAddr, Record, matches, decode}

-- `ErrFqdnNotFound`.
abbrev pub err_fqdn_not_found : Error
err_fqdn_not_found = plain (codes "fqdn not found")

-- The calls of packages os and net, which act on a world `W`.
pub record System (W : Type 0) : Type 0 where
  pub os_hostname : W → Result Text × W
  pub open_hosts : W → Result Scan × W
  pub lookup_cname : Text → W → Result Text × W
  pub lookup_ip : Text → W → Result (List Text) × W
  pub lookup_addr : Text → W → Result (List Text) × W

module _ (names : DnsNames) (resolve : Text → Result IpAddr) where
  -- `record.Hostnames[0]`.
  first_name : List Text → Result Text
  first_name [] = panic
  first_name (hn ∷ _) = ok hn

  -- The loop of `fromHosts`.
  pub find_record : List Record → Text → Result Text
  find_record [] host = err err_fqdn_not_found
  find_record (r ∷ records) host =
      let rest = find_record records host in
      if matches names r host then first_name r.hostnames else rest

  in_records : Result (List Record) → Text → Result Text
  in_records (ok records) host = find_record records host
  in_records (err e) host = err (wrapped (codes "failed to parse hosts file") e)
  in_records panic host = panic

  in_file : Result Scan → Text → Result Text
  in_file (err e) host = err (wrapped (codes "failed to open hosts file") e)
  in_file panic host = panic
  in_file (ok s) host = in_records (decode names resolve s) host

  -- `fromHosts`, on the file that was opened.
  unfoldable pub from_hosts : Result Scan → Text → Result Text
  unfolding in_file in_records find_record first_name
  from_hosts file host = in_file file host

  module _ {W : Type 0} (sys : System W) where
    found : Result Text × W → (W → Result Text × W) → Result Text × W
    found (ok (c ∷ name), w) k = (ok (c ∷ name), w)
    found (ok [], w) k = k w
    found (err e, w) k = k w
    found (panic, w) k = (panic, w)

    -- One round over the addresses: an error or an empty list goes on.
    by_name : Result (List Text) × W → (W → Result Text × W) → Result Text × W
    by_name (ok (h ∷ _), w) k = (ok h, w)
    by_name (ok [], w) k = k w
    by_name (err e, w) k = k w
    by_name (panic, w) k = (panic, w)

    by_addrs : List Text → W → Result Text × W
    by_addrs [] w = (err err_fqdn_not_found, w)
    by_addrs (a ∷ addrs) w = by_name (sys.lookup_addr a w) λ w'. by_addrs addrs w'

    by_ip : Result (List Text) × W → Result Text × W
    by_ip (ok addrs, w) = by_addrs addrs w
    by_ip (err e, w) = (err err_fqdn_not_found, w)
    by_ip (panic, w) = (panic, w)

    -- `fromLookup`.
    unfoldable pub from_lookup : Text → W → Result Text × W
    unfolding found by_ip by_addrs by_name
    from_lookup host w = found (sys.lookup_cname host w) λ w'. by_ip (sys.lookup_ip host w')

    last : Result Text × W → Result Text × W
    last (ok name, w) = (ok name, w)
    last (err _, w) = (err err_fqdn_not_found, w)
    last (panic, w) = (panic, w)

    -- After `fromHosts`.
    or_lookup : Text → Result Text → W → Result Text × W
    or_lookup host (ok name) w = (ok name, w)
    or_lookup host panic w = (panic, w)
    or_lookup host (err e) w = last (from_lookup host w)

    with_host : Result Text × W → Result Text × W
    with_host (ok host, w) =
        let (file, w') = sys.open_hosts w in or_lookup host (from_hosts file host) w'
    with_host (err e, w) = (err e, w)
    with_host (panic, w) = (panic, w)

    -- `Hostname`.
    unfoldable pub hostname : W → Result Text × W
    unfolding with_host or_lookup last from_hosts from_lookup
    hostname w = with_host (sys.os_hostname w)

    of_labels : List Text → Result Text
    of_labels [] = err (plain (codes "invalid hostname"))
    of_labels (l ∷ labels) = ok (names.canonical_name (join_text labels (codes ".")))

    domain_of : Result Text → Result Text
    domain_of (ok hn) = of_labels (names.split_domain_name hn)
    domain_of (err e) = err e
    domain_of panic = panic

    -- `Domain` of domain.go.
    unfoldable pub domain : W → Result Text × W
    unfolding domain_of of_labels hostname
    domain w = let (hn, w') = hostname w in (domain_of hn, w')
