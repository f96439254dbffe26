-- ===== src/Hosts/Found.antt =====
-- Lookups of a host that the map holds.
use mathlib.Core.List.Perm
use getresolvd.Base.{
  arith, true, false, not, ◌&&◌, List, ◌≡◌, refl, Option, none, some, Text, text_eq, if◌then◌else◌,
  Bool-cases, inl, inr, length, ltb, Perm,
}
use getresolvd.Netip.{Addr}
use getresolvd.AddrSelect.Sort.{Dialer, sort_by_rfc6724}
use getresolvd.AddrSelect.Sort.Laws.{sort_by_rfc6724-perm}
use getresolvd.Errors.{ok, Merge}
use getresolvd.Deps.{DnsNames, Filter, is_network, net_ip4}
use getresolvd.Hosts.{NameMap, lookup, sorted, found_lookup, map_lookup, hosts_lookup}

module _ (names : DnsNames) (merge : Merge) (filter : Filter) {W : Type 0} (dialer : Dialer W) where
  sorted-some :
      (p : Option (List Addr) × W) (out : List Addr)
      → p.0 ≡ some out
      → (sorted names merge filter dialer p).0 ≡ ok out
  unfolding sorted
  sorted-some (some a, w) out e = let same : a ≡ out = cc in rw same
  sorted-some (none, w) out e = cc

  -- The addresses in order for "ip4", and rearranged for other networks.
  abbrev pub Lists : Text → List Addr → List Addr → Type 0
  Lists network kept addrs = if text_eq network net_ip4 then addrs ≡ kept else Perm addrs kept

  Lists-refl : (network : Text) (kept : List Addr) → Lists network kept kept
  Lists-refl network kept = elim (Bool-cases (text_eq network net_ip4)) [
    | inl h ↦ rw h refl
    | inr h ↦ rw h (Perm.refl kept)
  ]

  found_lookup-Lists :
      (network : Text) (kept : List Addr) (w : W)
      → (addrs : List Addr) × ((found_lookup names merge filter dialer network kept w).0 ≡ ok addrs)
        × Lists network kept addrs
  unfolding found_lookup
  found_lookup-Lists network kept w =
      elim (Bool-cases (not (text_eq network net_ip4) && ltb 0 (length kept))) [
        | inr short ↦ rw short (kept, refl, Lists-refl network kept)
        | inl long ↦
            let (out, e, p) = sort_by_rfc6724-perm dialer kept w in
            let other : text_eq network net_ip4 ≡ false = ground arith in
            rw (long, other) (out, sorted-some (sort_by_rfc6724 dialer kept w) out e, p)
      ]

  -- A host that the map holds is found for every supported network: the answer is a success with what
  -- the filter leaves of its addresses, in order for "ip4" and rearranged otherwise, also when the
  -- filter leaves none.
  pub hosts_lookup_found :
      (m : NameMap) (network host : Text) (w : W) (held : List Addr)
      → lookup (names.fqdn host) m ≡ some held
      → is_network network ≡ true
      → (addrs : List Addr) × ((hosts_lookup names merge filter dialer m network host w).0
          ≡ ok addrs)
        × Lists network (filter held network) addrs
  unfolding hosts_lookup map_lookup
  hosts_lookup_found m network host w held e h =
      rw (e, h) (found_lookup-Lists network (filter held network) w)
