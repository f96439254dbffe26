-- ===== src/Literal.antt =====
-- literal.go: IP literals and localhost.
pub mod Laws
use getresolvd.Base.{
  ℕ, Bool, true, false, not, List, [], ◌∷◌, Option, none, some, Text, codes, text_eq, if◌then◌else◌,
  length, ◌==◌,
}
use getresolvd.Netip.{Addr, ipv4, ipv6}
use getresolvd.Errors.{
  Result, ok, err, dns_error, DnsError, empty_dns_error, err_no_such_host, err_unsupported_network,
}
use getresolvd.Deps.{DnsNames, ParseAddr, Filter, is_network}
use getresolvd.Resolver.{Resolver}

abbrev pub localhost : List Addr
localhost =
    ipv6 (0 ∷ 0 ∷ 0 ∷ 0 ∷ 0 ∷ 0 ∷ 0 ∷ 0 ∷ 0 ∷ 0 ∷ 0 ∷ 0 ∷ 0 ∷ 0 ∷ 0 ∷ 1 ∷ []) []
    ∷ ipv4 (127 ∷ 0 ∷ 0 ∷ 1 ∷ [])
    ∷ []

module _ (names : DnsNames) (parse_addr : ParseAddr) (filter : Filter) where
  -- The two assignments to `addrs`, the second of which wins.
  abbrev pub literal_addrs : Text → List Addr
  literal_addrs host =
      let local = if text_eq (names.fqdn host) (codes "localhost.") then localhost else [] in
      elim (parse_addr host) [ some a ↦ a ∷ [] | none ↦ local ]

  -- What follows the filter.
  non_empty : Text → List Addr → Result (List Addr)
  non_empty host [] = err (
      dns_error
        (record empty_dns_error { err = err_no_such_host; name = host; is_not_found = true }))
  non_empty host (a ∷ addrs) = ok (a ∷ addrs)

  -- `Literal().LookupNetIP`.
  unfoldable pub literal : {W : Type 0} → Resolver W
  unfolding non_empty
  literal network host w =
      if not (is_network network)
      then (
        err (dns_error (record empty_dns_error { err = err_unsupported_network; name = host })),
        w,
      )
      else (non_empty host (filter (literal_addrs host) network), w)
