-- ===== src/Dns/Lookup/Refused.antt =====
-- The lookups that are refused before anything is asked.
use getresolvd.Base.{
  Bool, true, false, ◌&&◌, List, [], ◌≡◌, none, Text, if◌then◌else◌, Bool-cases, inl, inr, arith,
}
use getresolvd.Netip.{Addr}
use getresolvd.AddrSelect.Sort.{Dialer}
use getresolvd.Errors.{
  DnsError, err, Merge, dns_error, empty_dns_error, err_no_such_host, err_unsupported_network,
}
use getresolvd.Errors.Laws.{MergeFills, extend_named}
use getresolvd.Deps.{DnsNames, is_network}
use getresolvd.Dns.{DnsResolver}
use getresolvd.Dns.Query.{Network}
use getresolvd.Dns.Lookup.{q_types, queries, dns_lookup}

q_types-none : (network : Text) → is_network network ≡ false → q_types network ≡ none
unfolding q_types
q_types-none network h = ground arith

module _ {W : Type 0} (names : DnsNames) (net : Network W) (dialer : Dialer W) (merge : Merge)
    (r : DnsResolver) where
  -- The error of a lookup that is refused: of an invalid name, or else of the network.
  abbrev pub refusal : Text → DnsError
  refusal host =
      if names.is_domain_name host
      then record empty_dns_error { err = err_unsupported_network; name = host }
      else record empty_dns_error { err = err_no_such_host; name = host; is_not_found = true }

  -- If the merge of errors fills empty fields: an invalid name or an unsupported network is refused
  -- with its error, and nothing is asked.
  pub dns_lookup_refused :
      MergeFills merge
      → (swapped : Bool) (network host : Text) (w : W)
      → (names.is_domain_name host && is_network network) ≡ false
      → dns_lookup names net dialer merge r swapped network host w
        ≡ (err (dns_error (refusal host)), w)
  unfolding dns_lookup queries
  dns_lookup_refused fills swapped network host w h =
      elim (Bool-cases (names.is_domain_name host)) [
        | inl valid ↦
            let unknown = q_types-none network (rw valid at h) in
            rw (
              valid,
              unknown,
              extend_named {A = List Addr} merge fills host [] err_unsupported_network false false
                  false,
            )
        | inr invalid ↦ rw (
          invalid,
          extend_named {A = List Addr} merge fills host [] err_no_such_host false false true,
        )
      ]
