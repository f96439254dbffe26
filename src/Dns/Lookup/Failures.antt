-- ===== src/Dns/Lookup/Failures.antt =====
-- The errors of a DNS lookup.
use getresolvd.Base.{
  ℕ, suc, Bool, true, false, ◌&&◌, List, [], ◌∷◌, ◌≡◌, ◌≢◌, refl, sym, subst, arith, Option, some,
  none, Text, length, ltb, Bool-cases, Option-cases, inl, inr, text_eq,
}
use getresolvd.Netip.{Addr}
use getresolvd.AddrSelect.Sort.{Dialer}
use getresolvd.Errors.{
  Error, Result, ok, err, panic, Merge, dns_error, empty_dns_error, err_no_such_host,
}
use getresolvd.Errors.Laws.{IfOk, MergeFills, extend_named}
use getresolvd.Deps.{DnsNames, is_network, net_ip4}
use getresolvd.Dns.{DnsResolver}
use getresolvd.Dns.Query.{Network}
use getresolvd.Dns.Query.Causes.{IfErr}
use getresolvd.Dns.Lookup.{q_types, ordered, sorted, conclude, queries, dns_lookup}
use getresolvd.Dns.Lookup.Gathered.{Gathers}
use getresolvd.Dns.Lookup.Answers.{asked, either, queries-Gathers}
use getresolvd.Dns.Lookup.Refused.{refusal, dns_lookup_refused}
use getresolvd.Dns.Lookup.QueryFailures.{
  IfErr-map, QueryFailed, one_by_one-IfErr, in_group-IfErr, ordered-QueryFailed,
}

q_types-ne_none : (network : Text) → is_network network ≡ true → q_types network ≢ none
unfolding q_types
q_types-ne_none n h e = ground arith

module _ {W : Type 0} (names : DnsNames) (net : Network W) (dialer : Dialer W) (merge : Merge)
    (r : DnsResolver) (fills : MergeFills merge) where
  -- Why a lookup fails.
  pub data Failure (swapped : Bool) (network host : Text) (w : W) (x : Error) : Type 0 where
    -- The name is invalid, or the network is not supported.
    refused :
        (names.is_domain_name host && is_network network) ≡ false
        → x ≡ dns_error (refusal names net dialer merge r host)
        → Failure swapped network host w x
    -- A query of the network failed.
    query_failed :
        (qs : List ℕ)
        → q_types network ≡ some qs
        → QueryFailed names net dialer merge r fills (names.fqdn host) qs x
        → Failure swapped network host w x
    -- The server replied to all queries with success, and no reply holds an address.
    no_address :
        (qs : List ℕ)
        → q_types network ≡ some qs
        → Gathers net merge r (names.fqdn host) (asked names net dialer merge r swapped qs) w [] []
        → x
          ≡ dns_error
              (record empty_dns_error { err = err_no_such_host; name = host; is_not_found = true })
        → Failure swapped network host w x

  sorted-IfErr :
      (P : Error → Type 0) (p : Option (List Addr) × W)
      → IfErr P (sorted names net dialer merge r p).0
  unfolding sorted
  sorted-IfErr P (some a, w) = tt
  sorted-IfErr P (none, w) = tt

  conclude-IfErr :
      (swapped : Bool) (network host : Text) (v : W) (qs : List ℕ) (p : Result (List Addr) × W)
      → q_types network ≡ some qs
      → IfOk
          (Gathers net merge r (names.fqdn host) (asked names net dialer merge r swapped qs) v [])
          p.0
      → IfErr (QueryFailed names net dialer merge r fills (names.fqdn host) qs) p.0
      → IfErr (Failure swapped network host v) (conclude names net dialer merge r network host p).0
  unfolding conclude
  conclude-IfErr swapped network host v qs (err e, w) known g f = query_failed qs known f
  conclude-IfErr swapped network host v qs (panic, w) known g f = tt
  conclude-IfErr swapped network host v qs (ok [], w) known g f =
      rw (extend_named {A = List Addr} merge fills host [] err_no_such_host false false true)
        (no_address qs known g refl)
  conclude-IfErr swapped network host v qs (ok (a ∷ found), w) known g f =
      let some_addr : ltb 0 (suc (length found)) ≡ true = ground arith in
      rw some_addr (elim (Bool-cases (text_eq network net_ip4)) [
        | inl four ↦ rw four tt
        | inr other ↦ rw other (sorted-IfErr (Failure swapped network host v) _)
      ])

  queries-IfErr :
      (swapped : Bool) (network host : Text) (qs : List ℕ) (w : W)
      → q_types network ≡ some qs
      → IfErr
          (Failure swapped network host w)
          (queries names net dialer merge r swapped network host (some qs) w).0
  unfolding queries
  queries-IfErr swapped network host qs w known =
      let order = ordered names net dialer merge r swapped qs in
      conclude-IfErr swapped network host w qs _ known
        (queries-Gathers names net dialer merge r swapped (names.fqdn host) qs w)
        (either names net dialer merge r
          (IfErr (QueryFailed names net dialer merge r fills (names.fqdn host) qs)) r.single_request
          _ _ (one_by_one-IfErr names net dialer merge r fills (names.fqdn host) qs [] w)
          (IfErr-map (QueryFailed names net dialer merge r fills (names.fqdn host) order)
            (QueryFailed names net dialer merge r fills (names.fqdn host) qs) _
            (ordered-QueryFailed names net dialer merge r fills swapped (names.fqdn host) qs)
            (in_group-IfErr names net dialer merge r fills (names.fqdn host) order [] w)))

  dns_lookup-IfErr :
      (swapped : Bool) (network host : Text) (w : W)
      → IfErr
          (Failure swapped network host w)
          (dns_lookup names net dialer merge r swapped network host w).0
  unfolding dns_lookup
  dns_lookup-IfErr swapped network host w =
      elim (Bool-cases (names.is_domain_name host && is_network network)) [
        | inr bad ↦
            subst (λ (p : Result (List Addr) × W). IfErr (Failure swapped network host w) p.0)
              (sym (dns_lookup_refused names net dialer merge r fills swapped network host w bad))
              (refused bad refl)
        | inl good ↦
            let valid : names.is_domain_name host ≡ true = ground arith in
            let supported : is_network network ≡ true = ground arith in
            elim (Option-cases (q_types network)) [
              | inl unknown ↦ absurd (q_types-ne_none network supported unknown)
              | inr (qs, known) ↦ rw (valid, known) (queries-IfErr swapped network host qs w known)
            ]
      ]

  -- If the merge of errors fills empty fields, a lookup fails only for one of these reasons: its name
  -- is invalid or its network is not supported; one of the queries of the network failed, and the
  -- error is that query's; or from the world of the lookup on, the server replied to each query in
  -- turn with the return code for success, and these replies hold no address, which is reported as
  -- "no such host" with the flag for "not found".
  pub dns_lookup-Failure :
      (swapped : Bool) (network host : Text) (w w' : W) (x : Error)
      → dns_lookup names net dialer merge r swapped network host w ≡ (err x, w')
      → Failure swapped network host w x
  dns_lookup-Failure swapped network host w w' x e =
      subst (λ (p : Result (List Addr) × W). IfErr (Failure swapped network host w) p.0) e
        (dns_lookup-IfErr swapped network host w)
