-- ===== src/Dns/Lookup.antt =====
-- `(*dnsResolver).LookupNetIP` of dns.go.
pub mod Gathered
pub mod Answers
pub mod Refused
pub mod QueryFailures
pub mod Failures
pub mod LastQuery
pub mod Interleavings
use getresolvd.Base.{
  ℕ, Bool, true, not, ◌&&◌, List, [], ◌∷◌, ◌++◌, Option, none, some, Text, text_eq, if◌then◌else◌,
  length, ltb, ◌==◌, take, drop,
}
use getresolvd.Netip.{Addr, ipv4, Bytes, addr_from16, mapped_prefix}
use getresolvd.AddrSelect.Sort.{Dialer, sort_by_rfc6724}
use getresolvd.Errors.{
  Error, empty_dns_error, Result, ok, err, panic, Merge, extend_dns_error, err_no_such_host,
  err_unsupported_network,
}
use getresolvd.Deps.{DnsNames, net_ip, net_ip4, net_ip6}
use getresolvd.Resolver.{Resolver}
use getresolvd.Dns.{DnsResolver}
use getresolvd.Dns.Query.{Network, Msg, Rr, rr_a, rr_aaaa, rr_other, try_one_name}

abbrev pub type_a : ℕ
type_a = 1

abbrev pub type_aaaa : ℕ
type_aaaa = 28

-- `net.IP.To4` and `net.IP.To16`; nil is the empty list.
unfoldable pub to4 : Bytes → Bytes
to4 b =
    if length b == 4
    then b
    else if length b == 16 && text_eq (take 12 b) mapped_prefix
    then drop 12 b
    else []

unfoldable pub to16 : Bytes → Bytes
to16 b = if length b == 4 then mapped_prefix ++ b else if length b == 16 then b else []

-- The loop over `reply.Answer`. The conversion of a slice to an array panics if it is too short.
unfoldable pub append_answers : List Addr → List Rr → Result (List Addr)
unfolding to4 to16
append_answers addrs [] = ok addrs
append_answers addrs (rr_a b ∷ rrs) =
    let rest = append_answers (addrs ++ ipv4 (take 4 (to4 b)) ∷ []) rrs in
    if ltb (length (to4 b)) 4 then panic else rest
append_answers addrs (rr_aaaa b ∷ rrs) =
    let rest = append_answers (addrs ++ addr_from16 (take 16 (to16 b)) ∷ []) rrs in
    if ltb (length (to16 b)) 16 then panic else rest
append_answers addrs (rr_other ∷ rrs) = append_answers addrs rrs

-- The query types of a network; `none` is the default case.
unfoldable pub q_types : Text → Option (List ℕ)
q_types network =
    if text_eq network net_ip
    then some (type_a ∷ type_aaaa ∷ [])
    else if text_eq network net_ip4
    then some (type_a ∷ [])
    else if text_eq network net_ip6
    then some (type_aaaa ∷ [])
    else none

module _ {W : Type 0} (names : DnsNames) (net : Network W) (dialer : Dialer W) (merge : Merge)
    (r : DnsResolver) where
  appended : List Addr → Result Msg × W → Result (List Addr) × W
  appended addrs (ok reply, w) = (append_answers addrs reply.answer, w)
  appended addrs (err e, w) = (err e, w)
  appended addrs (panic, w) = (panic, w)

  -- `tryOneNameAndAppendResults`, from the addresses so far.
  unfoldable pub try_and_append : Text → ℕ → List Addr → W → Result (List Addr) × W
  unfolding appended append_answers
  try_and_append name q_type addrs w = appended addrs (try_one_name net merge r name q_type w)

  and_then :
      Result (List Addr) × W → (List Addr → W → Result (List Addr) × W) → Result (List Addr) × W
  and_then (ok addrs, w) k = k addrs w
  and_then (err e, w) k = (err e, w)
  and_then (panic, w) k = (panic, w)

  -- One query after the other, up to an error.
  unfoldable pub one_by_one : Text → List ℕ → List Addr → W → Result (List Addr) × W
  unfolding and_then try_and_append
  one_by_one name [] addrs w = (ok addrs, w)
  one_by_one name (q ∷ qs) addrs w =
      and_then (try_and_append name q addrs w) λ addrs' w'. one_by_one name qs addrs' w'

  -- A query that ends after the first error of its group; that error stays.
  pub ended : Error → Result (List Addr) × W → Result (List Addr) × W
  ended e (panic, w) = (panic, w)
  ended e (ok _, w) = (err e, w)
  ended e (err _, w) = (err e, w)

  -- The group after an error: the context is cancelled, and the other query ends.
  rest_after_error : Text → List ℕ → List Addr → Error → W → Result (List Addr) × W
  rest_after_error name [] addrs e w = (err e, w)
  rest_after_error name (q ∷ qs) addrs e w = ended e (try_and_append name q addrs (net.cancel w))

  continue :
      Text
      → List ℕ
      → List Addr
      → Result (List Addr) × W
      → (List Addr → W → Result (List Addr) × W)
      → Result (List Addr) × W
  continue name qs addrs (ok addrs', w) k = k addrs' w
  continue name qs addrs (err e, w) k = rest_after_error name qs addrs e w
  continue name qs addrs (panic, w) k = (panic, w)

  -- The group of queries (at most two), in the order in which they end.
  unfoldable pub in_group : Text → List ℕ → List Addr → W → Result (List Addr) × W
  unfolding continue rest_after_error ended try_and_append
  in_group name [] addrs w = (ok addrs, w)
  in_group name (q ∷ qs) addrs w =
      continue name qs addrs (try_and_append name q addrs w) λ addrs' w'. in_group name qs addrs' w'

  unfoldable pub sorted : Option (List Addr) × W → Result (List Addr) × W
  sorted (some addrs, w) = (ok addrs, w)
  sorted (none, w) = (panic, w)

  -- What follows the queries.
  unfoldable pub conclude : Text → Text → Result (List Addr) × W → Result (List Addr) × W
  conclude network host (ok addrs, w) =
      if ltb 0 (length addrs)
      then (if not (text_eq network net_ip4)
          then sorted (sort_by_rfc6724 dialer addrs w)
          else (ok addrs, w))
      else (
        extend_dns_error merge (record empty_dns_error { name = host })
            (record empty_dns_error { err = err_no_such_host; is_not_found = true }),
        w,
      )
  conclude network host (err e, w) = (err e, w)
  conclude network host (panic, w) = (panic, w)

  -- The order in which the queries of a group end.
  abbrev pub ordered : Bool → List ℕ → List ℕ
  ordered true (a ∷ b ∷ []) = b ∷ a ∷ []
  ordered swapped qs = qs

  unfoldable pub queries : Bool → Text → Text → Option (List ℕ) → W → Result (List Addr) × W
  queries swapped network host none w = (
    extend_dns_error merge (record empty_dns_error { name = host })
        (record empty_dns_error { err = err_unsupported_network }),
    w,
  )
  queries swapped network host (some qs) w = conclude network host (
      if r.single_request
      then one_by_one (names.fqdn host) qs [] w
      else in_group (names.fqdn host) (ordered swapped qs) [] w)

  -- `LookupNetIP`; `swapped` says that the second query of a group ends first.
  unfoldable pub dns_lookup : Bool → Resolver W
  unfolding queries conclude sorted one_by_one in_group q_types
  dns_lookup swapped network host w =
      if not (names.is_domain_name host)
      then (
        extend_dns_error merge (record empty_dns_error { name = host })
            (record empty_dns_error { err = err_no_such_host; is_not_found = true }),
        w,
      )
      else queries swapped network host (q_types network) w
