-- ===== src/Dns64.antt =====
-- dns64.go: IPv6 addresses made from IPv4 addresses (RFC 6147).
pub mod Laws
pub mod Answers
use getresolvd.Base.{
  Bool, true, false, not, List, [], ◌∷◌, ◌++◌, Option, none, some, Text, text_eq, if◌then◌else◌,
  length, ltb, take,
}
use getresolvd.Netip.{Addr, Bytes, is4, unmap, as_slice, addr_from16}
use getresolvd.AddrSelect.Sort.{Dialer, sort_by_rfc6724}
use getresolvd.Errors.{Error, Result, ok, err, panic, ◌>>=◌}
use getresolvd.Deps.{net_ip, net_ip4, net_ip6}
use getresolvd.Resolver.{Resolver}

-- `synthesizeAddr`: the slice `[:12]` of the prefix panics if the prefix is not an IPv6 one.
unfoldable pub synthesize_addr : Addr → Addr → Result Addr
unfolding unmap
synthesize_addr prefix addr =
    if not (is4 (unmap addr))
    then ok (unmap addr)
    else if ltb (length (as_slice prefix)) 12
    then panic
    else ok (addr_from16 (take 12 (as_slice prefix) ++ as_slice (unmap addr)))

-- The loop that fills `ipv4Addrs` and `ipv6Addrs`.
unfoldable pub split_families : List Addr → List Addr → List Addr → List Addr × List Addr
unfolding unmap
split_families [] v4 v6 = (v4, v6)
split_families (a ∷ addrs) v4 v6 =
    split_families addrs (if is4 (unmap a) then v4 ++ unmap a ∷ [] else v4)
      (if is4 (unmap a) then v6 else v6 ++ a ∷ [])

-- The loop that appends the synthesized addresses.
unfoldable pub synthesize_all : Addr → List Addr → List Addr → Result (List Addr)
unfolding synthesize_addr
synthesize_all prefix [] v6 = ok v6
synthesize_all prefix (a ∷ addrs) v6 =
    synthesize_addr prefix a >>= λ s. synthesize_all prefix addrs (v6 ++ s ∷ [])

module _ {W : Type 0} (dialer : Dialer W) where
  as_result : Option (List Addr) × W → Result (List Addr) × W
  as_result (some sorted, w) = (ok sorted, w)
  as_result (none, w) = (panic, w)

  sort_addrs : Result (List Addr) → W → Result (List Addr) × W
  sort_addrs (ok addrs) w = as_result (sort_by_rfc6724 dialer addrs w)
  sort_addrs (err e) w = (err e, w)
  sort_addrs panic w = (panic, w)

  -- `if len(ipv6Addrs) == 0`.
  with_synthesized : Addr → List Addr → List Addr → Result (List Addr)
  with_synthesized prefix v4 [] = synthesize_all prefix v4 []
  with_synthesized prefix v4 (a ∷ v6) = ok (a ∷ v6)

  -- What follows the test for "ip4".
  both_families : Addr → Text → List Addr → List Addr → W → Result (List Addr) × W
  both_families prefix network v4 v6 w =
      let all = with_synthesized prefix v4 v6 in
      sort_addrs (if text_eq network net_ip6 then all else all >>= λ v6. ok (v4 ++ v6)) w

  -- What follows the inner lookup.
  answer : Addr → Text → Result (List Addr) × W → Result (List Addr) × W
  answer prefix network (ok addrs, w) =
      let (v4, v6) = split_families addrs [] [] in
      if text_eq network net_ip4 then (ok v4, w) else both_families prefix network v4 v6 w
  answer prefix network (err e, w) = (err e, w)
  answer prefix network (panic, w) = (panic, w)

  -- `DNS64(resolver, conf).LookupNetIP`, for the address of the prefix.
  unfoldable pub dns64 : Addr → Resolver W → Resolver W
  unfolding answer both_families with_synthesized sort_addrs as_result split_families synthesize_all
  dns64 prefix r network host w = answer prefix network (r net_ip host w)
