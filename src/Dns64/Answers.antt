-- ===== src/Dns64/Answers.antt =====
-- The answers of a DNS64 lookup, for every network.
use mathlib.Core.List.{append-nil, append_assoc}
use getresolvd.Base.{
  ◌≤◌, Bool, true, false, not, ◌≡◌, refl, sym, ap, ◌∙◌, List, [], ◌∷◌, ◌++◌, Text, text_eq,
  if◌then◌else◌, take, length, All, Bool-cases, inl, inr, arith, ltb, map, keep, Perm, Option, some,
  none,
}
use getresolvd.Netip.{
  Addr, ipv4, ipv6, zero_addr, is4, unmap, as_slice, addr_from16, Bytes, IsWellFormed,
}
use getresolvd.Errors.{Result, ok}
use getresolvd.AddrSelect.Sort.{Dialer, sort_by_rfc6724}
use getresolvd.AddrSelect.Sort.Laws.{sort_by_rfc6724-perm}
use getresolvd.Resolver.{Resolver}
use getresolvd.Deps.{net_ip, net_ip4, net_ip6}
use getresolvd.Dns64.{
  synthesize_addr, split_families, synthesize_all, with_synthesized, as_result, sort_addrs,
  both_families, answer, dns64,
}

-- The address is an IPv4 address, which may be written as an IPv6 one.
abbrev pub is_v4 : Addr → Bool
is_v4 a = is4 (unmap a)

-- The IPv4 addresses of an answer, and the other ones.
abbrev pub four : List Addr → List Addr
four found = map unmap (keep is_v4 found)

abbrev pub six : List Addr → List Addr
six found = keep (λ a. not (is_v4 a)) found

-- An IPv4 address behind the first twelve bytes of a prefix.
abbrev pub embed : Bytes → Addr → Addr
embed p a = addr_from16 (take 12 p ++ as_slice a)

-- The IPv6 addresses, or if there is none, the embedded IPv4 addresses.
abbrev pub or_embedded : Bytes → List Addr → List Addr → List Addr
or_embedded p v4 [] = map (embed p) v4
or_embedded p v4 (a ∷ v6) = a ∷ v6

-- What is answered for a network, up to the order.
abbrev pub translated : Bytes → Text → List Addr → List Addr
translated p network found =
    let v6 = or_embedded p (four found) (six found) in
    if text_eq network net_ip6 then v6 else four found ++ v6

split_families-four :
    (addrs v4 v6 : List Addr) → split_families addrs v4 v6 ≡ (v4 ++ four addrs, v6 ++ six addrs)
unfolding split_families
split_families-four [] v4 v6 = rw (append-nil v4, append-nil v6)
split_families-four (a ∷ addrs) v4 v6 = elim (Bool-cases (is_v4 a)) [
  | inl h ↦ rw h (
      split_families-four addrs (v4 ++ unmap a ∷ []) v6
      ∙ rw (append_assoc v4 (unmap a ∷ []) (four addrs)))
  | inr h ↦
      rw h (split_families-four addrs v4 (v6 ++ a ∷ []) ∙ rw (append_assoc v6 (a ∷ []) (six addrs)))
]

four-All : (addrs : List Addr) → All (λ a. is4 a ≡ true) (four addrs)
four-All [] = tt
four-All (a ∷ addrs) = elim (Bool-cases (is_v4 a)) [
  | inl h ↦ rw h (h, four-All addrs)
  | inr h ↦ rw h (four-All addrs)
]

module _ (p : Bytes) (zone : Text) (long : 12 ≤ length p) where
  synthesize_addr-embed :
      (a : Addr) → is4 a ≡ true → synthesize_addr (ipv6 p zone) a ≡ ok (embed p a)
  unfolding synthesize_addr
  synthesize_addr-embed (ipv4 b) h = let fits : ltb (length p) 12 ≡ false = ground arith in rw fits
  synthesize_addr-embed (ipv6 b z) h = cc
  synthesize_addr-embed zero_addr h = cc

  synthesize_all-embed :
      (v4 v6 : List Addr)
      → All (λ a. is4 a ≡ true) v4
      → synthesize_all (ipv6 p zone) v4 v6 ≡ ok (v6 ++ map (embed p) v4)
  unfolding synthesize_all
  synthesize_all-embed [] v6 h = ap ok (sym (append-nil v6))
  synthesize_all-embed (a ∷ v4) v6 h = rw (synthesize_addr-embed a h.0) (
      synthesize_all-embed v4 (v6 ++ embed p a ∷ []) h.1
      ∙ ap ok (append_assoc v6 (embed p a ∷ []) (map (embed p) v4)))

  module _ {W : Type 0} (dialer : Dialer W) where
    with_synthesized-embed :
        (v4 v6 : List Addr)
        → All (λ a. is4 a ≡ true) v4
        → with_synthesized dialer (ipv6 p zone) v4 v6 ≡ ok (or_embedded p v4 v6)
    unfolding with_synthesized
    with_synthesized-embed v4 [] h = synthesize_all-embed v4 [] h
    with_synthesized-embed v4 (a ∷ v6) h = refl

    -- A rearrangement, and some world.
    abbrev pub Rearranges : Result (List Addr) × W → List Addr → Type 0
    Rearranges res addrs = (out : List Addr) × (res.0 ≡ ok out) × Perm out addrs

    sort_addrs-perm :
        (addrs : List Addr) (w : W) → Rearranges (sort_addrs dialer (ok addrs) w) addrs
    unfolding sort_addrs
    sort_addrs-perm addrs w =
        let (out, e, perm) = sort_by_rfc6724-perm dialer addrs w in
        (out, as_result_some (sort_by_rfc6724 dialer addrs w) out e, perm)
      where
        as_result_some :
            (q : Option (List Addr) × W) (out : List Addr)
            → q.0 ≡ some out
            → (as_result dialer q).0 ≡ ok out
        as_result_some (some a, v) out e = let same : a ≡ out = cc in unfold as_result in rw same
        as_result_some (none, v) out e = cc

    both_families-perm :
        (network : Text) (found : List Addr) (w : W)
        → Rearranges
            (both_families dialer (ipv6 p zone) network (four found) (six found) w)
            (translated p network found)
    unfolding both_families
    both_families-perm network found w =
        rw (with_synthesized-embed (four found) (six found) (four-All found))
          (elim (Bool-cases (text_eq network net_ip6)) [
            | inl h ↦ rw h (sort_addrs-perm _ w)
            | inr h ↦ rw h (sort_addrs-perm _ w)
          ])

-- With an IPv6 prefix, if the inner lookup of "ip" succeeds: "ip4" is answered with its IPv4
-- addresses, unmapped and in order; "ip6" with a rearrangement of its IPv6 addresses or, if it has
-- none, of its IPv4 addresses embedded behind the first twelve bytes of the prefix; and any other
-- network with a rearrangement of both.
pub dns64_answers :
    (p : Bytes) (zone : Text) {W : Type 0} (dialer : Dialer W) (r : Resolver W)
    (network host : Text) (w w' : W) (found : List Addr)
    → IsWellFormed (ipv6 p zone)
    → r net_ip host w ≡ (ok found, w')
    → (addrs : List Addr) × ((dns64 dialer (ipv6 p zone) r network host w).0 ≡ ok addrs)
      × (if text_eq network net_ip4
          then addrs ≡ four found
          else Perm addrs (translated p network found))
unfolding dns64
dns64_answers p zone dialer r network host w w' found h e =
    rw (e, answer, split_families-four found [] [])
      (elim (Bool-cases (text_eq network net_ip4)) [
        | inl only ↦ rw only (four found, refl, refl)
        | inr both ↦ rw both (both_families-perm p zone (omega arith) dialer network found w')
      ])
