-- ===== src/Dns64/Laws.antt =====
-- The synthesized addresses, and the families of the answers.
use getresolvd.Base.{
  ℕ, true, false, ◌≡◌, refl, List, [], ◌∷◌, ◌++◌, Text, take, drop, length, All, All-append,
  Bool-cases, inl, inr, arith, ltb, ap, zero, suc, ◌≤◌,
}
use getresolvd.Netip.{Addr, ipv4, ipv6, is4, is6, unmap, as_slice, IsWellFormed, Bytes}
use getresolvd.Errors.{ok}
use getresolvd.Dns64.{synthesize_addr, split_families, dns64}
use getresolvd.AddrSelect.Sort.{Dialer}
use getresolvd.Resolver.{Resolver}
use getresolvd.Deps.{net_ip, net_ip4}

-- The address embeds the prefix in its first 12 bytes and an IPv4 address in its last 4.
abbrev pub Embeds : Bytes → Bytes → Addr → Type 0
Embeds p b s = (take 12 (as_slice s) ≡ take 12 p) × (drop 12 (as_slice s) ≡ b)

prefix_parts :
    (n : ℕ) (p b : Bytes)
    → n ≤ length p
    → (take n (take n p ++ b) ≡ take n p) × (drop n (take n p ++ b) ≡ b)
prefix_parts zero p b h = (refl, refl)
prefix_parts (suc n) [] b h = absurd (omega arith)
prefix_parts (suc n) (x ∷ p) b h =
    let (front, back) = prefix_parts n p b (omega arith) in (ap (◌∷◌ x) front, back)

-- With an IPv6 prefix, an IPv4 address is embedded in an IPv6 address without a zone: the first
-- twelve bytes of the prefix, then its own four.
pub synthesize_addr-Embeds :
    (p : Bytes) (zone : Text) (b : Bytes)
    → IsWellFormed (ipv6 p zone)
    → (s : Addr) × (synthesize_addr (ipv6 p zone) (ipv4 b) ≡ ok s) × (is6 s ≡ true) × Embeds p b s
unfolding synthesize_addr
synthesize_addr-Embeds p zone b h =
    let (front, back) = prefix_parts 12 p b (omega arith) in
    let long : ltb (length p) 12 ≡ false = ground arith in
    (ipv6 (take 12 p ++ b) [], rw long, refl, (front, back))

split_families-All :
    (addrs v4 v6 : List Addr)
    → All (λ a. is4 a ≡ true) v4
    → All (λ a. is4 (unmap a) ≡ false) v6
    → All (λ a. is4 a ≡ true) (split_families addrs v4 v6).0
      × All (λ a. is4 (unmap a) ≡ false) (split_families addrs v4 v6).1
unfolding split_families
split_families-All [] v4 v6 h k = (h, k)
split_families-All (a ∷ addrs) v4 v6 h k = elim (Bool-cases (is4 (unmap a))) [
  | inl e ↦
      rw (e, split_families)
        (split_families-All addrs (v4 ++ unmap a ∷ []) v6 (All-append _ v4 (unmap a ∷ []) h (e, tt))
          k)
  | inr e ↦
      rw (e, split_families)
        (split_families-All addrs v4 (v6 ++ a ∷ []) h (All-append _ v6 (a ∷ []) k (e, tt)))
]

-- Asked for "ip4", the resolver looks up "ip" and, if that succeeds, returns IPv4 addresses only, with
-- no address synthesized or sorted.
pub dns64_ip4 :
    {W : Type 0} (dialer : Dialer W) (prefix : Addr) (r : Resolver W) (host : Text) (w w' : W)
    (found : List Addr)
    → r net_ip host w ≡ (ok found, w')
    → (addrs : List Addr) × (dns64 dialer prefix r net_ip4 host w ≡ (ok addrs, w'))
      × All (λ a. is4 a ≡ true) addrs
unfolding dns64
dns64_ip4 dialer prefix r host w w' found e =
    ((split_families found [] []).0, rw e, (split_families-All found [] [] tt tt).0)
