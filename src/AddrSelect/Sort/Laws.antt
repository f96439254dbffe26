-- ===== src/AddrSelect/Sort/Laws.antt =====
-- What sorting destinations promises.
use mathlib.Core.List.Perm
use getresolvd.Base.{
  suc, true, false, List, [], ◌∷◌, ◌≡◌, refl, sym, ap, ◌∙◌, arith, inl, inr, some, if◌then◌else◌,
  Bool-cases, ltb, ◌==◌, ==_iff, length, All, map, Perm,
}
use getresolvd.Netip.{
  Addr, zero_addr, ipv4, ipv6, IsWellFormed, is_valid, is6, is4_in6, addr_from_slice,
}
use getresolvd.AddrSelect.Policy.Laws.{ip_attr_of-ipv4, ip_attr_of-ipv6}
use getresolvd.AddrSelect.Order.{Candidate, less}
use getresolvd.AddrSelect.Order.Laws.{less_laws, less_cotrans}
use getresolvd.AddrSelect.Sort.{
  stable_sort, candidate, candidates, addr_of, sort_by_rfc6724with_srcs, Dialer, src_addrs,
  sort_by_rfc6724,
}
use getresolvd.AddrSelect.Sort.Stable.{stable_sort-perm, stable_sort-IsOrdered, IsOrdered}

map-candidates :
    (addrs srcs : List Addr)
    → length addrs ≡ length srcs
    → map addr_of (candidates addrs srcs) ≡ addrs
map-candidates [] srcs e = refl
map-candidates (a ∷ addrs) [] e = absurd (omega arith)
map-candidates (a ∷ addrs) (s ∷ srcs) e = ap (◌∷◌ a) (map-candidates addrs srcs (omega arith))

module _ {W : Type 0} (d : Dialer W) where
  length-src_addrs : (addrs : List Addr) (w : W) → length (src_addrs d addrs w).0 ≡ length addrs
  unfolding src_addrs
  length-src_addrs [] w = refl
  length-src_addrs (a ∷ addrs) w = ap suc (length-src_addrs addrs _)

pub sort_with_srcs-some :
    (addrs srcs : List Addr)
    → length addrs ≡ length srcs
    → sort_by_rfc6724with_srcs addrs srcs
      ≡ some (map addr_of (stable_sort less (candidates addrs srcs)))
unfolding sort_by_rfc6724with_srcs
sort_with_srcs-some addrs srcs e = rw ((==_iff _ _).1 e)

-- With as many sources as destinations there is no panic, and the result holds the same addresses.
sort_with_srcs-perm :
    (addrs srcs : List Addr)
    → length addrs ≡ length srcs
    → (out : List Addr) × (sort_by_rfc6724with_srcs addrs srcs ≡ some out) × Perm out addrs
sort_with_srcs-perm addrs srcs e = (
  _,
  sort_with_srcs-some addrs srcs e,
  rw (map-candidates addrs srcs e) at
      (Perm.map addr_of (stable_sort-perm less (candidates addrs srcs))),
)

-- Whatever the dialer answers, `SortByRFC6724` does not panic, and leaves a rearrangement of the
-- addresses.
pub sort_by_rfc6724-perm :
    {W : Type 0} (d : Dialer W) (addrs : List Addr) (w : W)
    → (out : List Addr) × ((sort_by_rfc6724 d addrs w).0 ≡ some out) × Perm out addrs
unfolding sort_by_rfc6724
sort_by_rfc6724-perm d addrs w = elim (Bool-cases (ltb (length addrs) 2)) [
  | inl short ↦ rw short (addrs, refl, Perm.refl addrs)
  | inr long ↦ rw long (sort_with_srcs-perm addrs _ (sym (length-src_addrs d addrs w)))
]

-- An address that is not an IPv4-mapped IPv6 address.
abbrev pub IsPlain : Addr → Type 0
IsPlain a = IsWellFormed a × (is_valid a ≡ true) × (is4_in6 a ≡ false)

-- Precedence 35 tells IPv4.
abbrev pub FamilyTold : Candidate → Type 0
FamilyTold c = (is6 c.addr ≡ (if c.addr_attr.precedence == 35 then false else true))

candidate-FamilyTold : (a s : Addr) → IsPlain a → FamilyTold (candidate a s)
unfolding addr_from_slice
candidate-FamilyTold zero_addr s p = cc
candidate-FamilyTold (ipv4 b) s p = rw (p.0.0, (ip_attr_of-ipv4 b p.0).0)
candidate-FamilyTold (ipv6 b z) s p = rw p.0.0 (let n = ip_attr_of-ipv6 b p.0 p.2 in ground arith)

pub candidates-FamilyTold :
    (addrs srcs : List Addr) → All IsPlain addrs → All FamilyTold (candidates addrs srcs)
candidates-FamilyTold [] srcs h = tt
candidates-FamilyTold (a ∷ addrs) [] h = tt
candidates-FamilyTold (a ∷ addrs) (s ∷ srcs) h =
    (candidate-FamilyTold a s h.0, candidates-FamilyTold addrs srcs h.1)

-- The order of the sorted candidates.
pub candidates-IsOrdered :
    (addrs srcs : List Addr)
    → All IsPlain addrs
    → IsOrdered less (stable_sort less (candidates addrs srcs))
candidates-IsOrdered addrs srcs h =
    stable_sort-IsOrdered less FamilyTold (λ a b. (less_laws a b a).1)
      (λ a b c pa pb pc. less_cotrans a b c (λ q. pa ∙ rw q (sym pb)) (λ q. pb ∙ rw q (sym pc)))
      (candidates addrs srcs) (candidates-FamilyTold addrs srcs h)

-- For valid addresses, none of them IPv4-mapped, and as many sources, the result lists a
-- rearrangement of the candidates in which no destination is less than one in front of it.
pub sort_with_srcs-IsOrdered :
    (addrs srcs : List Addr)
    → length addrs ≡ length srcs
    → All IsPlain addrs
    → (cs : List Candidate) × (sort_by_rfc6724with_srcs addrs srcs ≡ some (map addr_of cs))
      × Perm cs (candidates addrs srcs)
      × IsOrdered less cs
sort_with_srcs-IsOrdered addrs srcs e h = (
  stable_sort less (candidates addrs srcs),
  sort_with_srcs-some addrs srcs e,
  stable_sort-perm less (candidates addrs srcs),
  candidates-IsOrdered addrs srcs h,
)
