-- ===== src/Tests/Addresses.antt =====
-- Addresses and their order.
use getresolvd.Base.{
  ℕ, true, false, List, [], ◌∷◌, ◌≡◌, refl, some, arith, Perm, map, All, ◌++◌, keep, if◌then◌else◌,
}
use getresolvd.Netip.{Addr, ipv4, is4, unmap}
use getresolvd.Deps.Sample.{first_v4, some_v6, sample_dialer}
use getresolvd.AddrSelect.Policy.{IpAttr, rfc6724policy_table, classify, widen}
use getresolvd.AddrSelect.Policy.Laws.{LongestMatch, classify-LongestMatch}
use getresolvd.AddrSelect.CommonPrefix.{common_prefix_len, differ}
use getresolvd.AddrSelect.CommonPrefix.Laws.{
  shared, bits_of, network_part, common_prefix_len-shared,
}
use getresolvd.AddrSelect.Order.{Candidate, less}
use getresolvd.AddrSelect.Order.Laws.{less-strict_order}
use getresolvd.AddrSelect.Sort.{candidates, addr_of, sort_by_rfc6724, sort_by_rfc6724with_srcs}
use getresolvd.AddrSelect.Sort.{stable_sort}
use getresolvd.AddrSelect.Sort.Stable.{IsOrdered}
use getresolvd.AddrSelect.Sort.Unique.{stable_sort-IsStableSort, sort_with_srcs_unique}
use getresolvd.AddrSelect.Sort.Reachable.{is_reachable, is_unreachable, sort_with_srcs_reachable}
use getresolvd.AddrSelect.Sort.Laws.{
  candidates-FamilyTold, candidates-IsOrdered, IsPlain, sort_by_rfc6724-perm,
  sort_with_srcs-IsOrdered,
}

classify-LongestMatch_example :
    LongestMatch rfc6724policy_table (widen some_v6) (classify rfc6724policy_table some_v6)
classify-LongestMatch_example = classify-LongestMatch some_v6 refl

abbrev near_v4 : Addr
near_v4 = ipv4 (192 ∷ 0 ∷ 3 ∷ 9 ∷ [])

common_prefix_len-shared_example : common_prefix_len first_v4 near_v4 ≡ (
    if differ (is4 (unmap first_v4)) (is4 (unmap near_v4))
    then 0
    else shared (bits_of (network_part first_v4)) (bits_of (network_part near_v4)))
common_prefix_len-shared_example =
    common_prefix_len-shared first_v4 near_v4 (omega arith) (omega arith) refl refl

-- Destinations: with a source of the same scope and label, with another label, and with no source.
abbrev attr : ℕ → ℕ → ℕ → IpAttr
attr scope precedence label = record { scope = scope; precedence = precedence; label = label }

abbrev best : Candidate
best = record { addr = some_v6; addr_attr = attr 0xe 40 1; src = some_v6; src_attr = attr 0xe 40 1 }

abbrev other_label : Candidate
other_label = record best { src_attr = attr 0xe 40 4 }

abbrev no_source : Candidate
no_source = record best { src = getresolvd.Netip.Addr.zero_addr }

less-strict_order_example : (less best no_source ≡ true) × (less other_label best ≡ false)
unfolding less
less-strict_order_example = less-strict_order best other_label no_source refl refl

sort_by_rfc6724-perm_example :
    (out : List Addr) × ((sort_by_rfc6724 sample_dialer (first_v4 ∷ some_v6 ∷ []) 0).0 ≡ some out)
    × Perm out (first_v4 ∷ some_v6 ∷ [])
sort_by_rfc6724-perm_example = sort_by_rfc6724-perm sample_dialer (first_v4 ∷ some_v6 ∷ []) 0

abbrev two_addrs : List Addr
two_addrs = first_v4 ∷ some_v6 ∷ []

abbrev two_srcs : List Addr
two_srcs = near_v4 ∷ some_v6 ∷ []

two_addrs-IsPlain : All IsPlain two_addrs
two_addrs-IsPlain = ((omega arith, refl, refl), ((omega arith, refl, refl), tt))

sort_with_srcs-IsOrdered_example :
    (cs : List Candidate) × (sort_by_rfc6724with_srcs two_addrs two_srcs ≡ some (map addr_of cs))
    × Perm cs (candidates two_addrs two_srcs)
    × IsOrdered less cs
sort_with_srcs-IsOrdered_example =
    sort_with_srcs-IsOrdered two_addrs two_srcs refl two_addrs-IsPlain

sort_with_srcs_reachable_example :
    (front : List Candidate) × (sort_by_rfc6724with_srcs two_addrs two_srcs
      ≡ some (map addr_of (front ++ keep is_unreachable (candidates two_addrs two_srcs))))
    × All (λ c. is_reachable c ≡ true) front
    × Perm
        (front ++ keep is_unreachable (candidates two_addrs two_srcs))
        (candidates two_addrs two_srcs)
sort_with_srcs_reachable_example =
    sort_with_srcs_reachable two_addrs two_srcs refl two_addrs-IsPlain

-- The insertion sort of the candidates is one of the results that are allowed.
sort_with_srcs_unique_example :
    sort_by_rfc6724with_srcs two_addrs two_srcs
    ≡ some (map addr_of (stable_sort less (candidates two_addrs two_srcs)))
sort_with_srcs_unique_example =
    sort_with_srcs_unique two_addrs two_srcs (stable_sort less (candidates two_addrs two_srcs)) refl
      two_addrs-IsPlain
      (stable_sort-IsStableSort (candidates two_addrs two_srcs)
        (candidates-FamilyTold two_addrs two_srcs two_addrs-IsPlain)
        (candidates-IsOrdered two_addrs two_srcs two_addrs-IsPlain))
