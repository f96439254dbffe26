-- ===== src/AddrSelect/Sort.antt =====
-- `SortByRFC6724`, `SortByRFC6724withSrcs` and `srcAddrs` (internal/addrselect/addrselect.go), with
-- the insertion sort that `sort.Stable` runs on blocks of up to twenty elements.
pub mod Stable
pub mod Reachable
pub mod Unique
pub mod Laws
use getresolvd.Base.{
  ℕ, Bool, true, false, List, [], ◌∷◌, Option, none, some, ltb, ◌==◌, if◌then◌else◌, length, map,
  Text, codes,
}
use mathlib.Core.List.{reverse}
use getresolvd.Netip.{Addr, zero_addr, Bytes, as_slice, addr_from_slice}
use getresolvd.AddrSelect.Policy.{ip_attr_of}
use getresolvd.AddrSelect.Order.{Candidate, less}

module _ {ℓ} {A : Type ℓ} (before : A → A → Bool) where
  -- The inner loop of `insertionSort`: the sorted block stands in reverse, so its last element is
  -- the head; an element moves back while it is less than the one in front of it.
  insert_back : A → List A → List A
  insert_back x [] = x ∷ []
  insert_back x (y ∷ ys) =
      let rest = insert_back x ys in if before x y then y ∷ rest else x ∷ y ∷ ys

  -- The outer loop.
  insert_each : List A → List A → List A
  insert_each done [] = done
  insert_each done (x ∷ xs) = insert_each (insert_back x done) xs

  unfoldable pub stable_sort : List A → List A
  unfolding insert_each insert_back
  stable_sort xs = reverse (insert_each [] xs)

-- What `make` and the loop of `SortByRFC6724withSrcs` build. `AddrFromSlice (AsSlice v)` drops the
-- zone of the destination.
abbrev pub candidate : Addr → Addr → Candidate
candidate v src = record {
  addr = v;
  addr_attr = ip_attr_of (addr_from_slice (as_slice v));
  src = src;
  src_attr = ip_attr_of src;
}

abbrev pub candidates : List Addr → List Addr → List Candidate
candidates (v ∷ addrs) (s ∷ srcs) = candidate v s ∷ candidates addrs srcs
candidates _ _ = []

abbrev pub addr_of : Candidate → Addr
addr_of c = c.addr

-- `none` is the panic on slices of two lengths.
unfoldable pub sort_by_rfc6724with_srcs : List Addr → List Addr → Option (List Addr)
unfolding stable_sort less
sort_by_rfc6724with_srcs addrs srcs =
    if length addrs == length srcs
    then some (map addr_of (stable_sort less (candidates addrs srcs)))
    else none

-- `c.LocalAddr()`: a `*net.UDPAddr` with its IP, or an address of another type.
pub data LocalAddr : Type 0 where
  udp_addr : Bytes → LocalAddr
  other_addr : LocalAddr

-- What is outside this repository: the caller's dialer, which acts on a world `W`, and the texts
-- that addresses are written as.
pub record Dialer (W : Type 0) : Type 0 where
  pub dial : Text → Text → W → Option LocalAddr × W
  pub host_port : Addr → Text → Text

module _ {W : Type 0} (d : Dialer W) where
  abbrev src_of_local : Option LocalAddr → Addr
  src_of_local (some (udp_addr ip)) = addr_from_slice ip
  src_of_local _ = zero_addr

  unfoldable pub src_addrs : List Addr → W → List Addr × W
  src_addrs [] w = ([], w)
  src_addrs (a ∷ addrs) w =
      let (conn, w') = d.dial (codes "udp") (d.host_port a (codes "9")) w in
      let (srcs, w'') = src_addrs addrs w' in (src_of_local conn ∷ srcs, w'')

  unfoldable pub sort_by_rfc6724 : List Addr → W → Option (List Addr) × W
  unfolding sort_by_rfc6724with_srcs src_addrs
  sort_by_rfc6724 addrs w =
      if ltb (length addrs) 2
      then (some addrs, w)
      else (let (srcs, w') = src_addrs addrs w in (sort_by_rfc6724with_srcs addrs srcs, w'))
