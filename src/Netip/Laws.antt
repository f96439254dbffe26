-- ===== src/Netip/Laws.antt =====
-- Facts about addresses that the components share.
use getresolvd.Base.{ℕ, ◌<◌, ◌≡◌, refl, arith}
use getresolvd.Base.{inl, inr, Bool-cases, length-drop, drop-All}
use getresolvd.Netip.{Addr, zero_addr, ipv4, ipv6, IsWellFormed, is4_in6, unmap, is_valid}

pub unmap-IsWellFormed : (a : Addr) → IsWellFormed a → IsWellFormed (unmap a)
unfolding unmap
unmap-IsWellFormed zero_addr h = h
unmap-IsWellFormed (ipv4 b) h = h
unmap-IsWellFormed (ipv6 b zone) h = elim (Bool-cases (is4_in6 (ipv6 b zone))) [
  | inl m ↦ rw m (omega (arith, length-drop {0} 12 b, h.0), drop-All (λ (x : ℕ). x < 256) 12 b h.1)
  | inr m ↦ rw m h
]

pub is_valid-unmap : (a : Addr) → is_valid (unmap a) ≡ is_valid a
unfolding unmap
is_valid-unmap zero_addr = refl
is_valid-unmap (ipv4 b) = refl
is_valid-unmap (ipv6 b zone) = ground arith
