-- ===== src/Netip.antt =====
-- What the program uses of Go's package net/netip (go 1.22.4): addresses and prefixes.
pub mod Laws
use getresolvd.Base.{
  ℕ, zero, suc, ◌-◌, ◌/◌, ◌^◌, ◌<◌, Bool, true, false, not, ◌&&◌, ◌||◌, List, [], ◌∷◌, ◌++◌, ◌≡◌,
  leb, ◌==◌, if◌then◌else◌, length, take, drop, All, Text, text_eq,
}

abbrev pub Bytes : Type 0
Bytes = List ℕ

-- `netip.Addr`: the invalid zero value, four bytes, or sixteen bytes with a zone (empty for none).
pub data Addr : Type 0 where
  zero_addr : Addr
  ipv4 : Bytes → Addr
  ipv6 : Bytes → Text → Addr

-- The representation: every value that the package hands out has it.
abbrev pub IsBytes : ℕ → Bytes → Type 0
IsBytes n b = (length b ≡ n) × All (λ (x : ℕ). x < 256) b

abbrev pub IsWellFormed : Addr → Type 0
IsWellFormed zero_addr = Unit {0}
IsWellFormed (ipv4 b) = IsBytes 4 b
IsWellFormed (ipv6 b _) = IsBytes 16 b

abbrev pub is_valid : Addr → Bool
is_valid zero_addr = false
is_valid _ = true

abbrev pub is4 : Addr → Bool
is4 (ipv4 _) = true
is4 _ = false

abbrev pub is6 : Addr → Bool
is6 (ipv6 _ _) = true
is6 _ = false

-- The first twelve bytes of `::ffff:0:0/96`.
abbrev pub mapped_prefix : Bytes
mapped_prefix = 0 ∷ 0 ∷ 0 ∷ 0 ∷ 0 ∷ 0 ∷ 0 ∷ 0 ∷ 0 ∷ 0 ∷ 0xff ∷ 0xff ∷ []

abbrev pub zeros16 : Bytes
zeros16 = 0 ∷ 0 ∷ 0 ∷ 0 ∷ 0 ∷ 0 ∷ 0 ∷ 0 ∷ 0 ∷ 0 ∷ 0 ∷ 0 ∷ 0 ∷ 0 ∷ 0 ∷ 0 ∷ []

abbrev pub is4_in6 : Addr → Bool
is4_in6 (ipv6 b _) = text_eq (take 12 b) mapped_prefix
is4_in6 _ = false

unfoldable pub unmap : Addr → Addr
unmap (ipv6 b zone) = if is4_in6 (ipv6 b zone) then ipv4 (drop 12 b) else ipv6 b zone
unmap a = a

abbrev pub as16 : Addr → Bytes
as16 zero_addr = zeros16
as16 (ipv4 b) = mapped_prefix ++ b
as16 (ipv6 b _) = b

abbrev pub as_slice : Addr → Bytes
as_slice zero_addr = []
as_slice (ipv4 b) = b
as_slice (ipv6 b _) = b

abbrev pub addr_from16 : Bytes → Addr
addr_from16 b = ipv6 b []

-- The flag is left out: every caller drops it.
unfoldable pub addr_from_slice : Bytes → Addr
addr_from_slice b =
    if length b == 4 then ipv4 b else if length b == 16 then ipv6 b [] else zero_addr

-- Byte `i`, and 0 past the end (which a well-formed address does not reach).
abbrev pub byte_at : Bytes → ℕ → ℕ
byte_at [] i = 0
byte_at (x ∷ b) zero = x
byte_at (x ∷ b) (suc i) = byte_at b i

is_loopback_unmapped : Addr → Bool
is_loopback_unmapped zero_addr = false
is_loopback_unmapped (ipv4 b) = byte_at b 0 == 127
is_loopback_unmapped (ipv6 b _) = text_eq (take 15 b) (take 15 zeros16) && byte_at b 15 == 1

-- `0xfe80/10`: the top ten bits.
is_link_local_unmapped : Addr → Bool
is_link_local_unmapped zero_addr = false
is_link_local_unmapped (ipv4 b) = byte_at b 0 == 169 && byte_at b 1 == 254
is_link_local_unmapped (ipv6 b _) = byte_at b 0 == 0xfe && byte_at b 1 / 64 == 2

is_multicast_unmapped : Addr → Bool
is_multicast_unmapped zero_addr = false
is_multicast_unmapped (ipv4 b) = byte_at b 0 / 16 == 0xe
is_multicast_unmapped (ipv6 b _) = byte_at b 0 == 0xff

unfoldable pub is_loopback : Addr → Bool
unfolding is_loopback_unmapped unmap
is_loopback a = is_loopback_unmapped (unmap a)

unfoldable pub is_link_local_unicast : Addr → Bool
unfolding is_link_local_unmapped unmap
is_link_local_unicast a = is_link_local_unmapped (unmap a)

unfoldable pub is_multicast : Addr → Bool
unfolding is_multicast_unmapped unmap
is_multicast a = is_multicast_unmapped (unmap a)

-- `netip.Prefix`.
pub record Prefix : Type 0 where
  pub addr : Addr
  pub bits : ℕ

-- Two bytes agree in their first `bits` bits.
abbrev pub byte_matches : ℕ → ℕ → ℕ → Bool
byte_matches bits x y = if leb 8 bits then x == y else x / 2 ^ (8 - bits) == y / 2 ^ (8 - bits)

-- Two byte strings of one length agree in their first `bits` bits.
unfoldable pub bytes_match : ℕ → Bytes → Bytes → Bool
bytes_match zero b c = true
bytes_match (suc n) (x ∷ b) (y ∷ c) = byte_matches (suc n) x y && bytes_match (suc n - 8) b c
bytes_match _ _ _ = true

-- The two families do not match one another, and an address with a zone matches no prefix.
unfoldable pub contains : Prefix → Addr → Bool
unfolding bytes_match
contains p zero_addr = false
contains p (ipv4 b) = is4 p.addr && bytes_match p.bits (as_slice p.addr) b
contains p (ipv6 b (z ∷ zone)) = false
contains p (ipv6 b []) = is6 p.addr && bytes_match p.bits (as_slice p.addr) b
