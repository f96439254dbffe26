-- ===== src/AddrSelect/Policy.antt =====
-- The policy table, its longest-prefix search, scopes and address attributes
-- (internal/addrselect/addrselect.go, `ipAttrOf` and from `policyTableEntry` to `classifyScope`).
pub mod Laws
use Prim.Native.Nat.{bit_and}
use getresolvd.Base.{ℕ, Bool, true, false, not, ◌&&◌, ◌||◌, List, [], ◌∷◌, ◌==◌, if◌then◌else◌}
use getresolvd.Netip.{
  Addr, zero_addr, ipv4, ipv6, Bytes, Prefix, contains, is_valid, is6, is4_in6, as16, addr_from16,
  byte_at, zeros16, is_loopback, is_link_local_unicast, is_multicast,
}

pub record PolicyTableEntry : Type 0 where
  pub prefix : Prefix
  pub precedence : ℕ
  pub label : ℕ

-- `policyTableEntry{}`.
abbrev pub no_entry : PolicyTableEntry
no_entry = record { prefix = record { addr = zero_addr; bits = 0 }; precedence = 0; label = 0 }

abbrev table_entry : Bytes → ℕ → ℕ → ℕ → PolicyTableEntry
table_entry b bits precedence label = record {
  prefix = record { addr = addr_from16 b; bits = bits };
  precedence = precedence;
  label = label;
}

-- Sixteen bytes that begin with two given ones, as a composite literal of the source fills them.
abbrev from_two : ℕ → ℕ → Bytes
from_two a b = a ∷ b ∷ 0 ∷ 0 ∷ 0 ∷ 0 ∷ 0 ∷ 0 ∷ 0 ∷ 0 ∷ 0 ∷ 0 ∷ 0 ∷ 0 ∷ 0 ∷ 0 ∷ []

abbrev loopback16 : Bytes
loopback16 = 0 ∷ 0 ∷ 0 ∷ 0 ∷ 0 ∷ 0 ∷ 0 ∷ 0 ∷ 0 ∷ 0 ∷ 0 ∷ 0 ∷ 0 ∷ 0 ∷ 0 ∷ 1 ∷ []

abbrev mapped16 : Bytes
mapped16 = 0 ∷ 0 ∷ 0 ∷ 0 ∷ 0 ∷ 0 ∷ 0 ∷ 0 ∷ 0 ∷ 0 ∷ 0xff ∷ 0xff ∷ 0 ∷ 0 ∷ 0 ∷ 0 ∷ []

unfoldable pub rfc6724policy_table : List PolicyTableEntry
rfc6724policy_table =
    table_entry loopback16 128 50 0
    ∷ table_entry mapped16 96 35 4
    ∷ table_entry zeros16 96 1 3
    ∷ table_entry (from_two 0x20 0x01) 32 5 5
    ∷ table_entry (from_two 0x20 0x02) 16 30 2
    ∷ table_entry (from_two 0x3f 0xfe) 16 1 12
    ∷ table_entry (from_two 0xfe 0xc0) 10 1 11
    ∷ table_entry (from_two 0xfc 0) 7 3 13
    ∷ table_entry zeros16 0 40 1
    ∷ []

-- The loop of `Classify`.
unfoldable pub classify_loop : List PolicyTableEntry → Addr → PolicyTableEntry
classify_loop [] ip = no_entry
classify_loop (e ∷ t) ip = let rest = classify_loop t ip in if contains e.prefix ip then e else rest

-- `if ip.Is4() { ip = netip.AddrFrom16(ip.As16()) }`.
abbrev pub widen : Addr → Addr
widen (ipv4 b) = addr_from16 (as16 (ipv4 b))
widen a = a

-- `Classify`.
unfoldable pub classify : List PolicyTableEntry → Addr → PolicyTableEntry
unfolding classify_loop
classify t ip = classify_loop t (widen ip)

abbrev pub scope_link_local : ℕ
scope_link_local = 0x2

abbrev pub scope_site_local : ℕ
scope_site_local = 0x5

abbrev pub scope_global : ℕ
scope_global = 0xe

unfoldable pub classify_scope : Addr → ℕ
unfolding is_loopback is_link_local_unicast is_multicast
classify_scope ip =
    if is_loopback ip || is_link_local_unicast ip
    then scope_link_local
    else (let v6 = is6 ip && not (is4_in6 ip) in
        let b = as16 ip in
        if v6 && is_multicast ip
        then bit_and (byte_at b 1) 0xf
        else if v6 && byte_at b 0 == 0xfe && bit_and (byte_at b 1) 0xc0 == 0xc0
        then scope_site_local
        else scope_global)

pub record IpAttr : Type 0 where
  pub scope : ℕ
  pub precedence : ℕ
  pub label : ℕ

unfoldable pub ip_attr_of : Addr → IpAttr
unfolding classify rfc6724policy_table classify_scope
ip_attr_of ip =
    if not (is_valid ip)
    then record { scope = 0; precedence = 0; label = 0 }
    else (let match = classify rfc6724policy_table ip in
        record { scope = classify_scope ip; precedence = match.precedence; label = match.label })
