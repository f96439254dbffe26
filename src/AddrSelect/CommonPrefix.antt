-- ===== src/AddrSelect/CommonPrefix.antt =====
-- `commonPrefixLen` of internal/addrselect/addrselect.go.
pub mod Laws
use getresolvd.Base.{
  ℕ, zero, suc, ◌+◌, ◌-◌, ◌/◌, Bool, true, false, List, [], ◌∷◌, ltb, ◌==◌, if◌then◌else◌, length,
  take,
}
use getresolvd.Netip.{Addr, Bytes, is4, unmap, as_slice}

-- The inner `for`: `ab` and `bb` differ, and are shifted until they agree. Eight rounds are enough
-- for bytes.
unfoldable pub differing_bits : ℕ → ℕ → ℕ → ℕ → ℕ
differing_bits zero bits ab bb = bits
differing_bits (suc fuel) bits ab bb =
    let rest = differing_bits fuel (bits - 1) (ab / 2) (bb / 2) in
    if ab / 2 == bb / 2 then bits - 1 else rest

-- The outer `for`, over the two slices.
unfoldable pub common_bytes : Bytes → Bytes → ℕ → ℕ
unfolding differing_bits
common_bytes (x ∷ a) (y ∷ b) cpl =
    let rest = common_bytes a b (cpl + 8) in if x == y then rest else cpl + differing_bits 8 8 x y
common_bytes _ _ cpl = cpl

abbrev pub differ : Bool → Bool → Bool
differ true b = if b then false else true
differ false b = b

-- `Is4In6` guards an `Unmap` that does nothing otherwise; `is4 a != is4 b`.
unfoldable pub common_prefix_len : Addr → Addr → ℕ
unfolding common_bytes unmap
common_prefix_len a b =
    let a' = unmap a in
    let b' = unmap b in
    if differ (is4 a') (is4 b')
    then 0
    else if ltb 8 (length (as_slice a'))
    then common_bytes (take 8 (as_slice a')) (take 8 (as_slice b')) 0
    else common_bytes (as_slice a') (as_slice b') 0
