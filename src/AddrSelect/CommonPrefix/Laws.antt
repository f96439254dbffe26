-- ===== src/AddrSelect/CommonPrefix/Laws.antt =====
-- `commonPrefixLen` counts the leading bits that two addresses share.
use getresolvd.Base.{
  ℕ, zero, suc, ◌+◌, ◌/◌, ◌%◌, ◌<◌, Bool, true, false, List, [], ◌∷◌, ◌++◌, ◌≡◌, ◌&&◌, refl, ap,
  arith, ltb, ltb→lt, ◌==◌, inl, inr, sym, ◌∙◌, ==_iff, &&_split, if◌then◌else◌, Bool-cases, All,
  length, take,
}
use getresolvd.Netip.{
  Addr, zero_addr, ipv4, ipv6, Bytes, IsWellFormed, is_valid, is4, unmap, as_slice,
}
use getresolvd.Netip.Laws.{unmap-IsWellFormed, is_valid-unmap}
use getresolvd.Base.{length-take, take-All, take_all}
use getresolvd.AddrSelect.CommonPrefix.{differ, differing_bits, common_bytes, common_prefix_len}

-- The bits of a byte, the most significant first.
pub byte_bits : ℕ → List ℕ
byte_bits x =
    x / 128 ∷ x / 64 % 2 ∷ x / 32 % 2 ∷ x / 16 % 2 ∷ x / 8 % 2 ∷ x / 4 % 2 ∷ x / 2 % 2 ∷ x % 2 ∷ []

pub bits_of : Bytes → List ℕ
bits_of [] = []
bits_of (x ∷ b) = byte_bits x ++ bits_of b

-- The length of the longest common prefix of two lists.
pub shared : List ℕ → List ℕ → ℕ
shared (x ∷ a) (y ∷ b) = if x == y then suc (shared a b) else 0
shared _ _ = 0

every_number : (ℕ → Bool) → ℕ → Bool
every_number test zero = true
every_number test (suc bound) = every_number test bound && test bound

every_number_at :
    (test : ℕ → Bool) (k bound : ℕ) → k < bound → every_number test bound ≡ true → test k ≡ true
unfolding every_number
every_number_at test k zero small all = absurd (omega arith)
every_number_at test k (suc bound) small all = ground (arith, every_number_at test k bound)

-- Distinct bytes differ within their eight bits, and the inner loop finds where.
byte_agrees : ℕ → ℕ → Bool
byte_agrees x y =
    if x == y
    then true
    else (let n = shared (byte_bits x) (byte_bits y) in differing_bits 8 8 x y == n && ltb n 8)

byte_table : every_number (λ x. every_number (byte_agrees x) 256) 256 ≡ true
unfolding every_number byte_agrees differing_bits byte_bits shared
byte_table = refl

byte_agrees_lem : (x y : ℕ) → x < 256 → y < 256 → byte_agrees x y ≡ true
byte_agrees_lem x y hx hy =
    every_number_at (byte_agrees x) y 256 hy
      (every_number_at (λ x. every_number (byte_agrees x) 256) x 256 hx byte_table)

module _ (x y : ℕ) (hx : x < 256) (hy : y < 256) (ne : (x == y) ≡ false) where
  differing_bits-shared : differing_bits 8 8 x y ≡ shared (byte_bits x) (byte_bits y)
  unfolding byte_agrees
  differing_bits-shared =
      let t = rw ne at (byte_agrees_lem x y hx hy) in (==_iff _ _).0 (&&_split _ _ t).0

  shared-byte_bits-lt : shared (byte_bits x) (byte_bits y) < 8
  unfolding byte_agrees
  shared-byte_bits-lt =
      let t = rw ne at (byte_agrees_lem x y hx hy) in ltb→lt _ _ (&&_split _ _ t).1

shared-append_eq : (a p q : List ℕ) → shared (a ++ p) (a ++ q) ≡ length a + shared p q
unfolding shared
shared-append_eq [] p q = omega arith
shared-append_eq (x ∷ a) p q = ground (arith, shared-append_eq a p q)

shared-append_lt :
    (a b p q : List ℕ)
    → length a ≡ length b
    → shared a b < length a
    → shared (a ++ p) (b ++ q) ≡ shared a b
unfolding shared
shared-append_lt [] b p q e h = absurd (omega arith)
shared-append_lt (x ∷ a) [] p q e h = absurd (omega arith)
shared-append_lt (x ∷ a) (y ∷ b) p q e h = elim (Bool-cases (x == y)) [
  | inl same ↦
      rw same
        (ap suc (shared-append_lt a b p q (omega arith) (let h' = rw same at h in omega arith)))
  | inr differ ↦ rw differ
]

shared-byte_eq :
    (x y : ℕ) (a b : Bytes)
    → (x == y) ≡ true
    → shared (bits_of (x ∷ a)) (bits_of (y ∷ b)) ≡ 8 + shared (bits_of a) (bits_of b)
unfolding bits_of byte_bits
shared-byte_eq x y a b e =
    rw ((==_iff x y).0 e) (shared-append_eq (byte_bits y) (bits_of a) (bits_of b))

shared-byte_ne :
    (x y : ℕ) (a b : Bytes)
    → x < 256
    → y < 256
    → (x == y) ≡ false
    → shared (bits_of (x ∷ a)) (bits_of (y ∷ b)) ≡ differing_bits 8 8 x y
unfolding bits_of
shared-byte_ne x y a b hx hy ne =
    shared-append_lt (byte_bits x) (byte_bits y) _ _ (unfold byte_bits in refl)
      (unfold byte_bits in shared-byte_bits-lt x y hx hy ne)
    ∙ sym (differing_bits-shared x y hx hy ne)

-- The two loops count the leading bits that two byte strings of one length share.
common_bytes-shared :
    (a b : Bytes) (cpl : ℕ)
    → length a ≡ length b
    → All (λ (x : ℕ). x < 256) a
    → All (λ (x : ℕ). x < 256) b
    → common_bytes a b cpl ≡ cpl + shared (bits_of a) (bits_of b)
unfolding common_bytes
common_bytes-shared [] b cpl e ha hb = unfold shared bits_of in omega arith
common_bytes-shared (x ∷ a) [] cpl e ha hb = absurd (omega arith)
common_bytes-shared (x ∷ a) (y ∷ b) cpl e ha hb = elim (Bool-cases (x == y)) [
  | inl same ↦ rw same (
      omega (
        arith,
        common_bytes-shared a b (cpl + 8) (omega arith) ha.1 hb.1,
        shared-byte_eq x y a b same,
      ))
  | inr differ ↦ rw differ (omega (arith, shared-byte_ne x y a b ha.0 hb.0 differ))
]

-- The bytes that `commonPrefixLen` compares: all of an IPv4 address (mapped or not), and the first
-- 64 bits of an IPv6 address.
pub network_part : Addr → Bytes
network_part a = take 8 (as_slice (unmap a))

-- The two slices, after normalisation.
common_slices :
    (a b : Addr)
    → IsWellFormed a
    → IsWellFormed b
    → is_valid a ≡ true
    → is_valid b ≡ true
    → (if differ (is4 a) (is4 b)
        then 0
        else if ltb 8 (length (as_slice a))
        then common_bytes (take 8 (as_slice a)) (take 8 (as_slice b)) 0
        else common_bytes (as_slice a) (as_slice b) 0)
      ≡ (if differ (is4 a) (is4 b)
          then 0
          else shared (bits_of (take 8 (as_slice a))) (bits_of (take 8 (as_slice b))))
common_slices zero_addr b ha hb va vb = cc
common_slices (ipv4 x) zero_addr ha hb va vb = cc
common_slices (ipv6 x z) zero_addr ha hb va vb = cc
common_slices (ipv4 x) (ipv6 y z) ha hb va vb = refl
common_slices (ipv6 x z) (ipv4 y) ha hb va vb = refl
common_slices (ipv4 x) (ipv4 y) ha hb va vb =
    rw (ha.0, take_all 8 x (omega arith), take_all 8 y (omega arith))
      (common_bytes-shared x y 0 (omega arith) ha.1 hb.1 ∙ omega arith)
common_slices (ipv6 x z) (ipv6 y z') ha hb va vb = rw ha.0 (
    common_bytes-shared (take 8 x) (take 8 y) 0
      (omega (arith, length-take {0} 8 x, length-take {0} 8 y))
      (take-All (λ (x : ℕ). x < 256) 8 x ha.1) (take-All (λ (x : ℕ). x < 256) 8 y hb.1)
    ∙ omega arith)

-- For two valid addresses with bytes in range: if they are of one family, the number of leading bits
-- that they share, over all 32 bits of IPv4 and the first 64 of IPv6; otherwise 0. An IPv4-mapped
-- address counts as IPv4.
pub common_prefix_len-shared :
    (a b : Addr)
    → IsWellFormed a
    → IsWellFormed b
    → is_valid a ≡ true
    → is_valid b ≡ true
    → common_prefix_len a b ≡ (
        if differ (is4 (unmap a)) (is4 (unmap b))
        then 0
        else shared (bits_of (network_part a)) (bits_of (network_part b)))
unfolding common_prefix_len network_part
common_prefix_len-shared a b ha hb va vb =
    common_slices (unmap a) (unmap b) (unmap-IsWellFormed a ha) (unmap-IsWellFormed b hb)
      (is_valid-unmap a ∙ va) (is_valid-unmap b ∙ vb)
