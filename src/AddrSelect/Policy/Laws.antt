-- ===== src/AddrSelect/Policy/Laws.antt =====
-- The longest-prefix property of `Classify`, and the precedence that tells the families apart.
use getresolvd.Base.{
  ◌≤◌, true, false, List, [], ◌∷◌, ◌≡◌, ◌≢◌, ◌⊎◌, inl, inr, refl, ap, arith, Bool-cases, All,
  All-map, Member, length, take, text_eq,
}
use getresolvd.Netip.{
  Addr, zero_addr, ipv4, ipv6, Bytes, IsBytes, mapped_prefix, contains, addr_from16, bytes_match,
}
use getresolvd.AddrSelect.Policy.{
  PolicyTableEntry, no_entry, mapped16, rfc6724policy_table, classify_loop, classify, widen,
  ip_attr_of,
}

-- The table is sorted from the largest mask to the smallest.
abbrev pub IsDescending : List PolicyTableEntry → Type 0
IsDescending [] = Unit
IsDescending (e ∷ t) =
    All (λ (f : PolicyTableEntry). f.prefix.bits ≤ e.prefix.bits) t × IsDescending t

-- `r` is an entry of the table that contains `ip`, and no entry that does has a longer prefix.
pub record LongestMatch (t : List PolicyTableEntry) (ip : Addr) (r : PolicyTableEntry)
    : Type 0 where
  pub member : Member r t
  pub matches : contains r.prefix ip ≡ true
  pub longest :
      All (λ (e : PolicyTableEntry). contains e.prefix ip ≡ true → e.prefix.bits ≤ r.prefix.bits) t

-- No entry of the table contains `ip`.
abbrev pub NoMatch : List PolicyTableEntry → Addr → Type 0
NoMatch t ip = All (λ (e : PolicyTableEntry). contains e.prefix ip ≡ false) t

classify_loop-cases :
    (t : List PolicyTableEntry) (ip : Addr)
    → IsDescending t
    → LongestMatch t ip (classify_loop t ip) ⊎ (NoMatch t ip × (classify_loop t ip ≡ no_entry))
unfolding classify_loop
classify_loop-cases [] ip d = inr (tt, refl)
classify_loop-cases (e ∷ t) ip d = elim (Bool-cases (contains e.prefix ip)) [
  | inl yes_e ↦ rw yes_e (
      inl (record {
        member = inl refl;
        matches = yes_e;
        longest = (λ _. omega arith, All-map _ _ (λ f le _. le) t d.0);
      }))
  | inr no_e ↦ rw no_e (elim (classify_loop-cases t ip d.1) [
    | inl m ↦
        inl (record { member = inr m.member; matches = m.matches; longest = (λ h. cc, m.longest) })
    | inr (none_t, z) ↦ inr ((refl, none_t), z)
  ])
]

rfc6724policy_table-IsDescending : IsDescending rfc6724policy_table
unfolding rfc6724policy_table
rfc6724policy_table-IsDescending = omega arith

-- An address that can be classified: IPv4, or IPv6 without a zone.
abbrev pub IsUnzoned : Addr → Type 0
IsUnzoned zero_addr = ⊥
IsUnzoned (ipv4 b) = Unit
IsUnzoned (ipv6 b zone) = zone ≡ []

-- `::/0` stands in the table.
not-NoMatch : (ip : Addr) → IsUnzoned ip → ¬ NoMatch rfc6724policy_table (widen ip)
unfolding rfc6724policy_table contains bytes_match
not-NoMatch zero_addr u h = elim u [ ]
not-NoMatch (ipv4 b) u h = let last : true ≡ false = h.1.1.1.1.1.1.1.1.0 in cc
not-NoMatch (ipv6 b []) u h = let last : true ≡ false = h.1.1.1.1.1.1.1.1.0 in cc
not-NoMatch (ipv6 b (z ∷ zone)) u h = cc

-- For every IPv4 address, and every IPv6 address without a zone, `Classify` over the policy table
-- returns an entry of the table that contains the address, and no entry that contains it has a
-- longer prefix.
pub classify-LongestMatch :
    (ip : Addr)
    → IsUnzoned ip
    → LongestMatch rfc6724policy_table (widen ip) (classify rfc6724policy_table ip)
unfolding classify
classify-LongestMatch ip u =
    elim (classify_loop-cases rfc6724policy_table (widen ip) rfc6724policy_table-IsDescending) [
      | inl m ↦ m
      | inr (h, _) ↦ absurd (not-NoMatch ip u h)
    ]

-- Every IPv4 address has precedence 35 and label 4.
pub ip_attr_of-ipv4 :
    (b : Bytes)
    → IsBytes 4 b
    → ((ip_attr_of (ipv4 b)).precedence ≡ 35) × ((ip_attr_of (ipv4 b)).label ≡ 4)
unfolding ip_attr_of contains
ip_attr_of-ipv4 (w ∷ x ∷ y ∷ z ∷ []) h = (refl, refl)
ip_attr_of-ipv4 _ h = absurd (omega arith)

-- The entry for `::ffff:0:0/96` contains only IPv4-mapped addresses.
bytes_match_mapped :
    (b : Bytes)
    → bytes_match 96 mapped16 b ≡ true
    → length b ≡ 16
    → text_eq (take 12 b) mapped_prefix ≡ true
unfolding bytes_match
bytes_match_mapped (b0 ∷ b1 ∷ b2 ∷ b3 ∷ b4 ∷ b5 ∷ b6 ∷ b7 ∷ b8 ∷ b9 ∷ ba ∷ bb ∷ b) h e =
    ground arith
bytes_match_mapped _ h e = absurd (omega arith)

-- Only the entry for IPv4 addresses has precedence 35.
precedence_told :
    (r : PolicyTableEntry)
    → Member r rfc6724policy_table
    → r.precedence ≡ 35
    → r.prefix ≡ record { addr = addr_from16 mapped16; bits = 96 }
unfolding rfc6724policy_table
precedence_told r (inl e) p = cc
precedence_told r (inr (inl e)) p = ap (λ (x : PolicyTableEntry). x.prefix) e
precedence_told r (inr (inr (inl e))) p = cc
precedence_told r (inr (inr (inr (inl e)))) p = cc
precedence_told r (inr (inr (inr (inr (inl e))))) p = cc
precedence_told r (inr (inr (inr (inr (inr (inl e)))))) p = cc
precedence_told r (inr (inr (inr (inr (inr (inr (inl e))))))) p = cc
precedence_told r (inr (inr (inr (inr (inr (inr (inr (inl e)))))))) p = cc
precedence_told r (inr (inr (inr (inr (inr (inr (inr (inr (inl e))))))))) p = cc
precedence_told r (inr (inr (inr (inr (inr (inr (inr (inr (inr e))))))))) p = elim e [ ]

-- The precedence of an IPv6 address that is not IPv4-mapped is another.
pub ip_attr_of-ipv6 :
    (b : Bytes)
    → IsBytes 16 b
    → text_eq (take 12 b) mapped_prefix ≡ false
    → (ip_attr_of (ipv6 b [])).precedence ≢ 35
ip_attr_of-ipv6 b h m p =
    let found = classify-LongestMatch (ipv6 b []) refl in
    let entry = precedence_told _ found.member (unfold ip_attr_of in p) in
    let in_mapped = rw entry at found.matches in
    cc (bytes_match_mapped b (unfold contains in in_mapped) h.0)
