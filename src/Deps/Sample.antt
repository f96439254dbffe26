-- ===== src/Deps/Sample.antt =====
-- Concrete instances of the parameters, which have the properties that the theorems ask for.
use getresolvd.Base.{
  Member-All, All-Member, ℕ, suc, ◌+◌, Bool, true, List, [], ◌∷◌, ◌++◌, ◌≡◌, refl, arith, some,
  none, map, Text, codes, text_eq, ends_with_dot, if◌then◌else◌, Bool-cases, inl, inr, leb, ◌&&◌,
  ◌||◌, not, All, Member, keep, &&_split, text_eq_refl,
}
use getresolvd.Netip.{Addr, zero_addr, ipv4, ipv6, is4, is6, unmap}
use getresolvd.Deps.{
  is_clearly_of, FilterComplete, DnsNames, NamesLawful, Filter, FilterLawful, IsOfNetwork, net_ip4,
  net_ip6, ParseAddr,
}
use getresolvd.Errors.{Merge, filled}
use getresolvd.Errors.Laws.{MergeFills}
use getresolvd.AddrSelect.Sort.{Dialer, udp_addr}
use getresolvd.Shuffle.{Rand, RandLawful}

-- Lower case, in ASCII.
abbrev lower_code : ℕ → ℕ
lower_code c = if leb b'A' c && leb c b'Z' then c + 32 else c

abbrev lower : Text → Text
lower s = map lower_code s

lower_code_idem : (c : ℕ) → lower_code (lower_code c) ≡ lower_code c
lower_code_idem c = ground arith

lower_idem : (s : Text) → lower (lower s) ≡ lower s
lower_idem [] = refl
lower_idem (c ∷ s) = rw (lower_code_idem c, lower_idem s)

abbrev fqdn_of : Text → Text
fqdn_of s = if ends_with_dot s then s else s ++ codes "."

dot_added : (s : Text) → ends_with_dot (s ++ codes ".") ≡ true
dot_added [] = refl
dot_added (c ∷ []) = refl
dot_added (c ∷ d ∷ s) = dot_added (d ∷ s)

dot_kept : (s : Text) → ends_with_dot s ≡ true → ends_with_dot (lower s) ≡ true
dot_kept [] h = h
dot_kept (c ∷ []) h = ground arith
dot_kept (c ∷ d ∷ s) h = dot_kept (d ∷ s) h

fqdn_of-dot : (s : Text) → ends_with_dot (fqdn_of s) ≡ true
fqdn_of-dot s = elim (Bool-cases (ends_with_dot s)) [ inl h ↦ rw h h | inr h ↦ rw h (dot_added s) ]

abbrev pub sample_names : DnsNames
sample_names = record {
  fqdn = fqdn_of;
  canonical_name = λ s. lower (fqdn_of s);
  split_domain_name = λ s. s ∷ [];
  is_domain_name = λ s. true;
}

pub sample_names_lawful : NamesLawful sample_names
sample_names_lawful = record {
  fqdn_idem = λ s. rw (fqdn_of-dot s) refl;
  canonical_idem = λ s. rw (dot_kept (fqdn_of s) (fqdn_of-dot s)) (lower_idem (fqdn_of s));
  fqdn-canonical = λ s. rw (dot_kept (fqdn_of s) (fqdn_of-dot s)) refl;
}

-- Whether an address may be given for a network.
abbrev suits : Text → Addr → Bool
suits n a = (not (text_eq n net_ip4) || is4 (unmap a)) && (not (text_eq n net_ip6) || is6 a)

abbrev pub sample_filter : Filter
sample_filter addrs n = keep (suits n) addrs

suits_lem : (n : Text) (a : Addr) → suits n a ≡ true → IsOfNetwork n a
suits_lem n a h =
    let (four, six) =
      &&_split (not (text_eq n net_ip4) || is4 (unmap a)) (not (text_eq n net_ip6) || is6 a) h in
    (λ e. rw (e, text_eq_refl net_ip4) at four, λ e. rw (e, text_eq_refl net_ip6) at six)

keep-suits : (addrs : List Addr) (n : Text) → All (IsOfNetwork n) (keep (suits n) addrs)
keep-suits [] n = tt
keep-suits (a ∷ addrs) n = elim (Bool-cases (suits n a)) [
  | inl h ↦ rw h (suits_lem n a h, keep-suits addrs n)
  | inr h ↦ rw h (keep-suits addrs n)
]

keep-Member :
    (p : Addr → Bool) (addrs : List Addr) (a : Addr) → Member a (keep p addrs) → Member a addrs
keep-Member p [] a m = m
keep-Member p (b ∷ addrs) a m = elim (Bool-cases (p b)) [
  | inl h ↦ elim (rw h at m) [ inl e ↦ inl e | inr l ↦ inr (keep-Member p addrs a l) ]
  | inr h ↦ inr (keep-Member p addrs a (rw h at m))
]

pub sample_filter_lawful : FilterLawful sample_filter
sample_filter_lawful = record {
  of_network = keep-suits;
  keeps = λ addrs n a. keep-Member (suits n) addrs a;
}

is4-unmap : (a : Addr) → is4 a ≡ true → is4 (unmap a) ≡ true
unfolding unmap
is4-unmap zero_addr h = h
is4-unmap (ipv4 b) h = refl
is4-unmap (ipv6 b z) h = cc

is_clearly_of-suits : (n : Text) (a : Addr) → is_clearly_of n a ≡ true → suits n a ≡ true
is_clearly_of-suits n a h =
    let (four, six) =
      &&_split (not (text_eq n net_ip4) || is4 a)
        (not (text_eq n net_ip6) || (is6 a && not (is4 (unmap a)))) h in
    let mapped = is4-unmap a in ground arith

All-keep :
    (p q : Addr → Bool)
    → ((a : Addr) → p a ≡ true → q a ≡ true)
    → (addrs : List Addr) → All (λ a. Member a (keep q addrs)) (keep p addrs)
All-keep p q f [] = tt
All-keep p q f (b ∷ addrs) =
    let rest = All-Member (keep p addrs) (keep q (b ∷ addrs)) (λ a m.
      later a
        (Member-All (λ a. Member a (keep q addrs)) a (keep p addrs) (All-keep p q f addrs) m)) in
    elim (Bool-cases (p b)) [ inl h ↦ rw h (rw (f b h) (inl refl), rest) | inr h ↦ rw h rest ]
  where
    later : (a : Addr) → Member a (keep q addrs) → Member a (keep q (b ∷ addrs))
    later a m = elim (Bool-cases (q b)) [ inl h ↦ rw h (inr m) | inr h ↦ rw h m ]

pub sample_filter_complete : FilterComplete sample_filter
sample_filter_complete addrs n h =
    All-keep (is_clearly_of n) (suits n) (λ a c. is_clearly_of-suits n a c) addrs

-- Addresses of the documentation's networks.
abbrev pub first_v4 : Addr
first_v4 = ipv4 (192 ∷ 0 ∷ 2 ∷ 1 ∷ [])

abbrev pub second_v4 : Addr
second_v4 = ipv4 (198 ∷ 51 ∷ 100 ∷ 7 ∷ [])

abbrev pub some_v6 : Addr
some_v6 = ipv6 (0x20 ∷ 0x01 ∷ 0x0d ∷ 0xb8 ∷ 0 ∷ 0 ∷ 0 ∷ 0 ∷ 0 ∷ 0 ∷ 0 ∷ 0 ∷ 0 ∷ 0 ∷ 0 ∷ 1 ∷ []) []

-- Two literals are known.
abbrev pub sample_parse : ParseAddr
sample_parse s =
    if text_eq s (codes "192.0.2.1")
    then some first_v4
    else if text_eq s (codes "2001:db8::1")
    then some some_v6
    else none

abbrev pub sample_merge : Merge
sample_merge dst src = some (filled dst src)

pub sample_merge_fills : MergeFills sample_merge
sample_merge_fills dst src = refl

-- The worlds count calls.
abbrev pub sample_dialer : Dialer ℕ
sample_dialer = record {
  dial = λ _ _ w. (some (udp_addr (192 ∷ 0 ∷ 2 ∷ 9 ∷ [])), suc w);
  host_port = λ _ port. port;
}

abbrev pub sample_rand : Rand ℕ
sample_rand = record { int = λ n w. (some 0, suc w) }

pub sample_rand_lawful : RandLawful sample_rand
sample_rand_lawful = record { draw = λ n w h. (0, refl, h) }
