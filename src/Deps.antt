-- ===== src/Deps.antt =====
-- Code outside this repository, as parameters: names by github.com/miekg/dns, address texts by
-- Go's net and net/netip, and address lists by github.com/noisysockets/util.
pub mod Sample
use getresolvd.Base.{
  Bool, true, not, ◌&&◌, keep, List, ◌≡◌, Option, Text, codes, All, Member, ◌||◌, text_eq,
}
use getresolvd.Netip.{Addr, is4, is6, unmap}
use getresolvd.Errors.{Error}

-- Package github.com/miekg/dns.
pub record DnsNames : Type 0 where
  pub fqdn : Text → Text
  pub canonical_name : Text → Text
  pub split_domain_name : Text → List Text
  pub is_domain_name : Text → Bool

-- What that package documents: a fully qualified name is left alone by `Fqdn`, and `CanonicalName`
-- is the lower-case form of the fully qualified name.
pub record NamesLawful (n : DnsNames) : Type 0 where
  pub fqdn_idem : (s : Text) → n.fqdn (n.fqdn s) ≡ n.fqdn s
  pub canonical_idem : (s : Text) → n.canonical_name (n.canonical_name s) ≡ n.canonical_name s
  pub fqdn-canonical : (s : Text) → n.fqdn (n.canonical_name s) ≡ n.canonical_name s

abbrev pub net_ip : Text
net_ip = codes "ip"

abbrev pub net_ip4 : Text
net_ip4 = codes "ip4"

abbrev pub net_ip6 : Text
net_ip6 = codes "ip6"

-- `network == "ip" || network == "ip4" || network == "ip6"`.
abbrev pub is_network : Text → Bool
is_network n = text_eq n net_ip || (text_eq n net_ip4 || text_eq n net_ip6)

-- The addresses that the interface of a resolver promises for a network.
abbrev pub IsOfNetwork : Text → Addr → Type 0
IsOfNetwork n a = (n ≡ net_ip4 → is4 (unmap a) ≡ true) × (n ≡ net_ip6 → is6 a ≡ true)

-- `address.FilterByNetwork` of github.com/noisysockets/util.
abbrev pub Filter : Type 0
Filter = List Addr → Text → List Addr

-- What the code relies on: the result is part of the list, and of the network asked for.
pub record FilterLawful (f : Filter) : Type 0 where
  pub of_network : (addrs : List Addr) (n : Text) → All (IsOfNetwork n) (f addrs n)
  pub keeps : (addrs : List Addr) (n : Text) (a : Addr) → Member a (f addrs n) → Member a addrs

-- The addresses that are of a network, whatever is made of IPv4 addresses in IPv6 form.
abbrev pub is_clearly_of : Text → Addr → Bool
is_clearly_of n a =
    (not (text_eq n net_ip4) || is4 a)
    && (not (text_eq n net_ip6) || (is6 a && not (is4 (unmap a))))

-- What a filter by network is documented to do: it drops only addresses of the other family.
abbrev pub FilterComplete : Filter → Type 0
FilterComplete f =
    (addrs : List Addr) (n : Text)
    → is_network n ≡ true
    → All (λ a. Member a (f addrs n)) (keep (is_clearly_of n) addrs)

-- `netip.ParseAddr`; `none` is its error.
abbrev pub ParseAddr : Type 0
ParseAddr = Text → Option Addr

-- What `bufio.Scanner` yields from a reader: the lines, then `scanner.Err()`.
pub record Scan : Type 0 where
  pub lines : List Text
  pub failure : Option Error
