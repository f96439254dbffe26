-- ===== src/Dns.antt =====
-- dns.go: queries to a DNS server.
pub mod Query
pub mod Lookup
pub mod Group
pub mod Laws
use getresolvd.Base.{
  ℕ, Bool, true, false, not, ◌&&◌, List, [], ◌∷◌, Option, none, some, Text, codes, text_eq,
  if◌then◌else◌, ◌==◌, ℤ, pos, ◌*◌,
}
use getresolvd.Netip.{Addr}

-- `netip.AddrPort`.
pub record AddrPort : Type 0 where
  pub addr : Addr
  pub port : ℕ

-- The values of `DNSTransport`.
abbrev pub dns_transport_udp : Text
dns_transport_udp = codes "udp"

abbrev pub dns_transport_tcp : Text
dns_transport_tcp = codes "tcp"

abbrev pub dns_transport_tls : Text
dns_transport_tls = codes "tcp-tls"

-- `DNSResolverConfig`; nil pointers are `none`. The dialer and the TLS configuration belong to the
-- network of Dns/Query.
pub record DnsResolverConfig : Type 0 where
  pub server : AddrPort
  pub transport : Option Text
  pub timeout : Option ℤ
  pub single_request : Option Bool

-- `dnsResolver`.
pub record DnsResolver : Type 0 where
  pub server : AddrPort
  pub transport : Text
  pub timeout : ℤ
  pub single_request : Bool

abbrev or_value {ℓ} : {A : Type ℓ} → Option A → A → A
or_value (some a) d = a
or_value none d = d

abbrev is_tls : Option Text → Bool
is_tls (some t) = text_eq t dns_transport_tls
is_tls none = false

-- The server with its port set.
unfoldable pub with_port : AddrPort → Option Text → AddrPort
with_port s transport =
    if s.port == 0
    then (if is_tls transport then record s { port = 853 } else record s { port = 53 })
    else s

-- `DNS`.
unfoldable pub dns : DnsResolverConfig → DnsResolver
unfolding with_port
dns conf = record {
  server = with_port conf.server conf.transport;
  transport = or_value conf.transport dns_transport_udp;
  timeout = or_value conf.timeout (pos (5 * 1_000_000_000));
  single_request = or_value conf.single_request false;
}
