-- ===== src/Tests/Configs.antt =====
-- The hosts file in the map, and the configuration from Windows and from a written resolv.conf.
use getresolvd.Tests.Samples.{any_ip, to_first, with_port_53}
use getresolvd.Base.{
  All, some, map, true, false, List, [], ◌∷◌, ◌++◌, ◌≡◌, refl, arith, none, Text, codes, trim_space,
  fields,
}
use getresolvd.Netip.{Addr}
use getresolvd.Errors.{ok, err, deadline_exceeded}
use getresolvd.Deps.{net_ip6, Scan, net_ip}
use getresolvd.Deps.Sample.{
  sample_names, sample_filter, sample_parse, sample_merge, sample_dialer, first_v4, second_v4,
  some_v6,
}
use getresolvd.Hostsfile.{matches, Record, read_names, decode}
use getresolvd.Hostsfile.RoundTrip.{Line, note, blank, line_text, record_of, decode-line_text}
use getresolvd.Hosts.{lookup, NameMap, hosts, hosts_lookup}
use getresolvd.Hosts.Found.{Lists, hosts_lookup_found}
use getresolvd.Hosts.Contents.{file_ips, to_addrs, entry, hosts_lookup-file}
use getresolvd.Dnsconfig.{Config, initial}
use getresolvd.Dnsconfig.Windows.{Adapter, adapters_of, or_default_ns}
use getresolvd.Dnsconfig.Windows.Laws.{all_dns, servers_of, read-servers_of}
use getresolvd.Dnsconfig.Unix.{opened}
use getresolvd.Dnsconfig.Unix.Settings.{Settings, lines_of}
use getresolvd.Dnsconfig.Unix.RoundTrip.{IsPrintable, config_of, read-lines_of}

abbrev pub hosts_file : Scan
hosts_file = record {
  lines = codes "192.0.2.1 www" ∷ codes "# note" ∷ codes "192.0.2.1 other Www" ∷ [];
  failure = none;
}

abbrev two_names : NameMap
two_names = (codes "www.", first_v4 ∷ first_v4 ∷ []) ∷ (codes "other.", first_v4 ∷ []) ∷ []

hosts_lookup-file_example :
    (records : List Record) × (addrs : List Addr) × (decode sample_names any_ip hosts_file
      ≡ ok records)
    × (to_addrs sample_names to_first (file_ips sample_names to_first (codes "www.") records)
        ≡ ok addrs)
    × (hosts_lookup sample_names sample_merge sample_filter sample_dialer two_names net_ip
          (codes "www")
          0
        ≡ hosts_lookup sample_names sample_merge sample_filter sample_dialer
            (entry sample_names to_first (codes "www.") addrs)
            net_ip
            (codes "www")
            0)
unfolding hosts decode trim_space fields read_names
hosts_lookup-file_example =
    hosts_lookup-file sample_names to_first sample_merge sample_filter sample_dialer any_ip
      hosts_file two_names net_ip (codes "www") 0 refl

-- A host with an IPv4 address only, asked for an IPv6 one.
hosts_lookup_found_example :
    (addrs : List Addr) × ((hosts_lookup sample_names sample_merge sample_filter sample_dialer
        two_names net_ip6
        (codes "www")
        0).0
      ≡ ok addrs)
    × Lists sample_names sample_merge sample_filter sample_dialer net_ip6
        (sample_filter (first_v4 ∷ first_v4 ∷ []) net_ip6)
        addrs
unfolding lookup
hosts_lookup_found_example =
    hosts_lookup_found sample_names sample_merge sample_filter sample_dialer two_names net_ip6
      (codes "www") 0 (first_v4 ∷ first_v4 ∷ []) refl refl

-- An adapter with two servers, one of fec0::/16, and one that is down.
abbrev an_adapter : Adapter
an_adapter = record { is_up = true; has_gateway = true; dns = ok (first_v4 ∷ some_v6 ∷ []) }

abbrev down : Adapter
down = record { is_up = false; has_gateway = true; dns = ok (second_v4 ∷ []) }

abbrev text_of : Addr → Text
text_of a = codes "192.0.2.1"

read-servers_of_example :
    getresolvd.Dnsconfig.Windows.read text_of with_port_53
      (err deadline_exceeded)
      (ok (an_adapter ∷ down ∷ []))
    ≡ record initial {
      servers = or_default_ns text_of with_port_53 (
          servers_of text_of with_port_53 (
            all_dns (
              adapters_of text_of with_port_53 (err deadline_exceeded)
              ++ adapters_of text_of with_port_53 (ok (an_adapter ∷ down ∷ [])))));
    }
read-servers_of_example =
    read-servers_of text_of with_port_53 (err deadline_exceeded) (ok (an_adapter ∷ down ∷ []))

abbrev pub some_settings : Settings
some_settings = record {
  servers = codes "192.0.2.1" ∷ codes "2001:db8::1" ∷ [];
  search = codes "example." ∷ codes "lan.example." ∷ [];
  lookup = codes "file" ∷ codes "bind" ∷ [];
  n_dots = 2;
  timeout = 30;
  attempts = 4;
  rotate = true;
  single_request = false;
  use_tcp = false;
  trust_ad = true;
  no_reload = false;
}

pub some_settings-IsPrintable : IsPrintable sample_names sample_parse with_port_53 some_settings
some_settings-IsPrintable = record {
  few_servers = omega arith;
  servers_All = ((((λ e. cc), refl), first_v4, refl), ((((λ e. cc), refl), some_v6, refl), tt));
  search_All = ((((λ e. cc), refl), refl, refl), ((((λ e. cc), refl), refl, refl), tt));
  lookup_All = (((λ e. cc), refl), (((λ e. cc), refl), tt));
  ranges = record {
    dots = omega arith;
    some_seconds = omega arith;
    few_seconds = omega arith;
    some_attempts = omega arith;
    few_attempts = omega arith;
  };
}

read-lines_of_example :
    getresolvd.Dnsconfig.Unix.read sample_names sample_parse with_port_53
      (some (codes "host"))
      (opened 7 (record { lines = lines_of some_settings; failure = none }))
    ≡ (config_of sample_names sample_parse with_port_53 (some (codes "host")) 7 some_settings, none)
read-lines_of_example =
    read-lines_of sample_names sample_parse with_port_53 (some (codes "host")) 7 some_settings
      some_settings-IsPrintable

abbrev pub some_lines : List Line
some_lines =
    note (codes " web")
    ∷ Line.entry (codes "192.0.2.1") (codes "www.") (codes "web.example." ∷ [])
        (codes "#" ∷ codes "web" ∷ [])
    ∷ blank
    ∷ []

pub some_lines-IsPrintable :
    All (getresolvd.Hostsfile.RoundTrip.IsPrintable sample_names any_ip) some_lines
unfolding trim_space
some_lines-IsPrintable = (
  refl,
  (
    (
      ((λ e. cc), refl),
      refl,
      ((((λ e. cc), refl), refl, refl, refl), ((((λ e. cc), refl), refl, refl, refl), tt)),
      (refl, (((λ e. cc), refl), (((λ e. cc), refl), tt))),
      record { ip = 192 ∷ 0 ∷ 2 ∷ 1 ∷ []; zone = [] },
      refl,
    ),
    (tt, tt),
  ),
)

decode-line_text_example :
    decode sample_names any_ip (record { lines = map line_text some_lines; failure = none })
    ≡ ok (map (record_of sample_names any_ip) some_lines)
decode-line_text_example = decode-line_text sample_names any_ip some_lines some_lines-IsPrintable
