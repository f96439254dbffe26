-- ===== src/Tests/Files.antt =====
-- The hosts file and /etc/resolv.conf.
use getresolvd.Tests.Samples.{any_ip, to_first, with_port_53}
use getresolvd.Base.{
  some, ◌⊎◌, [], ◌∷◌, ◌≡◌, ◌≢◌, refl, arith, none, codes, trim_space, fields, pos, neg_part, ◌≤◌,
}
use getresolvd.Errors.{deadline_exceeded, err, dns_error}
use getresolvd.Deps.{Scan, net_ip}
use getresolvd.Deps.Sample.{
  sample_names, sample_names_lawful, sample_filter, sample_parse, sample_merge, sample_merge_fills,
  sample_dialer, first_v4,
}
use getresolvd.Hostsfile.{read_names, decode}
use getresolvd.Hosts.{NameMap, hosts, hosts_lookup}
use getresolvd.Hosts.Laws.{not_found, hosts_not_canonical}
use getresolvd.Dnsconfig.Options.{timeout_of}
use getresolvd.Dnsconfig.Laws.{IsValid, ScanFails, read_always, timeout_of_overflow}
use getresolvd.Dnsconfig.Unix.{Opened, opened, read}

timeout_of_overflow_example : 1 ≤ neg_part (timeout_of (pos 10_000_000_000))
timeout_of_overflow_example = timeout_of_overflow 10_000_000_000 (omega arith) (omega arith)

abbrev hosts_file : Scan
hosts_file = record { lines = codes "192.0.2.1 Www # web" ∷ codes "# note" ∷ []; failure = none }

abbrev www_map : NameMap
www_map = (codes "www.", first_v4 ∷ []) ∷ []

hosts_not_canonical_example :
    hosts_lookup sample_names sample_merge sample_filter sample_dialer www_map net_ip
      (codes "Www")
      0
    ≡ (err (dns_error (not_found (codes "Www"))), 0)
unfolding hosts decode trim_space fields read_names
hosts_not_canonical_example =
    hosts_not_canonical sample_names sample_names_lawful to_first sample_merge sample_filter
      sample_dialer sample_merge_fills any_ip hosts_file www_map refl net_ip (codes "Www") 0
      (λ e. cc)

abbrev resolv_conf : Scan
resolv_conf = record {
  lines = codes "nameserver 192.0.2.1" ∷ codes "options ndots:20 timeout:0" ∷ codes "; note" ∷ [];
  failure = none;
}

-- The scanner fails after these lines.
abbrev broken : Opened
broken = opened 7 (record resolv_conf { failure = some deadline_exceeded })

read_always_example :
    let (c, failure) = read sample_names sample_parse with_port_53 (some (codes "host")) broken in
    (failure ≡ some deadline_exceeded) × IsValid c × ((c.servers ≢ []) ⊎ ScanFails broken)
read_always_example =
    read_always sample_names sample_parse with_port_53 (some (codes "host")) broken
