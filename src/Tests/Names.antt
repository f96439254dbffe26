-- ===== src/Tests/Names.antt =====
-- The name and the domain of a machine.
use getresolvd.Tests.Samples.{any_ip}
use getresolvd.Tests.Configs.{hosts_file}
use getresolvd.Base.{ℕ, suc, [], ◌∷◌, ◌≡◌, refl, codes, ◌⊎◌, trim_space, fields}
use getresolvd.Errors.{deadline_exceeded, ok, err}
use getresolvd.Deps.Sample.{sample_names}
use getresolvd.Hostsfile.{matches, read_names, decode}
use getresolvd.Fqdn.{System, hostname, err_fqdn_not_found, from_hosts, from_lookup, domain}
use getresolvd.Fqdn.Tried.{NotFound}
use getresolvd.Fqdn.Missing.{hostname-NotFound}
use getresolvd.Fqdn.Domains.{Outcome, domain-Outcome}

-- A machine whose hosts file names it.
abbrev machine : System ℕ
machine = record {
  os_hostname = λ w. (ok (codes "www"), suc w);
  open_hosts = λ w. (ok hosts_file, suc w);
  lookup_cname = λ _ w. (err deadline_exceeded, suc w);
  lookup_ip = λ _ w. (err deadline_exceeded, suc w);
  lookup_addr = λ _ w. (err deadline_exceeded, suc w);
}

-- A machine that has one address, without a name.
abbrev unnamed : System ℕ
unnamed = record machine {
  os_hostname = λ w. (ok (codes "other.example"), suc w);
  lookup_cname = λ _ w. (ok [], suc w);
  lookup_ip = λ _ w. (ok (codes "192.0.2.9" ∷ []), suc w);
}

hostname-NotFound_example :
    (unnamed.os_hostname 0 ≡ (err err_fqdn_not_found, 5))
    ⊎ ((err_fqdn_not_found ≡ err_fqdn_not_found) × NotFound sample_names any_ip unnamed 0 5)
unfolding hostname from_hosts from_lookup matches decode trim_space fields read_names
hostname-NotFound_example =
    hostname-NotFound sample_names any_ip unnamed 0 5 err_fqdn_not_found refl

domain-Outcome_example : Outcome sample_names any_ip machine 0 (ok (codes "."), 2)
unfolding domain hostname from_hosts matches decode trim_space fields read_names
domain-Outcome_example = domain-Outcome sample_names any_ip machine 0
