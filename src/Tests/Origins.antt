-- ===== src/Tests/Origins.antt =====
-- A system resolver that gets an answer from its server.
use getresolvd.Tests.Samples.{replying, sample_env, one_server, or_none}
use getresolvd.Tests.Samples.{with_port_53}
use getresolvd.Tests.Configs.{
  some_settings, some_settings-IsPrintable, some_lines, some_lines-IsPrintable,
}
use getresolvd.Base.{ℕ, [], ◌∷◌, ◌≡◌, refl, some, none, Option, codes, trim_space, fields}
use getresolvd.Netip.{unmap}
use getresolvd.Netip.{Addr}
use getresolvd.Errors.{err}
use getresolvd.Errors.{Error, ok, extend_dns_error, is_temporary}
use getresolvd.Deps.{Scan, net_ip4}
use getresolvd.Deps.Sample.{sample_filter_lawful, sample_filter_complete, first_v4}
use getresolvd.Resolver.{Resolver}
use getresolvd.Literal.{literal}
use getresolvd.Sequential.{sequential}
use getresolvd.Hostsfile.{decode, read_names}
use getresolvd.Hosts.{NameMap, hosts, hosts_lookup}
use getresolvd.Retry.{retry}
use getresolvd.Retry.Sample.{sample_retry_returns}
use getresolvd.Dnsconfig.{Config}
use getresolvd.Dns.{dns}
use getresolvd.Dns.Query.{try_one_name, trim_tls}
use getresolvd.Dns.Lookup.{dns_lookup, append_answers, q_types}
use getresolvd.System.{
  Env, composed, retried, balanced, attempts_of, server_resolvers, hosts_reader, system,
}
use getresolvd.Dnsconfig.Unix.{opened, read}
use getresolvd.Dnsconfig.Unix.Settings.{lines_of}
use getresolvd.Hosts.Written.{file_of}
use getresolvd.System.Outcomes.{Outcome, system-Outcome}
use getresolvd.System.Written.{PortsLawful, Answers, Complete, system-lines_of}
use getresolvd.Deps.Sample.{sample_rand_lawful}
use getresolvd.Retry.Sample.{sample_retry_fails}
use getresolvd.Resolver.{NeverFails}
use getresolvd.Errors.{Result}
use getresolvd.System.{server_resolver}
use getresolvd.Base.{List, inl, sym, ap, ◌∙◌}
use getresolvd.System.Working.{dns_of, system-NeverFails}
use getresolvd.System.Origins.{Origin, system-Origin}

abbrev replying_env : Env ℕ
replying_env = record sample_env { net = replying }

abbrev www_file : Scan
www_file = record { lines = codes "192.0.2.1 www" ∷ []; failure = none }

abbrev www_map : NameMap
www_map = (codes "www.", first_v4 ∷ []) ∷ []

abbrev a_system : Resolver ℕ
a_system =
    composed replying_env one_server
      (or_none (server_resolvers replying_env one_server one_server.servers)) www_map

system-Origin_example :
    (conf : Config) × (reader : Scan) × (m : NameMap) × (◌≡◌ {A = Config × Option Error}
      (one_server, none)
      (conf, none))
    × (hosts_reader replying_env none (ok www_file) ≡ ok reader)
    × (hosts replying_env.names replying_env.to_addr replying_env.resolve_ip_addr (some reader)
        ≡ ok m)
    × Origin replying_env conf m net_ip4 (codes "web") 0 (first_v4 ∷ [])
unfolding system hosts hosts_lookup hosts_reader decode trim_space fields read_names literal unmap
    composed retried balanced attempts_of server_resolvers sequential retry dns dns_lookup
    try_one_name trim_tls append_answers q_types extend_dns_error is_temporary
system-Origin_example =
    system-Origin replying_env sample_retry_returns (one_server, none) none (ok www_file) a_system
      refl net_ip4 (codes "web") 0 3 (first_v4 ∷ []) refl

system-Outcome_example : Outcome replying_env (one_server, none) none (ok www_file) (ok a_system)
unfolding system hosts hosts_reader decode trim_space fields read_names
system-Outcome_example = system-Outcome replying_env (one_server, none) none (ok www_file)

with_port_53_lawful : PortsLawful replying_env with_port_53
with_port_53_lawful = record {
  joined = λ v a e. (record { addr = first_v4; port = 53 }, refl);
  defaults = ((_, refl), ((_, refl), tt));
}

system-lines_of_example :
    (r : Resolver ℕ) × (system replying_env
        (read replying_env.names replying_env.parse_addr with_port_53
          (some (codes "host"))
          (opened 7 (record { lines = lines_of some_settings; failure = none })))
        (some (codes "hosts", ok (file_of some_lines)))
        (ok www_file)
      ≡ ok r)
    × (out : Answers replying_env r net_ip4 (codes "www") 0 (first_v4 ∷ [])) × Complete replying_env
        net_ip4
        (first_v4 ∷ [])
        out.addrs
unfolding literal
system-lines_of_example =
    system-lines_of replying_env with_port_53 with_port_53_lawful sample_filter_lawful
      sample_filter_complete (some (codes "host")) 7 some_settings some_settings-IsPrintable
      some_lines some_lines-IsPrintable (tt, ((first_v4, refl), (tt, tt))) (codes "hosts")
      (ok www_file) net_ip4 (codes "www") 0 0 _ first_v4 [] refl refl refl

abbrev the_server : Resolver ℕ
the_server = dns_of replying_env one_server (record { addr = first_v4; port = 53 })

server_answers : (w : ℕ) → (the_server net_ip4 (codes "web") w).0 ≡ ok (first_v4 ∷ [])
unfolding server_resolver dns_lookup dns try_one_name trim_tls append_answers q_types
server_answers w = refl

server_works : NeverFails the_server net_ip4 (codes "web")
server_works w w' e q =
    let one : ◌≡◌ {A = Result (List Addr)} (ok (first_v4 ∷ [])) (err e) =
      sym (server_answers w) ∙ ap (λ (p : Result (List Addr) × ℕ). p.0) q in
    cc one

system-NeverFails_example : NeverFails a_system net_ip4 (codes "web")
unfolding system hosts hosts_reader decode trim_space fields read_names
system-NeverFails_example =
    system-NeverFails replying_env sample_rand_lawful sample_retry_fails (λ w. refl)
      (one_server, none) none (ok www_file) a_system one_server refl refl (codes "192.0.2.1:53")
      (record { addr = first_v4; port = 53 }) (inl refl) refl net_ip4 (codes "web") (codes "web")
      (inl refl) server_works
