-- ===== src/Tests/Lookups.antt =====
-- Resolvers that are combined, on lookups that count their calls.
use getresolvd.Base.{
  ℕ, zero, suc, List, [], ◌∷◌, ◌≡◌, refl, Text, codes, pos, true, false, arith, Perm, ◌⊎◌, map,
}
use getresolvd.Netip.{unmap}
use getresolvd.Errors.{Error, dns_error, empty_dns_error, ok, err, is_temporary}
use getresolvd.Deps.{net_ip, net_ip4, is_network}
use getresolvd.Deps.Sample.{
  sample_names, sample_filter, sample_filter_lawful, sample_parse, first_v4, sample_rand,
  sample_rand_lawful,
}
use getresolvd.Resolver.{Resolver}
use getresolvd.Sequential.{sequential}
use getresolvd.Sequential.Laws.{Stops, Fails, sequential-first}
use getresolvd.RoundRobin.{round_robin}
use getresolvd.RoundRobin.Laws.{round_robin-sequential}
use getresolvd.Retry.{retry}
use getresolvd.Retry.Sample.{sample_retry, sample_retry_lawful}
use getresolvd.Retry.Laws.{Failing, start, again, retry-Failing}
use getresolvd.Relative.{RelativeConf, candidates_of, relative}
use getresolvd.Relative.Laws.{asking, relative-sequential, relative_no_candidate}
use getresolvd.Deps.{DnsNames}
use getresolvd.Literal.{literal, literal_addrs}
use getresolvd.Literal.Laws.{IsAnswer, literal-ok}

abbrev host : Text
host = codes "host.example"

abbrev timed_out : Error
timed_out = dns_error (record empty_dns_error { name = host; is_timeout = true })

abbrev giving : Resolver ℕ
giving network name w = (ok (first_v4 ∷ []), suc w)

-- The first call fails.
abbrev flaky : Resolver ℕ
flaky network name zero = (err timed_out, 1)
flaky network name (suc w) = (ok (first_v4 ∷ []), suc (suc w))

abbrev failing : Resolver ℕ
failing network name w = (err timed_out, suc w)

abbrev three : List (Resolver ℕ)
three = failing ∷ giving ∷ failing ∷ []

sequential-first_example :
    Stops net_ip host three 0 (sequential three net_ip host 0)
    ⊎ Fails net_ip host three 0 [] (sequential three net_ip host 0)
sequential-first_example = sequential-first net_ip host three 0

round_robin-sequential_example :
    (order : List (Resolver ℕ)) × (w' : ℕ) × Perm order three
    × (round_robin sample_rand three net_ip host 0 ≡ sequential order net_ip host w')
round_robin-sequential_example =
    round_robin-sequential sample_rand sample_rand_lawful three net_ip host 0

once_failing : Failing sample_retry sample_retry_lawful flaky net_ip host 1 0 1
unfolding is_temporary
once_failing = again refl refl refl (start refl)

retry-Failing_example : retry sample_retry flaky (pos 3) net_ip host 0 ≡ (ok (first_v4 ∷ []), 2)
retry-Failing_example =
    retry-Failing sample_retry sample_retry_lawful flaky net_ip host 3 (omega arith) (omega arith)
      once_failing (first_v4 ∷ []) refl

abbrev search_conf : RelativeConf
search_conf = record { search = codes "example.com" ∷ codes "example.org" ∷ []; n_dots = pos 1 }

relative-sequential_example :
    relative sample_names flaky search_conf net_ip (codes "www") 0
    ≡ sequential
        (map (asking flaky) (candidates_of sample_names search_conf (codes "www")))
        net_ip
        (codes "www")
        0
relative-sequential_example =
    relative-sequential sample_names flaky search_conf net_ip (codes "www") 0

-- No name is a valid domain name.
abbrev strict_names : DnsNames
strict_names = record sample_names { is_domain_name = λ s. false }

relative_no_candidate_example :
    relative strict_names failing search_conf net_ip (codes "www") 0 ≡ (ok [], 0)
relative_no_candidate_example =
    relative_no_candidate strict_names failing search_conf net_ip (codes "www") 0 refl
      (refl, (refl, tt))

abbrev clock : ℕ
clock = 5

literal-ok_example :
    (clock ≡ clock)
    × (is_network net_ip4 ≡ true)
    × IsAnswer net_ip4 (first_v4 ∷ [])
    × ((first_v4 ∷ [])
        ≡ sample_filter
            (literal_addrs sample_names sample_parse sample_filter (codes "192.0.2.1"))
            net_ip4)
unfolding literal unmap
literal-ok_example =
    literal-ok sample_names sample_parse sample_filter sample_filter_lawful net_ip4
      (codes "192.0.2.1") clock clock (first_v4 ∷ []) refl
