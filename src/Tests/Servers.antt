-- ===== src/Tests/Servers.antt =====
-- Queries to a server, and addresses made from its answers.
use getresolvd.Tests.Samples.{replying, a_server}
use getresolvd.Base.{
  ◌⊎◌, if◌then◌else◌, text_eq, Perm, ℕ, suc, List, [], ◌∷◌, ◌≡◌, refl, codes, arith,
}
use getresolvd.Netip.{Addr, ipv6, Bytes}
use getresolvd.Errors.{ok}
use getresolvd.Deps.{net_ip4, net_ip6}
use getresolvd.Deps.Sample.{sample_merge, sample_dialer, first_v4, some_v6}
use getresolvd.Resolver.{Resolver}
use getresolvd.Dns.Query.{dialed}
use getresolvd.Dns.Laws.{Closes, HandshakePanics, dialed-Closes}
use getresolvd.Dns64.{dns64}
use getresolvd.Dns64.Answers.{four, translated, dns64_answers}

dialed-Closes_example :
    let out = dialed replying sample_merge a_server (codes "host.example.") 1 (ok 7, 1) in
    Closes replying sample_merge a_server 7 out
    ⊎ HandshakePanics replying sample_merge a_server 7 1 out
dialed-Closes_example = dialed-Closes replying sample_merge a_server (codes "host.example.") 1 7 1

-- 64:ff9b::/96
abbrev well_known : Bytes
well_known = 0 ∷ 0x64 ∷ 0xff ∷ 0x9b ∷ 0 ∷ 0 ∷ 0 ∷ 0 ∷ 0 ∷ 0 ∷ 0 ∷ 0 ∷ 0 ∷ 0 ∷ 0 ∷ 0 ∷ []

abbrev both_kinds : Resolver ℕ
both_kinds network host w = (ok (first_v4 ∷ some_v6 ∷ []), suc w)

dns64_answers_example :
    (addrs : List Addr) × ((dns64 sample_dialer
        (ipv6 well_known [])
        both_kinds
        net_ip6
        (codes "host.example")
        0).0
      ≡ ok addrs)
    × (if text_eq net_ip6 net_ip4
        then addrs ≡ four (first_v4 ∷ some_v6 ∷ [])
        else Perm addrs (translated well_known net_ip6 (first_v4 ∷ some_v6 ∷ [])))
dns64_answers_example =
    dns64_answers well_known [] sample_dialer both_kinds net_ip6 (codes "host.example") 0 1
      (first_v4 ∷ some_v6 ∷ []) (omega arith) refl
