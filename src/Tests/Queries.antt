-- ===== src/Tests/Queries.antt =====
-- Whole DNS lookups, and the goroutines of a group of queries.
use getresolvd.Tests.Samples.{reply, replying, a_server}
use getresolvd.Base.{
  arith, ℕ, zero, suc, Bool, true, false, List, [], ◌∷◌, ◌≡◌, refl, ◌⊎◌, some, none, codes,
}
use getresolvd.Errors.{
  panic, extend_dns_error, Error, deadline_exceeded, dns_error, Result, ok, err,
}
use getresolvd.Deps.{net_ip4}
use getresolvd.Deps.Sample.{sample_names, sample_merge, sample_merge_fills, sample_dialer, first_v4}
use getresolvd.Dns.Query.{Network, Msg, try_one_name, trim_tls}
use getresolvd.Dns.Query.Causes.{failure, Cause, try_one_name-Cause}
use getresolvd.Dns.Lookup.{in_group, ordered, dns_lookup, append_answers, q_types}
use getresolvd.Dns.Lookup.LastQuery.{Runs}
use getresolvd.Dns.Lookup.Interleavings.{in_group-Runs}
use getresolvd.Dns.Lookup.Answers.{Answered, dns_lookup-ok}
use getresolvd.Dns.Lookup.Failures.{Failure, dns_lookup-Failure}
use getresolvd.Dns.Group.{
  KeepError, KeepsFirst, answered, failed, State, appends, fails, Reach, here, next, start,
}
use getresolvd.Dns.Group.Laws.{Succeeds, FailsFirst, group_outcome}

-- A server that cannot be reached.
abbrev unreachable : Network ℕ
unreachable = record replying { dial = λ _ _ w. (err deadline_exceeded, suc w) }

dns_lookup-ok_example :
    Answered sample_names replying sample_dialer sample_merge a_server false net_ip4
      (codes "host.example")
      0
      (first_v4 ∷ [])
unfolding dns_lookup try_one_name trim_tls append_answers q_types
dns_lookup-ok_example =
    dns_lookup-ok sample_names replying sample_dialer sample_merge a_server false net_ip4
      (codes "host.example") 0 3 (first_v4 ∷ []) refl

abbrev not_reached : Error
not_reached =
    dns_error
      (failure unreachable sample_merge a_server (codes "host.example.") 1 deadline_exceeded true)

try_one_name-Cause_example :
    Cause unreachable sample_merge a_server (codes "host.example.") 1 not_reached
unfolding try_one_name trim_tls extend_dns_error
try_one_name-Cause_example =
    try_one_name-Cause unreachable sample_merge a_server (codes "host.example.") 1
      sample_merge_fills 0 1 not_reached refl

dns_lookup-Failure_example :
    Failure sample_names unreachable sample_dialer sample_merge a_server sample_merge_fills false
      net_ip4
      (codes "host.example")
      0
      not_reached
unfolding dns_lookup try_one_name trim_tls q_types extend_dns_error
dns_lookup-Failure_example =
    dns_lookup-Failure sample_names unreachable sample_dialer sample_merge a_server
      sample_merge_fills false net_ip4 (codes "host.example") 0 1 not_reached refl

-- The first query may succeed, the second may time out, and after that the first may be cancelled.
abbrev MayReply : ℕ → Bool → Result Msg → Type 0
MayReply zero false r = r ≡ ok reply
MayReply zero true r = r ≡ err deadline_exceeded
MayReply (suc i) c r = r ≡ err deadline_exceeded

abbrev keep_first : KeepError
keep_first (some e) e' = some e
keep_first none e' = some e'

keep_first_lawful : KeepsFirst keep_first
keep_first_lawful = record { first = λ e. refl; later = λ e e'. refl }

abbrev one_failed : State
one_failed = record {
  addrs = first_v4 ∷ [];
  queries = answered reply ∷ failed deadline_exceeded ∷ [];
  failure = some deadline_exceeded;
}

abbrev both_types : List ℕ
both_types = 1 ∷ 28 ∷ []

one_fails : Reach keep_first MayReply (start both_types) one_failed
unfolding append_answers
one_fails =
    next (next here (appends 0 reply (first_v4 ∷ []) refl refl refl refl))
      (fails 1 deadline_exceeded refl refl refl)

group_outcome_example :
    Succeeds keep_first keep_first_lawful MayReply one_failed
    ⊎ FailsFirst keep_first keep_first_lawful MayReply one_failed
group_outcome_example =
    group_outcome keep_first keep_first_lawful MayReply both_types one_fails (tt, (tt, tt))

in_group-Runs_example :
    let out =
      (in_group sample_names replying sample_dialer sample_merge a_server
        (codes "host.example.")
        (ordered sample_names replying sample_dialer sample_merge a_server true both_types)
        []
        0).0 in
    (out ≡ panic)
    ⊎ Runs sample_names replying sample_dialer sample_merge a_server
        (codes "host.example.")
        both_types
        keep_first
        keep_first_lawful
        out
in_group-Runs_example =
    in_group-Runs sample_names replying sample_dialer sample_merge a_server (codes "host.example.")
      keep_first keep_first_lawful true both_types 0 (omega arith)
