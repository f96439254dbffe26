-- ===== src/Tests/Systems.antt =====
-- The system resolver, and parallel lookups.
use getresolvd.Tests.Samples.{MayReturn, MayEnd, found_one, both, one_answers, sample_env}
use getresolvd.Base.{
  zero, List, ◌⊎◌, inl, inr, ◌+◌, ◌*◌, ◌≤◌, length, ℕ, suc, true, [], ◌∷◌, ◌≡◌, ◌≢◌, refl, some,
  codes, get_elem?,
}
use getresolvd.Netip.{Addr}
use getresolvd.Errors.{ok, Error, deadline_exceeded, dns_error, empty_dns_error, err}
use getresolvd.Deps.{net_ip}
use getresolvd.Deps.Sample.{sample_rand_lawful, first_v4}
use getresolvd.Resolver.{Resolver}
use getresolvd.Retry.Sample.{sample_retry_lawful}
use getresolvd.Dnsconfig.{initial}
use getresolvd.System.{balanced, retried}
use getresolvd.System.Laws.{retried_once}
use getresolvd.Parallel.{State, running, sending, failed, waiting, ended, fails, Reach, here, next}
use getresolvd.Parallel.Progress.{steps, run_returns}
use getresolvd.Parallel.Laws.{Returned, Reach-Returned, sending_forever}

Reach-Returned_example : Returned MayReturn MayEnd found_one.main found_one.errs found_one.workers
Reach-Returned_example = Reach-Returned MayReturn MayEnd both one_answers

-- The context ended while the first resolver stood at its send.
abbrev left_behind : State
left_behind = record {
  main = ended deadline_exceeded;
  workers = sending (first_v4 ∷ []) ∷ running ∷ [];
  errs = [];
}

abbrev later : State
later = record {
  main = ended deadline_exceeded;
  workers = sending (first_v4 ∷ []) ∷ failed deadline_exceeded ∷ [];
  errs = deadline_exceeded ∷ [];
}

other_fails : Reach MayReturn MayEnd left_behind later
other_fails = next here (fails 1 deadline_exceeded refl refl refl)

sending_forever_example :
    (later.main ≢ waiting) × (get_elem? later.workers 0 ≡ some (sending (first_v4 ∷ [])))
sending_forever_example =
    sending_forever MayReturn MayEnd 0 (first_v4 ∷ []) (λ e. cc) refl other_fails

abbrev timing_out : Resolver ℕ
timing_out network host w =
    (err (dns_error (record empty_dns_error { name = host; is_timeout = true })), suc w)

retried_once_example :
    retried sample_env initial (timing_out ∷ timing_out ∷ []) net_ip (codes "host.example") 0
    ≡ balanced sample_env initial (timing_out ∷ timing_out ∷ []) net_ip (codes "host.example") 0
retried_once_example =
    retried_once sample_env sample_rand_lawful sample_retry_lawful initial
      (timing_out ∷ timing_out ∷ []) net_ip (codes "host.example") 0 refl

each_returns :
    (i : ℕ) → ((a : List Addr) × MayReturn i (ok a)) ⊎ ((e : Error) × MayReturn i (err e))
each_returns zero = inl (first_v4 ∷ [], refl)
each_returns (suc i) = inr (deadline_exceeded, refl)

run_returns_example :
    (steps MayReturn MayEnd one_answers ≤ 2 * length both + 1)
    × ((u : State) × Reach MayReturn MayEnd found_one u × (u.main ≢ waiting))
run_returns_example = run_returns MayReturn MayEnd each_returns both one_answers
