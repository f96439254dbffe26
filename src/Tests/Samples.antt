-- ===== src/Tests/Samples.antt =====
-- Networks, systems and runs that the examples share.
use getresolvd.Base.{ℕ, zero, suc, false, List, [], ◌∷◌, ◌++◌, ◌≡◌, refl, codes, pos, Text}
use getresolvd.Netip.{Addr}
use getresolvd.Errors.{Error, deadline_exceeded, Result, ok, err}
use getresolvd.Deps.Sample.{
  sample_names, sample_filter, sample_parse, sample_merge, sample_dialer, sample_rand, first_v4,
}
use getresolvd.Resolver.{Resolver}
use getresolvd.Hostsfile.{IpAddr}
use getresolvd.Retry.Sample.{sample_retry}
use getresolvd.Dnsconfig.{Config, initial}
use getresolvd.Dns.{DnsResolver, dns_transport_udp}
use getresolvd.Dns.Query.{Network, Msg, rr_a}
use getresolvd.System.{Env}
use getresolvd.Parallel.{
  State, running, delivered, answered, finds, receives, Reach, here, next, start,
}

abbrev pub reply : Msg
reply = record { rcode = 0; answer = rr_a (192 ∷ 0 ∷ 2 ∷ 1 ∷ []) ∷ [] }

-- The world counts the steps on the network.
abbrev pub replying : Network ℕ
replying = record {
  with_timeout = λ _ w. w;
  cancel = λ w. w;
  dial = λ _ _ w. (ok 7, suc w);
  handshake = λ _ w. (ok tt, suc w);
  close = λ _ w. suc w;
  exchange = λ _ _ _ w. (ok reply, suc w);
  server_string = λ _. codes "192.0.2.53:53";
  rcode_to_string = λ _. codes "NOERROR";
}

abbrev pub a_server : DnsResolver
a_server = record {
  server = record { addr = first_v4; port = 53 };
  transport = dns_transport_udp;
  timeout = pos 5;
  single_request = false;
}

-- What the two resolvers of the example may do: the first succeeds, the second fails.
abbrev pub MayReturn : ℕ → Result (List Addr) → Type 0
MayReturn zero r = r ≡ ok (first_v4 ∷ [])
MayReturn (suc i) r = r ≡ err deadline_exceeded

abbrev pub MayEnd : Error → Type 0
MayEnd e = e ≡ deadline_exceeded

abbrev pub found_one : State
found_one = record {
  main = answered (first_v4 ∷ []);
  workers = delivered (first_v4 ∷ []) ∷ running ∷ [];
  errs = [];
}

abbrev pub both : List ℕ
both = 1 ∷ 2 ∷ []

abbrev pub one_answers : Reach MayReturn MayEnd (start both) found_one
one_answers =
    next (next here (finds 0 (first_v4 ∷ []) refl refl refl))
      (receives 0 (first_v4 ∷ []) refl refl refl)

-- A system whose servers never answer in time.
abbrev pub silent_net : Network ℕ
silent_net = record {
  with_timeout = λ _ w. w;
  cancel = λ w. w;
  dial = λ _ _ w. (err deadline_exceeded, suc w);
  handshake = λ _ w. (ok tt, w);
  close = λ _ w. w;
  exchange = λ _ _ _ w. (err deadline_exceeded, suc w);
  server_string = λ _. codes "192.0.2.1:53";
  rcode_to_string = λ _. codes "SERVFAIL";
}

abbrev pub sample_env : Env ℕ
sample_env = record {
  names = sample_names;
  parse_addr = sample_parse;
  filter = sample_filter;
  merge = sample_merge;
  dialer = sample_dialer;
  hosts_dialer = sample_dialer;
  quote = λ s. codes "\"" ++ (s ++ codes "\"");
  net = silent_net;
  rand = sample_rand;
  retry_lib = sample_retry;
  swapped = false;
  to_addr = λ _. ok first_v4;
  resolve_ip_addr = λ _. ok (record { ip = 192 ∷ 0 ∷ 2 ∷ 1 ∷ []; zone = [] });
  parse_addr_port = λ _. ok (record { addr = first_v4; port = 53 });
}

abbrev pub one_server : Config
one_server = record initial { servers = codes "192.0.2.1:53" ∷ [] }

abbrev pub or_none : Result (List (Resolver ℕ)) → List (Resolver ℕ)
or_none (ok rs) = rs
or_none _ = []

-- Every address text is 192.0.2.1.
abbrev pub any_ip : Text → Result IpAddr
any_ip s = ok (record { ip = 192 ∷ 0 ∷ 2 ∷ 1 ∷ []; zone = [] })

abbrev pub to_first : IpAddr → Result Addr
to_first ip = ok first_v4

abbrev pub with_port_53 : Text → Text → Text
with_port_53 host port = host ++ (codes ":" ++ port)
