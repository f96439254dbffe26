-- ===== src/Dns/Query.antt =====
-- `tryOneName` of dns.go.
pub mod Causes
pub mod Replies
use mathlib.Core.List.{reverse}
use getresolvd.Base.{
  ℕ, Bool, true, false, not, List, ◌++◌, Option, none, some, Text, codes, has_prefix, drop,
  if◌then◌else◌, ◌==◌, ℤ, pos_part, neg_part, ◌+◌,
}
use getresolvd.Errors.{
  Error, DnsError, empty_dns_error, Result, ok, err, panic, Merge, extend_dns_error, is_timeout,
  error_text, err_no_such_host, err_server_misbehaving,
}
use getresolvd.Netip.{Bytes}
use getresolvd.Dns.{DnsResolver, AddrPort}

-- A record of a reply: `*dns.A` or `*dns.AAAA` with its IP, or another one.
pub data Rr : Type 0 where
  rr_a : Bytes → Rr
  rr_aaaa : Bytes → Rr
  rr_other : Rr

-- `dns.Msg`, as far as the code reads it.
pub record Msg : Type 0 where
  pub rcode : ℕ
  pub answer : List Rr

-- What is outside this repository: contexts, the caller's dialer, crypto/tls and the exchange of
-- github.com/miekg/dns, which act on a world `W`. A connection is a number.
pub record Network (W : Type 0) : Type 0 where
  pub with_timeout : ℤ → W → W
  pub cancel : W → W
  pub dial : Text → Text → W → Result ℕ × W
  pub handshake : ℕ → W → Result {0} Unit × W
  pub close : ℕ → W → W
  pub exchange : ℕ → Text → ℕ → W → Result Msg × W
  pub server_string : AddrPort → Text
  pub rcode_to_string : ℕ → Text

abbrev pub rcode_success : ℕ
rcode_success = 0

abbrev pub rcode_server_failure : ℕ
rcode_server_failure = 2

abbrev pub rcode_name_error : ℕ
rcode_name_error = 3

-- `strings.HasSuffix(s, "-tls")` and `strings.TrimSuffix(s, "-tls")`.
unfoldable pub is_tls_net : Text → Bool
is_tls_net s = has_prefix (codes "slt-") (reverse s)

unfoldable pub trim_tls : Text → Text
unfolding is_tls_net
trim_tls s = if is_tls_net s then reverse (drop 4 (reverse s)) else s

module _ {W : Type 0} (net : Network W) (merge : Merge) (r : DnsResolver) where
  -- `dnsErr`.
  abbrev pub base_error : Text → DnsError
  base_error name = record empty_dns_error { name = name; server = net.server_string r.server }

  unfoldable pub fail_with : Text → Error → Bool → Result Msg
  fail_with name e temporary = extend_dns_error merge (base_error name) (record empty_dns_error {
    err = error_text e;
    is_timeout = is_timeout e;
    is_temporary = temporary;
  })

  -- The switch over the return code.
  unfoldable pub check_rcode : Text → Msg → Result Msg
  check_rcode name reply =
      if reply.rcode == rcode_success
      then ok reply
      else if reply.rcode == rcode_name_error
      then extend_dns_error merge (base_error name)
          (record empty_dns_error { err = err_no_such_host; is_not_found = true })
      else extend_dns_error merge (base_error name) (record empty_dns_error {
        err =
            codes "unexpected return code "
            ++ (net.rcode_to_string reply.rcode ++ (codes ": " ++ err_server_misbehaving));
        is_temporary = reply.rcode == rcode_server_failure;
      })

  unfoldable pub exchanged : Text → Result Msg × W → Result Msg × W
  exchanged name (ok reply, w) = (check_rcode name reply, w)
  exchanged name (err e, w) = (fail_with name e true, w)
  exchanged name (panic, w) = (panic, w)

  -- `defer conn.Close()`.
  unfoldable pub closing : ℕ → Result Msg × W → Result Msg × W
  closing conn (out, w) = (out, net.close conn w)

  -- From `req.SetQuestion` on.
  unfoldable pub ask : Text → ℕ → ℕ → W → Result Msg × W
  ask name q_type conn w = closing conn (exchanged name (net.exchange conn name q_type w))

  -- The handshake: its error closes the connection, and is not temporary. Its panic comes before
  -- `defer conn.Close()`.
  unfoldable pub shaken : Text → ℕ → ℕ → Result {0} Unit × W → Result Msg × W
  shaken name q_type conn (ok _, w) = ask name q_type conn w
  shaken name q_type conn (err e, w) = (fail_with name e false, net.close conn w)
  shaken name q_type conn (panic, w) = (panic, w)

  unfoldable pub dialed : Text → ℕ → Result ℕ × W → Result Msg × W
  dialed name q_type (ok conn, w) =
      if is_tls_net r.transport
      then shaken name q_type conn (net.handshake conn w)
      else ask name q_type conn w
  dialed name q_type (err e, w) = (fail_with name e true, w)
  dialed name q_type (panic, w) = (panic, w)

  -- `client.Timeout != 0`.
  unfoldable pub has_timeout : Bool
  has_timeout = not (pos_part r.timeout + neg_part r.timeout == 0)

  -- `defer cancel()`.
  unfoldable pub cancelling : Result Msg × W → Result Msg × W
  cancelling (out, w) = (out, net.cancel w)

  unfoldable pub try_one_name : Text → ℕ → W → Result Msg × W
  unfolding dialed shaken ask closing exchanged check_rcode fail_with cancelling has_timeout
  try_one_name name q_type w =
      if has_timeout
      then cancelling (
          dialed name q_type (
            net.dial (trim_tls r.transport) (net.server_string r.server)
              (net.with_timeout r.timeout w)))
      else dialed name q_type (net.dial (trim_tls r.transport) (net.server_string r.server) w)
