-- ===== src/Dns/Query/Causes.antt =====
-- The errors of `tryOneName`: which event each one reports, and whether it is temporary.
use getresolvd.Base.{
  ℕ, Bool, true, false, ◌≡◌, ◌≢◌, refl, subst, ◌++◌, Text, codes, Bool-cases, inl, inr, ◌==◌, arith,
}
use getresolvd.Errors.{
  Error, DnsError, dns_error, Result, ok, err, panic, Merge, is_timeout, error_text,
  err_no_such_host, err_server_misbehaving,
}
use getresolvd.Errors.Laws.{MergeFills, extend_named}
use getresolvd.Dns.{DnsResolver}
use getresolvd.Dns.Query.{
  Network, Msg, rcode_success, rcode_name_error, rcode_server_failure, is_tls_net, trim_tls,
  base_error, fail_with, check_rcode, exchanged, closing, ask, shaken, dialed, has_timeout,
  cancelling, try_one_name,
}

-- What holds of a result that is an error.
abbrev pub IfErr {ℓ κ} : {A : Type ℓ} → (Error → Type κ) → Result A → Type κ
IfErr P (ok a) = Unit
IfErr P (err e) = P e
IfErr P panic = Unit

module _ {W : Type 0} (net : Network W) (merge : Merge) (r : DnsResolver) (name : Text)
    (q_type : ℕ) where
  -- The error for a failed call.
  abbrev pub failure : Error → Bool → DnsError
  failure e temporary = record {
    err = error_text e;
    name = name;
    server = net.server_string r.server;
    is_timeout = is_timeout e;
    is_temporary = temporary;
    is_not_found = false;
  }

  -- The error for a return code that is neither success nor "no such name".
  abbrev pub misbehaving : ℕ → DnsError
  misbehaving rcode = record {
    err =
        codes "unexpected return code "
        ++ (net.rcode_to_string rcode ++ (codes ": " ++ err_server_misbehaving));
    name = name;
    server = net.server_string r.server;
    is_timeout = false;
    is_temporary = rcode == rcode_server_failure;
    is_not_found = false;
  }

  -- The event on the network that an error reports.
  pub data Cause (x : Error) : Type 0 where
    dial_failed :
        (e : Error) (v v' : W)
        → net.dial (trim_tls r.transport) (net.server_string r.server) v ≡ (err e, v')
        → x ≡ dns_error (failure e true)
        → Cause x
    handshake_failed :
        (e : Error) (conn : ℕ) (v v' : W)
        → is_tls_net r.transport ≡ true
        → net.handshake conn v ≡ (err e, v')
        → x ≡ dns_error (failure e false)
        → Cause x
    exchange_failed :
        (e : Error) (conn : ℕ) (v v' : W)
        → net.exchange conn name q_type v ≡ (err e, v')
        → x ≡ dns_error (failure e true)
        → Cause x
    no_such_name :
        (m : Msg) (conn : ℕ) (v v' : W)
        → net.exchange conn name q_type v ≡ (ok m, v')
        → m.rcode ≡ rcode_name_error
        → x
          ≡ dns_error
              (record (base_error net merge r name) { err = err_no_such_host; is_not_found = true })
        → Cause x
    other_code :
        (m : Msg) (conn : ℕ) (v v' : W)
        → net.exchange conn name q_type v ≡ (ok m, v')
        → m.rcode ≢ rcode_success
        → m.rcode ≢ rcode_name_error
        → x ≡ dns_error (misbehaving m.rcode)
        → Cause x

  module _ (fills : MergeFills merge) where
    fail_with_lem :
        (e : Error) (temporary : Bool)
        → fail_with net merge r name e temporary ≡ err (dns_error (failure e temporary))
    unfolding fail_with
    fail_with_lem e temporary =
        extend_named merge fills name _ (error_text e) (is_timeout e) temporary false

    check_rcode-Cause :
        (m : Msg) (conn : ℕ) (v v' : W)
        → net.exchange conn name q_type v ≡ (ok m, v')
        → IfErr Cause (check_rcode net merge r name m)
    unfolding check_rcode
    check_rcode-Cause m conn v v' e = elim (Bool-cases (m.rcode == rcode_success)) [
      | inl good ↦ rw good tt
      | inr bad ↦ elim (Bool-cases (m.rcode == rcode_name_error)) [
        | inl missing ↦
            rw
              (
                bad,
                missing,
                extend_named {A = Msg} merge fills name (net.server_string r.server)
                    err_no_such_host false false true,
              )
              (no_such_name m conn v v' e (ground arith) refl)
        | inr other ↦
            rw
              (
                bad,
                other,
                extend_named {A = Msg} merge fills name (net.server_string r.server)
                    (misbehaving m.rcode).err false (m.rcode == rcode_server_failure) false,
              )
              (other_code m conn v v' e (λ q. ground arith) (λ q. ground arith) refl)
      ]
    ]

    ask-Cause : (conn : ℕ) (v : W) → IfErr Cause (ask net merge r name q_type conn v).0
    unfolding ask closing
    ask-Cause conn v = reply (net.exchange conn name q_type v) refl
      where
        reply :
            (p : Result Msg × W)
            → net.exchange conn name q_type v ≡ p
            → IfErr Cause (closing net merge r conn (exchanged net merge r name p)).0
        reply (ok m, v') e = unfold exchanged in check_rcode-Cause m conn v v' e
        reply (err x, v') e =
            unfold exchanged in rw (fail_with_lem x true) (exchange_failed x conn v v' e refl)
        reply (panic, v') e = unfold exchanged in tt

    shaken-Cause :
        (conn : ℕ) (v : W)
        → is_tls_net r.transport ≡ true
        → IfErr Cause (shaken net merge r name q_type conn (net.handshake conn v)).0
    unfolding shaken
    shaken-Cause conn v tls = shake (net.handshake conn v) refl
      where
        shake :
            (p : Result {0} Unit × W)
            → net.handshake conn v ≡ p
            → IfErr Cause (shaken net merge r name q_type conn p).0
        shake (ok _, v') e = ask-Cause conn v'
        shake (panic, v') e = tt
        shake (err x, v') e = rw (fail_with_lem x false) (handshake_failed x conn v v' tls e refl)

    dialed-Cause :
        (v : W)
        → IfErr Cause
            (dialed net merge r name q_type
              (net.dial (trim_tls r.transport) (net.server_string r.server) v)).0
    unfolding dialed
    dialed-Cause v = dial (net.dial (trim_tls r.transport) (net.server_string r.server) v) refl
      where
        dial :
            (p : Result ℕ × W)
            → net.dial (trim_tls r.transport) (net.server_string r.server) v ≡ p
            → IfErr Cause (dialed net merge r name q_type p).0
        dial (ok conn, v') e = elim (Bool-cases (is_tls_net r.transport)) [
          | inl tls ↦ rw tls (shaken-Cause conn v' tls)
          | inr plain_net ↦ rw plain_net (ask-Cause conn v')
        ]
        dial (err x, v') e = rw (fail_with_lem x true) (dial_failed x v v' e refl)
        dial (panic, v') e = tt

    cancelling-Cause :
        (p : Result Msg × W) → IfErr Cause p.0 → IfErr Cause (cancelling net merge r p).0
    unfolding cancelling
    cancelling-Cause (out, v) h = h

    -- If the merge of errors fills empty fields: every error of a query names the query and the server,
    -- and reports an event that occurred on the network. A failed dial or exchange is temporary, a
    -- failed handshake is not; a reply without success is "no such host" exactly for the return code
    -- 3, and otherwise temporary exactly for the return code 2.
    pub try_one_name-Cause :
        (w w' : W) (x : Error) → try_one_name net merge r name q_type w ≡ (err x, w') → Cause x
    unfolding try_one_name
    try_one_name-Cause w w' x e =
        subst (λ (p : Result Msg × W). IfErr Cause p.0) e
          (elim (Bool-cases (has_timeout net merge r)) [
            | inl h ↦ rw h (
                let start = net.with_timeout r.timeout w in
                let dial = net.dial (trim_tls r.transport) (net.server_string r.server) start in
                cancelling-Cause (dialed net merge r name q_type dial) (dialed-Cause start))
            | inr h ↦ rw h (dialed-Cause w)
          ])
