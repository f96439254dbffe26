-- ===== src/Dns/Lookup/Answers.antt =====
-- Where the addresses of a DNS lookup come from.
use mathlib.Core.List.Perm
use getresolvd.Base.{
  ℕ, suc, Bool, true, false, List, [], ◌∷◌, ◌≡◌, ◌≢◌, refl, Option, none, some, Text, text_eq,
  if◌then◌else◌, length, Bool-cases, Option-cases, inl, inr, Perm, subst, arith, ltb,
}
use getresolvd.Netip.{Addr}
use getresolvd.AddrSelect.Sort.{Dialer, sort_by_rfc6724}
use getresolvd.AddrSelect.Sort.Laws.{sort_by_rfc6724-perm}
use getresolvd.Errors.{Error, Result, ok, err, panic, Merge}
use getresolvd.Errors.Laws.{IfOk, IfOk-map}
use getresolvd.Deps.{DnsNames, net_ip4}
use getresolvd.Dns.{DnsResolver}
use getresolvd.Dns.Query.{Network, Msg, try_one_name}
use getresolvd.Dns.Lookup.{
  append_answers, q_types, one_by_one, in_group, continue, rest_after_error, ended, ordered, sorted,
  and_then, appended, queries, conclude, dns_lookup,
}
use getresolvd.Dns.Laws.{extend-IfOk}
use getresolvd.Dns.Query.Replies.{Replied, IfOkThen, try_one_name-Replied}
use getresolvd.Dns.Lookup.Gathered.{Gathers, none_asked, replied}

module _ {W : Type 0} (names : DnsNames) (net : Network W) (dialer : Dialer W) (merge : Merge)
    (r : DnsResolver) where
  -- A query, and then others, which gather.
  appended-Gathers :
      (name : Text) (q : ℕ) (qs : List ℕ) (addrs : List Addr) (w : W) (p : Result Msg × W)
      (next : Result (List Addr) × W → Result (List Addr) × W)
      → ((a : List Addr) (v : W) → IfOk (Gathers net merge r name qs v a) (next (ok a, v)).0)
      → ((e : Error) (v : W) → IfOk (Gathers net merge r name (q ∷ qs) w addrs) (next (err e, v)).0)
      → ((v : W) → IfOk (Gathers net merge r name (q ∷ qs) w addrs) (next (panic, v)).0)
      → IfOkThen (Replied net merge r name q w) p
      → IfOk
          (Gathers net merge r name (q ∷ qs) w addrs)
          (next (appended names net dialer merge r addrs p)).0
  unfolding appended
  appended-Gathers name q qs addrs w (err e, v) next k f g s = f e v
  appended-Gathers name q qs addrs w (panic, v) next k f g s = g v
  appended-Gathers name q qs addrs w (ok m, v) next k f g s =
      appends (append_answers addrs m.answer) refl
    where
      appends :
          (res : Result (List Addr))
          → append_answers addrs m.answer ≡ res
          → IfOk (Gathers net merge r name (q ∷ qs) w addrs) (next (res, v)).0
      appends (ok mid) e =
          IfOk-map (Gathers net merge r name qs v mid) (Gathers net merge r name (q ∷ qs) w addrs)
            (next (ok mid, v)).0 (λ found (w', h). (w', replied m s e h)) (k mid v)
      appends (err x) e = f x v
      appends panic e = g v

  one_by_one-Gathers :
      (name : Text) (qs : List ℕ) (addrs : List Addr) (w : W)
      → IfOk
          (Gathers net merge r name qs w addrs)
          (one_by_one names net dialer merge r name qs addrs w).0
  unfolding one_by_one
  one_by_one-Gathers name [] addrs w = (w, none_asked)
  one_by_one-Gathers name (q ∷ qs) addrs w =
      appended-Gathers name q qs addrs w (try_one_name net merge r name q w)
        (λ p.
          and_then names net dialer merge r p
            λ a v. one_by_one names net dialer merge r name qs a v)
        (λ a v. one_by_one-Gathers name qs a v) (λ e v. tt) (λ v. tt)
        (try_one_name-Replied net merge r name q w)

  in_group-Gathers :
      (name : Text) (qs : List ℕ) (addrs : List Addr) (w : W)
      → IfOk
          (Gathers net merge r name qs w addrs)
          (in_group names net dialer merge r name qs addrs w).0
  unfolding in_group
  in_group-Gathers name [] addrs w = (w, none_asked)
  in_group-Gathers name (q ∷ qs) addrs w =
      appended-Gathers name q qs addrs w (try_one_name net merge r name q w)
        (λ p.
          continue names net dialer merge r name qs addrs p
            λ a v. in_group names net dialer merge r name qs a v)
        (λ a v. in_group-Gathers name qs a v) (λ e v. failed qs e v) (λ v. tt)
        (try_one_name-Replied net merge r name q w)
    where
      stays :
          (e : Error) (p : Result (List Addr) × W)
          → IfOk (Gathers net merge r name (q ∷ qs) w addrs) (ended names net dialer merge r e p).0
      stays e (ok a, v) = tt
      stays e (err x, v) = tt
      stays e (panic, v) = tt

      failed :
          (others : List ℕ) (e : Error) (v : W)
          → IfOk
              (Gathers net merge r name (q ∷ qs) w addrs)
              (rest_after_error names net dialer merge r name others addrs e v).0
      failed [] e v = tt
      failed (o ∷ others) e v = stays e _

  sorted-some :
      (p : Option (List Addr) × W) (out : List Addr)
      → p.0 ≡ some out
      → sorted names net dialer merge r p ≡ (ok out, p.1)
  unfolding sorted
  sorted-some (some a, w) out e = let same : a ≡ out = cc in rw same
  sorted-some (none, w) out e = cc

  -- The queries of a lookup, in the order in which they end.
  abbrev pub asked : Bool → List ℕ → List ℕ
  asked swapped qs = if r.single_request then qs else ordered names net dialer merge r swapped qs

  -- The answer of a lookup with these queries for this name, from the world `w`.
  pub record IsDnsAnswer (name : Text) (qs : List ℕ) (w : W) (addrs : List Addr) : Type 0 where
    pub found : List Addr
    pub gathered : Gathers net merge r name qs w [] found
    pub perm : Perm addrs found
    pub ne_nil : addrs ≢ []

  conclude-IsDnsAnswer :
      (name : Text) (qs : List ℕ) (v : W) (network host : Text) (p : Result (List Addr) × W)
      → IfOk (Gathers net merge r name qs v []) p.0
      → IfOk (IsDnsAnswer name qs v) (conclude names net dialer merge r network host p).0
  unfolding conclude
  conclude-IsDnsAnswer name qs v network host (err e, w) g = tt
  conclude-IsDnsAnswer name qs v network host (panic, w) g = tt
  conclude-IsDnsAnswer name qs v network host (ok [], w) g =
      extend-IfOk (IsDnsAnswer name qs v) merge _ _
  conclude-IsDnsAnswer name qs v network host (ok (a ∷ found), w) g =
      let some_addr : ltb 0 (suc (length found)) ≡ true = ground arith in
      rw some_addr (elim (Bool-cases (text_eq network net_ip4)) [
        | inl four ↦ rw four (record {
          found = a ∷ found;
          gathered = g;
          perm = Perm.refl (a ∷ found);
          ne_nil = λ e. cc;
        })
        | inr other ↦
            let (out, e, p) = sort_by_rfc6724-perm dialer (a ∷ found) w in
            rw (other, sorted-some (sort_by_rfc6724 dialer (a ∷ found) w) out e)
              (record {
                found = a ∷ found;
                gathered = g;
                perm = p;
                ne_nil =
                    λ q. let none_left = Perm.nil-eq (subst (λ l. Perm l (a ∷ found)) q p) in cc;
              })
      ])

  pub either {κ} :
      (P : Result (List Addr) → Type κ) (b : Bool) (p q : Result (List Addr) × W)
      → P p.0
      → P q.0
      → P (if b then p else q).0
  either P true p q g k = g
  either P false p q g k = k

  -- The queries of a lookup gather.
  pub queries-Gathers :
      (swapped : Bool) (name : Text) (qs : List ℕ) (w : W)
      → IfOk
          (Gathers net merge r name (asked swapped qs) w [])
          (if r.single_request
            then one_by_one names net dialer merge r name qs [] w
            else in_group names net dialer merge r name
                (ordered names net dialer merge r swapped qs)
                []
                w).0
  queries-Gathers swapped name qs w = taken r.single_request
    where
      taken :
          (b : Bool)
          → IfOk
              (Gathers net merge r name
                (if b then qs else ordered names net dialer merge r swapped qs)
                w
                [])
              (if b
                then one_by_one names net dialer merge r name qs [] w
                else in_group names net dialer merge r name
                    (ordered names net dialer merge r swapped qs)
                    []
                    w).0
      taken true = one_by_one-Gathers name qs [] w
      taken false = in_group-Gathers name (ordered names net dialer merge r swapped qs) [] w

  queries-IsDnsAnswer :
      (swapped : Bool) (network host : Text) (qs : List ℕ) (w : W)
      → IfOk
          (IsDnsAnswer (names.fqdn host) (asked swapped qs) w)
          (queries names net dialer merge r swapped network host (some qs) w).0
  unfolding queries
  queries-IsDnsAnswer swapped network host qs w =
      conclude-IsDnsAnswer (names.fqdn host) (asked swapped qs) w network host _
        (queries-Gathers swapped (names.fqdn host) qs w)

  -- What a successful lookup from the world `w` says.
  abbrev pub Answered : Bool → Text → Text → W → List Addr → Type 0
  Answered swapped network host w addrs =
      (qs : List ℕ) × (q_types network ≡ some qs)
      × (names.is_domain_name host ≡ true)
      × IsDnsAnswer (names.fqdn host) (asked swapped qs) w addrs

  dns_lookup-Answered :
      (swapped : Bool) (network host : Text) (w : W)
      → IfOk
          (Answered swapped network host w)
          (dns_lookup names net dialer merge r swapped network host w).0
  unfolding dns_lookup
  dns_lookup-Answered swapped network host w = elim (Bool-cases (names.is_domain_name host)) [
    | inl valid ↦ elim (Option-cases (q_types network)) [
      | inl unknown ↦
          rw (valid, unknown)
            (unfold queries in extend-IfOk (Answered swapped network host w) merge _ _)
      | inr (qs, known) ↦
          let answer = queries-IsDnsAnswer swapped network host qs w in
          rw (valid, known)
            (IfOk-map (IsDnsAnswer (names.fqdn host) (asked swapped qs) w)
              (Answered swapped network host w) _ (λ addrs a. (qs, known, valid, a)) answer)
    ]
    | inr invalid ↦ rw invalid (extend-IfOk (Answered swapped network host w) merge _ _)
  ]

  -- A lookup that succeeds had a valid domain name and a supported network, and returns at least one
  -- address: a rearrangement of the addresses in the A and AAAA records of the server's replies. From
  -- the world of the lookup on, there is for each query type of the network, in the order in which the
  -- queries end, a connection that was dialed to the server, shaken for TLS, and closed, and over it
  -- an exchange for that type and the fully qualified name, with the return code for success.
  pub dns_lookup-ok :
      (swapped : Bool) (network host : Text) (w w' : W) (addrs : List Addr)
      → dns_lookup names net dialer merge r swapped network host w ≡ (ok addrs, w')
      → Answered swapped network host w addrs
  dns_lookup-ok swapped network host w w' addrs e =
      subst (λ (p : Result (List Addr) × W). IfOk (Answered swapped network host w) p.0) e
        (dns_lookup-Answered swapped network host w)
