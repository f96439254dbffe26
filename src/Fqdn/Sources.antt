-- ===== src/Fqdn/Sources.antt =====
-- Where the name of this machine comes from.
use getresolvd.Base.{List, [], ◌∷◌, ◌≡◌, ◌≢◌, refl, Text, inl, inr, Member, subst}
use getresolvd.Errors.{Error, Result, ok, err, panic}
use getresolvd.Errors.Laws.{IfOk, IfOk-map}
use getresolvd.Deps.{DnsNames, Scan}
use getresolvd.Hostsfile.{IpAddr, Record, decode}
use getresolvd.Fqdn.{
  System, in_records, in_file, from_hosts, found, by_name, by_addrs, by_ip, from_lookup, last,
  or_lookup, with_host, hostname,
}
use getresolvd.Fqdn.Laws.{FirstMatch, find_record_lem}

module _ (names : DnsNames) (resolve : Text → Result IpAddr) where
  -- The hosts file names the host.
  pub record Named (file : Result Scan) (host name : Text) : Type 0 where
    pub reader : Scan
    pub records : List Record
    pub opened : file ≡ ok reader
    pub decoded : decode names resolve reader ≡ ok records
    pub matched : FirstMatch names resolve records host name

  from_hosts-Named :
      (file : Result Scan) (host : Text)
      → IfOk (Named file host) (from_hosts names resolve file host)
  unfolding from_hosts in_file
  from_hosts-Named (err e) host = tt
  from_hosts-Named panic host = tt
  from_hosts-Named (ok s) host = in_decoded (decode names resolve s) refl
    where
      in_decoded :
          (d : Result (List Record))
          → decode names resolve s ≡ d
          → IfOk (Named (ok s) host) (in_records names resolve d host)
      in_decoded (ok records) e =
          unfold in_records in
          elim (find_record_lem names resolve records host) [
            | inl (name, same, m) ↦
                rw same (record {
                  reader = s;
                  records = records;
                  opened = refl;
                  decoded = e;
                  matched = m;
                })
            | inr (none_holds, same) ↦ rw same tt
          ]
      in_decoded (err x) e = unfold in_records in tt
      in_decoded panic e = unfold in_records in tt

  module _ {W : Type 0} (sys : System W) where
    -- The source of a name, for a call in the world `w`.
    pub data Source (w : W) (name : Text) : Type 0 where
      -- The hosts file.
      from_file :
          (host : Text) (w1 w2 : W) (file : Result Scan)
          → sys.os_hostname w ≡ (ok host, w1)
          → sys.open_hosts w1 ≡ (file, w2)
          → Named file host name
          → Source w name
      -- The canonical name of the host, when the hosts file gives none.
      from_cname :
          (host : Text) (w1 w2 w3 : W) (file : Result Scan) (e : Error)
          → sys.os_hostname w ≡ (ok host, w1)
          → sys.open_hosts w1 ≡ (file, w2)
          → from_hosts names resolve file host ≡ err e
          → sys.lookup_cname host w2 ≡ (ok name, w3)
          → name ≢ []
          → Source w name
      -- The first name of an address of the host, when the hosts file gives none.
      from_address :
          (host : Text) (w1 w2 w3 w4 : W) (file : Result Scan) (e : Error) (addrs : List Text)
          → sys.os_hostname w ≡ (ok host, w1)
          → sys.open_hosts w1 ≡ (file, w2)
          → from_hosts names resolve file host ≡ err e
          → sys.lookup_ip host w3 ≡ (ok addrs, w4)
          → (a : Text) (more : List Text) (v v' : W) → Member a addrs
          → sys.lookup_addr a v ≡ (ok (name ∷ more), v')
          → Source w name

    -- The first name of an address of the list.
    record Reverse (addrs : List Text) (name : Text) : Type 0 where
      address : Text
      more : List Text
      before : W
      after : W
      member : Member address addrs
      answer : sys.lookup_addr address before ≡ (ok (name ∷ more), after)

    Reverse-later :
        (a : Text) (addrs : List Text) (name : Text) → Reverse addrs name → Reverse (a ∷ addrs) name
    Reverse-later a addrs name r = record {
      address = r.address;
      more = r.more;
      before = r.before;
      after = r.after;
      member = inr r.member;
      answer = r.answer;
    }

    by_addrs-Reverse :
        (addrs : List Text) (w : W) → IfOk (Reverse addrs) (by_addrs names resolve sys addrs w).0
    unfolding by_addrs
    by_addrs-Reverse [] w = tt
    by_addrs-Reverse (a ∷ addrs) w =
        one
          (λ w'.
            IfOk-map (Reverse addrs) (Reverse (a ∷ addrs)) (by_addrs names resolve sys addrs w').0
              (λ name r. Reverse-later a addrs name r) (by_addrs-Reverse addrs w'))
          (sys.lookup_addr a w) refl
      where
        one :
            ((w' : W) → IfOk (Reverse (a ∷ addrs)) (by_addrs names resolve sys addrs w').0)
            → (p : Result (List Text) × W) → sys.lookup_addr a w ≡ p
            → IfOk
                (Reverse (a ∷ addrs))
                (by_name names resolve sys p λ w'. by_addrs names resolve sys addrs w').0
        one later (ok (h ∷ hs), w') e =
            unfold by_name in
            record { address = a; more = hs; before = w; after = w'; member = inl refl; answer = e }
        one later (ok [], w') e = unfold by_name in later w'
        one later (err x, w') e = unfold by_name in later w'
        one later (panic, w') e = unfold by_name in tt

    module _ (w w1 w2 : W) (host : Text) (file : Result Scan) (e : Error)
        (named : sys.os_hostname w ≡ (ok host, w1)) (opened : sys.open_hosts w1 ≡ (file, w2))
        (missing : from_hosts names resolve file host ≡ err e) where
      by_ip-Source : (w3 : W) → IfOk (Source w) (by_ip names resolve sys (sys.lookup_ip host w3)).0
      by_ip-Source w3 = resolved (sys.lookup_ip host w3) refl
        where
          resolved :
              (p : Result (List Text) × W)
              → sys.lookup_ip host w3 ≡ p
              → IfOk (Source w) (by_ip names resolve sys p).0
          resolved (ok addrs, w4) q =
              unfold by_ip in
              IfOk-map (Reverse addrs) (Source w) (by_addrs names resolve sys addrs w4).0
                (λ name r.
                  from_address host w1 w2 w3 w4 file e addrs named opened missing q r.address r.more
                    r.before r.after r.member r.answer)
                (by_addrs-Reverse addrs w4)
          resolved (err x, w4) q = unfold by_ip in tt
          resolved (panic, w4) q = unfold by_ip in tt

      from_lookup-Source : IfOk (Source w) (from_lookup names resolve sys host w2).0
      unfolding from_lookup
      from_lookup-Source = canonical (sys.lookup_cname host w2) refl
        where
          canonical :
              (p : Result Text × W)
              → sys.lookup_cname host w2 ≡ p
              → IfOk
                  (Source w)
                  (found names resolve sys p
                    λ w'. by_ip names resolve sys (sys.lookup_ip host w')).0
          canonical (ok (c ∷ name), w3) q =
              unfold found in from_cname host w1 w2 w3 file e named opened missing q (λ x. cc)
          canonical (ok [], w3) q = unfold found in by_ip-Source w3
          canonical (err x, w3) q = unfold found in by_ip-Source w3
          canonical (panic, w3) q = unfold found in tt

    last-Source :
        (w : W) (p : Result Text × W)
        → IfOk (Source w) p.0
        → IfOk (Source w) (last names resolve sys p).0
    unfolding last
    last-Source w (ok name, v) h = h
    last-Source w (err x, v) h = tt
    last-Source w (panic, v) h = tt

    or_lookup-Source :
        (w w1 w2 : W) (host : Text) (file : Result Scan)
        → sys.os_hostname w ≡ (ok host, w1)
        → sys.open_hosts w1 ≡ (file, w2)
        → (r : Result Text) → from_hosts names resolve file host ≡ r
        → IfOk (Source w) (or_lookup names resolve sys host r w2).0
    unfolding or_lookup
    or_lookup-Source w w1 w2 host file named opened (ok name) q =
        from_file host w1 w2 file named opened
          (subst (IfOk (Named file host)) q (from_hosts-Named file host))
    or_lookup-Source w w1 w2 host file named opened (err e) q =
        last-Source w (from_lookup names resolve sys host w2)
          (from_lookup-Source w w1 w2 host file e named opened q)
    or_lookup-Source w w1 w2 host file named opened panic q = tt

    hostname-IfOk : (w : W) → IfOk (Source w) (hostname names resolve sys w).0
    unfolding hostname with_host
    hostname-IfOk w = for_host (sys.os_hostname w) refl
      where
        for_host :
            (p : Result Text × W)
            → sys.os_hostname w ≡ p
            → IfOk (Source w) (with_host names resolve sys p).0
        for_host (ok host, w1) e =
            or_lookup-Source w w1 (sys.open_hosts w1).1 host (sys.open_hosts w1).0 e refl
              (from_hosts names resolve (sys.open_hosts w1).0 host) refl
        for_host (err x, w1) e = tt
        for_host (panic, w1) e = tt

    -- A name that `Hostname` returns is the first name of the first record of the hosts file that
    -- holds the host; or, only if the file gives none, the non-empty canonical name of the host, or
    -- the first name of one of its addresses.
    pub hostname-Source :
        (w w' : W) (name : Text) → hostname names resolve sys w ≡ (ok name, w') → Source w name
    hostname-Source w w' name e =
        subst (λ (p : Result Text × W). IfOk (Source w) p.0) e (hostname-IfOk w)
