-- ===== src/Fqdn/Missing.antt =====
-- Why this machine has no name: what `Hostname` has tried when it fails.
use getresolvd.Base.{List, [], ◌∷◌, ◌≡◌, refl, subst, Text, inl, inr, ◌⊎◌}
use getresolvd.Errors.{Error, Result, ok, err, panic}
use getresolvd.Deps.{DnsNames, Scan}
use getresolvd.Hostsfile.{IpAddr}
use getresolvd.Fqdn.{
  System, err_fqdn_not_found, from_hosts, found, by_name, by_addrs, by_ip, from_lookup, last,
  or_lookup, with_host, hostname,
}
use getresolvd.Fqdn.Tried.{
  NoCname, cname_fails, cname_empty, NoReverse, all_tried, addr_fails, addr_empty, NoAddress,
  ip_fails, ip_unnamed, NotFound, from_hosts-Unnamed,
}

module _ (names : DnsNames) (resolve : Text → Result IpAddr) {W : Type 0} (sys : System W) where
  -- What holds of an error and the world behind it.
  abbrev IfErr : (Error → W → Type 0) → Result Text × W → Type 0
  IfErr P (ok name, w) = Unit
  IfErr P (err e, w) = P e w
  IfErr P (panic, w) = Unit

  IfErr-map :
      (P Q : Error → W → Type 0) (p : Result Text × W)
      → ((e : Error) (w : W) → P e w → Q e w)
      → IfErr P p
      → IfErr Q p
  IfErr-map P Q (ok name, w) f h = tt
  IfErr-map P Q (err e, w) f h = f e w h
  IfErr-map P Q (panic, w) f h = tt

  by_name-NoReverse :
      (a : Text) (addrs : List Text) (w : W) (k : W → Result Text × W)
      → ((v : W) → IfErr (λ e w'. NoReverse sys addrs v w') (k v))
      → (p : Result (List Text) × W) → sys.lookup_addr a w ≡ p
      → IfErr (λ e w'. NoReverse sys (a ∷ addrs) w w') (by_name names resolve sys p k)
  unfolding by_name
  by_name-NoReverse a addrs w k later (ok (h ∷ hs), v) e = tt
  by_name-NoReverse a addrs w k later (ok [], v) e =
      IfErr-map (λ x w'. NoReverse sys addrs v w') _ (k v) (λ x w' n. addr_empty e n) (later v)
  by_name-NoReverse a addrs w k later (err x, v) e =
      IfErr-map (λ x w'. NoReverse sys addrs v w') _ (k v) (λ y w' n. addr_fails x e n) (later v)
  by_name-NoReverse a addrs w k later (panic, v) e = tt

  by_addrs-NoReverse :
      (addrs : List Text) (w : W)
      → IfErr (λ e w'. NoReverse sys addrs w w') (by_addrs names resolve sys addrs w)
  unfolding by_addrs
  by_addrs-NoReverse [] w = all_tried
  by_addrs-NoReverse (a ∷ addrs) w =
      by_name-NoReverse a addrs w (λ v. by_addrs names resolve sys addrs v)
        (λ v. by_addrs-NoReverse addrs v) (sys.lookup_addr a w) refl

  by_ip-NoAddress :
      (host : Text) (w : W) (p : Result (List Text) × W)
      → sys.lookup_ip host w ≡ p
      → IfErr (λ e w'. NoAddress sys host w w') (by_ip names resolve sys p)
  unfolding by_ip
  by_ip-NoAddress host w (ok addrs, v) e =
      IfErr-map (λ x w'. NoReverse sys addrs v w') _ (by_addrs names resolve sys addrs v)
        (λ x w' n. ip_unnamed addrs v e n) (by_addrs-NoReverse addrs v)
  by_ip-NoAddress host w (err x, v) e = ip_fails x e
  by_ip-NoAddress host w (panic, v) e = tt

  -- The lookups that follow the hosts file.
  record NoLookup (host : Text) (w w' : W) : Type 0 where
    asked : W
    cname : NoCname sys host w asked
    address : NoAddress sys host asked w'

  found-NoLookup :
      (host : Text) (w : W) (p : Result Text × W)
      → sys.lookup_cname host w ≡ p
      → IfErr
          (λ e w'. NoLookup host w w')
          (found names resolve sys p λ v. by_ip names resolve sys (sys.lookup_ip host v))
  unfolding found
  found-NoLookup host w (ok (c ∷ name), v) e = tt
  found-NoLookup host w (ok [], v) e =
      IfErr-map (λ x w'. NoAddress sys host v w') _ (by_ip names resolve sys (sys.lookup_ip host v))
        (λ x w' n. record { asked = v; cname = cname_empty e; address = n })
        (by_ip-NoAddress host v (sys.lookup_ip host v) refl)
  found-NoLookup host w (err x, v) e =
      IfErr-map (λ y w'. NoAddress sys host v w') _ (by_ip names resolve sys (sys.lookup_ip host v))
        (λ y w' n. record { asked = v; cname = cname_fails x e; address = n })
        (by_ip-NoAddress host v (sys.lookup_ip host v) refl)
  found-NoLookup host w (panic, v) e = tt

  -- The only error behind the name of the operating system.
  last-NotFound :
      (P : W → Type 0) (p : Result Text × W)
      → IfErr (λ e w'. P w') p
      → IfErr (λ e w'. (e ≡ err_fqdn_not_found) × P w') (last names resolve sys p)
  unfolding last
  last-NotFound P (ok name, w) h = tt
  last-NotFound P (err e, w) h = (refl, h)
  last-NotFound P (panic, w) h = tt

  or_lookup-NotFound :
      (w w1 w2 : W) (host : Text) (file : Result Scan)
      → sys.os_hostname w ≡ (ok host, w1)
      → sys.open_hosts w1 ≡ (file, w2)
      → (r : Result Text) → from_hosts names resolve file host ≡ r
      → IfErr
          (λ e w'. (e ≡ err_fqdn_not_found) × NotFound names resolve sys w w')
          (or_lookup names resolve sys host r w2)
  unfolding or_lookup from_lookup
  or_lookup-NotFound w w1 w2 host file named opened (ok name) q = tt
  or_lookup-NotFound w w1 w2 host file named opened (err e) q =
      last-NotFound (λ w'. NotFound names resolve sys w w') (from_lookup names resolve sys host w2)
        (IfErr-map (λ x w'. NoLookup host w2 w') _ (from_lookup names resolve sys host w2)
          (λ x w' n. record {
            host = host;
            named = w1;
            opened = w2;
            asked = n.asked;
            file = file;
            has_host = named;
            has_file = opened;
            no_record = from_hosts-Unnamed names resolve file host e q;
            no_cname = n.cname;
            no_address = n.address;
          })
          (found-NoLookup host w2 (sys.lookup_cname host w2) refl))
  or_lookup-NotFound w w1 w2 host file named opened panic q = tt

  -- An error of `Hostname`, and the world behind it.
  abbrev Unknown : W → Error → W → Type 0
  Unknown w e w' =
      (sys.os_hostname w ≡ (err e, w'))
      ⊎ ((e ≡ err_fqdn_not_found) × NotFound names resolve sys w w')

  hostname-IfErr : (w : W) → IfErr (Unknown w) (hostname names resolve sys w)
  unfolding hostname
  hostname-IfErr w = for_host (sys.os_hostname w) refl
    where
      for_host :
          (p : Result Text × W)
          → sys.os_hostname w ≡ p
          → IfErr (Unknown w) (with_host names resolve sys p)
      for_host (ok host, w1) e =
          unfold with_host in
          IfErr-map _ (Unknown w)
            (or_lookup names resolve sys host (from_hosts names resolve (sys.open_hosts w1).0 host)
              (sys.open_hosts w1).1)
            (λ x w' h. inr h)
            (or_lookup-NotFound w w1 (sys.open_hosts w1).1 host (sys.open_hosts w1).0 e refl
              (from_hosts names resolve (sys.open_hosts w1).0 host) refl)
      for_host (err x, w1) e = unfold with_host in inl e
      for_host (panic, w1) e = unfold with_host in tt

  -- If `Hostname` fails, either the operating system's host name cannot be read, and its error is
  -- returned; or the error is `ErrFqdnNotFound`, and then the hosts file gave no name for the host,
  -- its canonical name could not be looked up or was empty, and its addresses could not be looked
  -- up or each of them was asked for a name in turn without getting one.
  pub hostname-NotFound :
      (w w' : W) (e : Error)
      → hostname names resolve sys w ≡ (err e, w')
      → (sys.os_hostname w ≡ (err e, w'))
        ⊎ ((e ≡ err_fqdn_not_found) × NotFound names resolve sys w w')
  hostname-NotFound w w' e h = subst (IfErr (Unknown w)) h (hostname-IfErr w)
