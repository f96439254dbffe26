-- ===== src/Fqdn/Tried.antt =====
-- What `Hostname` has tried when it finds no name.
use getresolvd.Base.{false, List, [], ◌∷◌, ◌≡◌, refl, sym, Text, inl, inr, All, ◌∙◌}
use getresolvd.Errors.{Error, Result, ok, err, panic}
use getresolvd.Deps.{DnsNames, Scan}
use getresolvd.Hostsfile.{IpAddr, Record, matches, decode}
use getresolvd.Fqdn.{System, in_records, in_file, from_hosts}
use getresolvd.Fqdn.Laws.{find_record_lem}

module _ {W : Type 0} (sys : System W) where
  -- The canonical name cannot be looked up, or is empty.
  pub data NoCname (host : Text) (w w' : W) : Type 0 where
    cname_fails : (e : Error) → sys.lookup_cname host w ≡ (err e, w') → NoCname host w w'
    cname_empty : sys.lookup_cname host w ≡ (ok [], w') → NoCname host w w'

  -- The addresses are looked up in turn, and none of them has a name.
  pub data NoReverse : List Text → W → W → Type 0 where
    all_tried : {w : W} → NoReverse [] w w
    addr_fails :
        {a : Text} {addrs : List Text} {w v w' : W} (e : Error)
        → sys.lookup_addr a w ≡ (err e, v)
        → NoReverse addrs v w'
        → NoReverse (a ∷ addrs) w w'
    addr_empty :
        {a : Text} {addrs : List Text} {w v w' : W}
        → sys.lookup_addr a w ≡ (ok [], v)
        → NoReverse addrs v w'
        → NoReverse (a ∷ addrs) w w'

  -- The host has no address that can be looked up, or none of them has a name.
  pub data NoAddress (host : Text) (w w' : W) : Type 0 where
    ip_fails : (e : Error) → sys.lookup_ip host w ≡ (err e, w') → NoAddress host w w'
    ip_unnamed :
        (addrs : List Text) (v : W)
        → sys.lookup_ip host w ≡ (ok addrs, v)
        → NoReverse addrs v w'
        → NoAddress host w w'

module _ (names : DnsNames) (resolve : Text → Result IpAddr) where
  -- The hosts file gives the host no name: it cannot be opened or parsed, or no record holds the host.
  pub data Unnamed (file : Result Scan) (host : Text) : Type 0 where
    unopened : (e : Error) → file ≡ err e → Unnamed file host
    undecoded :
        (s : Scan) (e : Error) → file ≡ ok s → decode names resolve s ≡ err e → Unnamed file host
    unmatched :
        (s : Scan) (records : List Record)
        → file ≡ ok s
        → decode names resolve s ≡ ok records
        → All (λ r. matches names r host ≡ false) records
        → Unnamed file host

  in_records-Unnamed :
      (s : Scan) (host : Text) (d : Result (List Record)) (e : Error)
      → decode names resolve s ≡ d
      → in_records names resolve d host ≡ err e
      → Unnamed (ok s) host
  unfolding in_records
  in_records-Unnamed s host (ok records) e read h =
      elim (find_record_lem names resolve records host) [
        | inl (name, same, m) ↦ let q = sym same ∙ h in cc
        | inr (none_holds, same) ↦ unmatched s records refl read none_holds
      ]
  in_records-Unnamed s host (err x) e read h = undecoded s x refl read
  in_records-Unnamed s host panic e read h = cc

  pub from_hosts-Unnamed :
      (file : Result Scan) (host : Text) (e : Error)
      → from_hosts names resolve file host ≡ err e
      → Unnamed file host
  unfolding from_hosts in_file
  from_hosts-Unnamed (ok s) host e h = in_records-Unnamed s host (decode names resolve s) e refl h
  from_hosts-Unnamed (err x) host e h = unopened x refl
  from_hosts-Unnamed panic host e h = cc

  module _ {W : Type 0} (sys : System W) where
    -- All that has been tried, in the order of the worlds.
    pub record NotFound (w w' : W) : Type 0 where
      pub host : Text
      pub named : W
      pub opened : W
      pub asked : W
      pub file : Result Scan
      pub has_host : sys.os_hostname w ≡ (ok host, named)
      pub has_file : sys.open_hosts named ≡ (file, opened)
      pub no_record : Unnamed file host
      pub no_cname : NoCname sys host opened asked
      pub no_address : NoAddress sys host asked w'
