-- ===== src/Hosts/Written.antt =====
-- A hosts file written from lines, read and looked up.
use getresolvd.Base.{
  List, [], ◌∷◌, ◌++◌, ◌≡◌, refl, sym, ap, ◌∙◌, none, some, Text, text_eq, if◌then◌else◌,
  Bool-cases, inl, inr, All, map,
}
use getresolvd.Netip.{Addr}
use getresolvd.Errors.{Merge, Result, ok, err, panic, ◌>>=◌}
use getresolvd.Errors.Laws.{>>=-eq-ok}
use getresolvd.Deps.{DnsNames, Filter, Scan}
use getresolvd.AddrSelect.Sort.{Dialer}
use getresolvd.Hostsfile.{IpAddr}
use getresolvd.Hostsfile.RoundTrip.{
  Line, note, blank, line_text, IsPrintable, address_of, record_of, decode-line_text,
}
use getresolvd.Hosts.{
  NameMap, insert, lookup, or_nil, explain_parse, explain_address, add_names, add_records, hosts,
  hosts_lookup,
}
use getresolvd.Hosts.Contents.{
  line_ips, file_ips, to_addrs, to_addrs-append, entry, hosts_lookup-file,
}

-- The value, if there is one.
abbrev pub listed : Result Addr → List Addr
listed (ok a) = a ∷ []
listed (err e) = []
listed panic = []

-- The file that holds these lines.
abbrev pub file_of : List Line → Scan
file_of ls = record { lines = map line_text ls; failure = none }

ok_injective {ℓ} : {A : Type ℓ} {a b : A} → ◌≡◌ {A = Result A} (ok a) (ok b) → a ≡ b
ok_injective e = cc

module _ (names : DnsNames) (resolve : Text → Result IpAddr) (to_addr : IpAddr → Result Addr) where
  -- The address text of an entry stands for an address.
  abbrev pub HasAddr : Line → Type 0
  HasAddr (Line.entry address name more rest) = (a : Addr) × (resolve address >>= to_addr ≡ ok a)
  HasAddr (note comment) = Unit
  HasAddr blank = Unit

  -- These addresses, once for each of the names with this fully qualified form.
  abbrev pub line_addrs : Text → List Addr → List Text → List Addr
  line_addrs k addrs [] = []
  line_addrs k addrs (hn ∷ hns) =
      let rest = line_addrs k addrs hns in if text_eq (names.fqdn hn) k then addrs ++ rest else rest

  -- The addresses that the lines give a name.
  abbrev pub given : Text → List Line → List Addr
  given k [] = []
  given k (Line.entry address name more rest ∷ ls) =
      line_addrs k (listed (resolve address >>= to_addr)) (name ∷ more) ++ given k ls
  given k (note comment ∷ ls) = given k ls
  given k (blank ∷ ls) = given k ls

  to_addrs-line_ips :
      (k : Text) (ip : IpAddr) (a : Addr) (hns : List Text)
      → to_addr ip ≡ ok a
      → to_addrs names to_addr (line_ips names to_addr k ip hns) ≡ ok (line_addrs k (a ∷ []) hns)
  to_addrs-line_ips k ip a [] e = refl
  to_addrs-line_ips k ip a (hn ∷ hns) e = elim (Bool-cases (text_eq (names.fqdn hn) k)) [
    | inl h ↦ rw (h, e, to_addrs-line_ips k ip a hns e) refl
    | inr h ↦ rw h (to_addrs-line_ips k ip a hns e)
  ]

  -- The address text of an entry, resolved.
  abbrev ip_of : Text → IpAddr
  ip_of address = address_of names resolve (resolve address)

  to_addr-ip_of :
      (address : Text) (a : Addr)
      → resolve address >>= to_addr ≡ ok a
      → to_addr (ip_of address) ≡ ok a
  to_addr-ip_of address a e =
      let (ip, made, found) = >>=-eq-ok (resolve address) to_addr e in
      ap (λ r. to_addr (address_of names resolve r)) found ∙ made

  to_addrs-given :
      (k : Text) (ls : List Line)
      → All HasAddr ls
      → to_addrs names to_addr (file_ips names to_addr k (map (record_of names resolve) ls))
        ≡ ok (given k ls)
  to_addrs-given k [] h = refl
  to_addrs-given k (Line.entry address name more rest ∷ ls) h =
      to_addrs-append names to_addr (line_ips names to_addr k (ip_of address) (name ∷ more))
        (file_ips names to_addr k (map (record_of names resolve) ls)) _ _
        (to_addrs-line_ips k (ip_of address) h.0.0 (name ∷ more) (to_addr-ip_of address h.0.0 h.0.1)
          ∙ ap (λ r. ok (line_addrs k (listed r) (name ∷ more))) (sym h.0.1))
        (to_addrs-given k ls h.1)
  to_addrs-given k (note comment ∷ ls) h = to_addrs-given k ls h.1
  to_addrs-given k (blank ∷ ls) h = to_addrs-given k ls h.1

  add_names_total :
      (ip : IpAddr) (a : Addr) (hns : List Text) (m : NameMap)
      → to_addr ip ≡ ok a
      → (out : NameMap) × (add_names names to_addr ip hns m ≡ ok out)
  unfolding add_names explain_address
  add_names_total ip a [] m e = (m, refl)
  add_names_total ip a (hn ∷ hns) m e = rw e (
      add_names_total ip a hns
        (insert (names.fqdn hn) (or_nil (lookup (names.fqdn hn) m) ++ a ∷ []) m) e)

  add_records_total :
      (ls : List Line) (m : NameMap)
      → All HasAddr ls
      → (out : NameMap) × (add_records names to_addr (map (record_of names resolve) ls) m ≡ ok out)
  unfolding add_records add_names
  add_records_total [] m h = (m, refl)
  add_records_total (Line.entry address name more rest ∷ ls) m h =
      let (mid, added) =
        add_names_total (ip_of address) h.0.0 (name ∷ more) m (to_addr-ip_of address h.0.0 h.0.1) in
      let (out, last) = add_records_total ls mid h.1 in
      (
        out,
        ap (λ r. r >>= λ m'. add_records names to_addr (map (record_of names resolve) ls) m') added
            ∙ last,
      )
  add_records_total (note comment ∷ ls) m h = add_records_total ls m h.1
  add_records_total (blank ∷ ls) m h = add_records_total ls m h.1

  -- A hosts file written from lines whose addresses can be read makes a resolver.
  hosts_total :
      (ls : List Line)
      → All (IsPrintable names resolve) ls
      → All HasAddr ls
      → (m : NameMap) × (hosts names to_addr resolve (some (file_of ls)) ≡ ok m)
  unfolding hosts explain_parse
  hosts_total ls printable has =
      rw (decode-line_text names resolve ls printable) (add_records_total ls [] has)

  -- A hosts file written from lines, each an entry in canonical form with an address that can be
  -- read, a comment or blank, makes a resolver; and a lookup answers from the addresses of the entries
  -- that have the host's fully qualified form among their names, in the order of the lines.
  pub hosts_lookup-line_text :
      (merge : Merge) (filter : Filter) {W : Type 0} (dialer : Dialer W) (ls : List Line)
      → All (IsPrintable names resolve) ls
      → All HasAddr ls
      → (network host : Text) (w : W)
      → (m : NameMap) × (hosts names to_addr resolve (some (file_of ls)) ≡ ok m)
        × (hosts_lookup names merge filter dialer m network host w
            ≡ hosts_lookup names merge filter dialer
                (entry names to_addr (names.fqdn host) (given (names.fqdn host) ls))
                network
                host
                w)
  hosts_lookup-line_text merge filter dialer ls printable has network host w =
      let (m, made) = hosts_total ls printable has in
      let (records, addrs, read, listed_addrs, same) =
        hosts_lookup-file names to_addr merge filter dialer resolve (file_of ls) m network host w
          made in
      let records_same : ok records ≡ ok (map (record_of names resolve) ls) =
        sym read ∙ decode-line_text names resolve ls printable in
      let addrs_same : ok (given (names.fqdn host) ls) ≡ ok addrs =
        sym (to_addrs-given (names.fqdn host) ls has)
        ∙ (ap (λ l. to_addrs names to_addr (file_ips names to_addr (names.fqdn host) l))
              (sym (ok_injective records_same))
            ∙ listed_addrs) in
      (
        m,
        made,
        same
            ∙ ap
                (λ l.
                  hosts_lookup names merge filter dialer (entry names to_addr (names.fqdn host) l)
                    network host w)
                (sym (ok_injective addrs_same)),
      )
