-- ===== src/Hosts/Laws.antt =====
-- What a lookup sees of the hosts file, of `AddHost` and of `RemoveHost`.
use getresolvd.Base.{
  true, false, List, [], ◌∷◌, ◌++◌, ◌≡◌, ◌≢◌, refl, ap, ◌∙◌, none, some, Text, text_eq, text_eq_iff,
  text_eq_refl, subst, if◌then◌else◌, Bool-cases, inl, inr, All,
}
use getresolvd.Netip.{Addr}
use getresolvd.AddrSelect.Sort.{Dialer}
use getresolvd.Errors.{
  DnsError, empty_dns_error, dns_error, Result, ok, err, Merge, err_no_such_host,
}
use getresolvd.Errors.Laws.{MergeFills, extend_named, >>=-eq-ok}
use getresolvd.Deps.{DnsNames, NamesLawful, Filter, Scan}
use getresolvd.Hostsfile.{IpAddr, Record, decode}
use getresolvd.Hostsfile.Laws.{NamesCanonical, IsCanonical, decode-ok}
use getresolvd.Hosts.{
  NameMap, lookup, insert, or_nil, explain_parse, explain_address, add_names, add_records, hosts,
  add_host, remove_host, map_lookup, hosts_lookup,
}
use getresolvd.Hosts.Contents.{parsed_ok}
use getresolvd.Hosts.Names.{lookup-insert, lookup-erase}

-- The error of a name that is not there.
abbrev pub not_found : Text → DnsError
not_found host = record empty_dns_error { err = err_no_such_host; name = host; is_not_found = true }

module _ (names : DnsNames) (merge : Merge) (filter : Filter) {W : Type 0} (dialer : Dialer W) where
  -- After `AddHost`, a name with the same fully qualified form is looked up in the added addresses,
  -- in place of any older ones; every other name is looked up as before.
  pub hosts_lookup-add_host :
      (host : Text) (addrs : List Addr) (m : NameMap) (network name : Text) (w : W)
      → hosts_lookup names merge filter dialer (add_host names host addrs m) network name w ≡ (
          if text_eq (names.fqdn host) (names.fqdn name)
          then hosts_lookup names merge filter dialer ((names.fqdn name, addrs) ∷ []) network name w
          else hosts_lookup names merge filter dialer m network name w)
  unfolding hosts_lookup add_host
  hosts_lookup-add_host host addrs m network name w =
      ap (λ found. map_lookup names merge filter dialer found network name w)
        (lookup-insert (names.fqdn host) (names.fqdn name) addrs m)
      ∙ (elim (Bool-cases (text_eq (names.fqdn host) (names.fqdn name))) [
        | inl same ↦ rw (same, text_eq_refl (names.fqdn name))
        | inr other ↦ rw other
      ])

  not_found-lookup :
      MergeFills merge
      → (network name : Text) (w : W)
      → map_lookup names merge filter dialer none network name w
        ≡ (err (dns_error (not_found name)), w)
  unfolding map_lookup
  not_found-lookup fills network name w =
      ap (λ r. (r, w)) (extend_named merge fills name [] err_no_such_host false false true)

  -- If the merge of errors fills empty fields: after `RemoveHost`, a name with the same fully qualified form is not found, and every other name
  -- is looked up as before.
  pub hosts_lookup-remove_host :
      MergeFills merge
      → (host : Text) (m : NameMap) (network name : Text) (w : W)
      → hosts_lookup names merge filter dialer (remove_host names host m) network name w ≡ (
          if text_eq (names.fqdn host) (names.fqdn name)
          then (err (dns_error (not_found name)), w)
          else hosts_lookup names merge filter dialer m network name w)
  unfolding hosts_lookup remove_host
  hosts_lookup-remove_host fills host m network name w =
      ap (λ found. map_lookup names merge filter dialer found network name w)
        (lookup-erase (names.fqdn host) (names.fqdn name) m)
      ∙ (elim (Bool-cases (text_eq (names.fqdn host) (names.fqdn name))) [
        | inl same ↦ rw same (not_found-lookup fills network name w)
        | inr other ↦ rw other
      ])

-- Every key of the map is a fully qualified name in canonical form.
abbrev KeysCanonical : DnsNames → NameMap → Type 0
KeysCanonical names [] = Unit
KeysCanonical names ((k, v) ∷ m) = (names.canonical_name k ≡ k) × KeysCanonical names m

insert-KeysCanonical :
    (names : DnsNames) (k : Text) (v : List Addr) (m : NameMap)
    → names.canonical_name k ≡ k
    → KeysCanonical names m
    → KeysCanonical names (insert k v m)
unfolding insert
insert-KeysCanonical names k v [] c h = (c, tt)
insert-KeysCanonical names k v ((j, u) ∷ m) c h = elim (Bool-cases (text_eq j k)) [
  | inl same ↦ rw same (h.0, h.1)
  | inr other ↦ rw other (h.0, insert-KeysCanonical names k v m c h.1)
]

lookup-KeysCanonical :
    (names : DnsNames) (k : Text) (m : NameMap)
    → names.canonical_name k ≢ k
    → KeysCanonical names m
    → lookup k m ≡ none
unfolding lookup
lookup-KeysCanonical names k [] c h = refl
lookup-KeysCanonical names k ((j, u) ∷ m) c h = elim (Bool-cases (text_eq j k)) [
  | inl same ↦ absurd (c (subst (λ t. names.canonical_name t ≡ t) ((text_eq_iff j k).0 same) h.0))
  | inr other ↦ rw other (lookup-KeysCanonical names k m c h.1)
]

module _ (names : DnsNames) (lawful : NamesLawful names) (to_addr : IpAddr → Result Addr) where
  add_names-KeysCanonical :
      (ip : IpAddr) (hns : List Text) (m out : NameMap)
      → All (IsCanonical names) hns
      → KeysCanonical names m
      → add_names names to_addr ip hns m ≡ ok out
      → KeysCanonical names out
  unfolding add_names
  add_names-KeysCanonical ip [] m out c h e = let same : out ≡ m = cc in rw same h
  add_names-KeysCanonical ip (hn ∷ hns) m out c h e =
      let (addr, later, _) =
        >>=-eq-ok (explain_address (to_addr ip))
          (λ addr.
            add_names names to_addr ip hns
              (insert (names.fqdn hn) (or_nil (lookup (names.fqdn hn) m) ++ addr ∷ []) m))
          e in
      add_names-KeysCanonical ip hns _ out c.1
        (insert-KeysCanonical names (names.fqdn hn) _ m (key hn c.0) h) later
    where
      key :
          (hn : Text) → IsCanonical names hn → names.canonical_name (names.fqdn hn) ≡ names.fqdn hn
      key hn (raw, _, e) = rw e (rw (lawful.fqdn-canonical raw) (lawful.canonical_idem raw))

  add_records-KeysCanonical :
      (resolve : Text → Result IpAddr) (records : List Record) (m out : NameMap)
      → All (NamesCanonical names resolve) records
      → KeysCanonical names m
      → add_records names to_addr records m ≡ ok out
      → KeysCanonical names out
  unfolding add_records
  add_records-KeysCanonical resolve [] m out c h e = let same : out ≡ m = cc in rw same h
  add_records-KeysCanonical resolve (r ∷ records) m out c h e =
      let (m', later, first) =
        >>=-eq-ok (add_names names to_addr r.ip_address r.hostnames m)
          (λ m'. add_records names to_addr records m') e in
      add_records-KeysCanonical resolve records m' out c.1
        (add_names-KeysCanonical r.ip_address r.hostnames m m' c.0 h first) later

  hosts-KeysCanonical :
      (resolve : Text → Result IpAddr) (reader : Scan) (m : NameMap)
      → hosts names to_addr resolve (some reader) ≡ ok m
      → KeysCanonical names m
  unfolding hosts
  hosts-KeysCanonical resolve reader m e =
      let (records, later, read) =
        >>=-eq-ok (explain_parse (decode names resolve reader))
          (λ records. add_records names to_addr records []) e in
      let decoded = parsed_ok (decode names resolve reader) records read in
      add_records-KeysCanonical resolve records [] m
        (decode-ok names resolve reader records decoded).0 tt later

  -- If the functions on names are idempotent as documented and the merge of errors fills empty
  -- fields: a resolver read from a hosts file, with no host added, never finds a name whose fully qualified
  -- form is not canonical (such as one with an upper-case letter), whatever the file says.
  pub hosts_not_canonical :
      (merge : Merge) (filter : Filter) {W : Type 0} (dialer : Dialer W)
      → MergeFills merge
      → (resolve : Text → Result IpAddr) (reader : Scan) (m : NameMap)
      → hosts names to_addr resolve (some reader) ≡ ok m
      → (network host : Text) (w : W) → names.canonical_name (names.fqdn host) ≢ names.fqdn host
      → hosts_lookup names merge filter dialer m network host w
        ≡ (err (dns_error (not_found host)), w)
  unfolding hosts_lookup
  hosts_not_canonical merge filter dialer fills resolve reader m e network host w c =
      ap (λ found. map_lookup names merge filter dialer found network host w)
        (lookup-KeysCanonical names (names.fqdn host) m c (hosts-KeysCanonical resolve reader m e))
      ∙ not_found-lookup names merge filter dialer fills network host w
