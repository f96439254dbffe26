-- ===== src/Fqdn/Laws.antt =====
-- A name from the hosts file is the canonical first name of a record that holds the host.
use getresolvd.Base.{
  true, false, List, [], ◌∷◌, ◌++◌, ◌≡◌, refl, ap, Text, Bool-cases, inl, inr, ◌⊎◌, All,
}
use getresolvd.Errors.{Result, ok, err}
use getresolvd.Deps.{DnsNames}
use getresolvd.Hostsfile.{IpAddr, Record, matches}
use getresolvd.Hostsfile.Laws.{matches-ne_nil}
use getresolvd.Fqdn.{first_name, find_record, err_fqdn_not_found}

module _ (names : DnsNames) (resolve : Text → Result IpAddr) where
  -- The first record that holds the host, with the first of its names.
  pub record FirstMatch (records : List Record) (host name : Text) : Type 0 where
    pub entry : Record
    pub more : List Text
    pub before : List Record
    pub after : List Record
    pub split : records ≡ before ++ entry ∷ after
    pub none_before : All (λ r. matches names r host ≡ false) before
    pub holds : matches names entry host ≡ true
    pub named : entry.hostnames ≡ name ∷ more

  later :
      (r : Record) (records : List Record) (host name : Text)
      → matches names r host ≡ false
      → FirstMatch records host name
      → FirstMatch (r ∷ records) host name
  later r records host name other m = record {
    entry = m.entry;
    more = m.more;
    before = r ∷ m.before;
    after = m.after;
    split = ap (◌∷◌ r) m.split;
    none_before = (other, m.none_before);
    holds = m.holds;
    named = m.named;
  }

  here :
      (r : Record) (records : List Record) (host : Text)
      → matches names r host ≡ true
      → (hns : List Text) → r.hostnames ≡ hns
      → (name : Text) × (find_record names resolve (r ∷ records) host ≡ ok name)
        × FirstMatch (r ∷ records) host name
  unfolding find_record first_name
  here r records host h [] e = absurd (matches-ne_nil names r host h e)
  here r records host h (hn ∷ hns) e = (
    hn,
    rw (h, find_record, e),
    record {
      entry = r;
      more = hns;
      before = [];
      after = records;
      split = refl;
      none_before = tt;
      holds = h;
      named = e;
    },
  )

  -- Over the records of a hosts file the search does not panic: it finds the first name of the first
  -- record that holds the host, or reports that there is none.
  pub find_record_lem :
      (records : List Record) (host : Text)
      → ((name : Text) × (find_record names resolve records host ≡ ok name)
          × FirstMatch records host name)
        ⊎ (All (λ r. matches names r host ≡ false) records
            × (find_record names resolve records host ≡ err err_fqdn_not_found))
  unfolding find_record
  find_record_lem [] host = inr (tt, refl)
  find_record_lem (r ∷ records) host = elim (Bool-cases (matches names r host)) [
    | inl h ↦ inl (here r records host h r.hostnames refl)
    | inr h ↦ elim (find_record_lem records host) [
      | inl (name, e, m) ↦ inl (name, rw (h, find_record) e, later r records host name h m)
      | inr (none_holds, e) ↦ inr ((h, none_holds), rw (h, find_record) e)
    ]
  ]
