-- ===== src/Hostsfile/Laws.antt =====
-- What `Decode` leaves in the records.
use getresolvd.Base.{
  true, List, [], ◌∷◌, ◌++◌, ◌≡◌, ◌≢◌, refl, ap, arith, Option, some, none, Text, Bool-cases, inl,
  inr, All, All-append, length, length-append, trim_space, fields, ◌==◌, ◌+◌,
}
use getresolvd.Errors.{Error, Result, ok, err, panic}
use getresolvd.Errors.Laws.{>>=-eq-ok}
use getresolvd.Deps.{DnsNames, Scan}
use getresolvd.Hostsfile.{
  IpAddr, Record, matches, read_names, with_address, read_entry, read_trimmed, read_line,
  decode_loop, decode,
}

module _ (names : DnsNames) where
  -- The name is a valid domain name in canonical form.
  abbrev pub IsCanonical : Text → Type 0
  IsCanonical hn =
      (raw : Text) × (names.is_domain_name raw ≡ true) × (hn ≡ names.canonical_name raw)

  read_names-IsCanonical : (vals : List Text) → All IsCanonical (read_names names vals)
  unfolding read_names
  read_names-IsCanonical [] = tt
  read_names-IsCanonical ([] ∷ vals) = elim (Bool-cases (names.is_domain_name [])) [
    | inl h ↦ rw h (([], h, refl), read_names-IsCanonical vals)
    | inr h ↦ rw h (read_names-IsCanonical vals)
  ]
  read_names-IsCanonical ((c ∷ name) ∷ vals) = elim (Bool-cases (c == b'#')) [
    | inl mark ↦ rw mark tt
    | inr plain ↦ rw plain (elim (Bool-cases (names.is_domain_name (c ∷ name))) [
      | inl h ↦ rw h ((c ∷ name, h, refl), read_names-IsCanonical vals)
      | inr h ↦ rw h (read_names-IsCanonical vals)
    ])
  ]

  -- `Matches` holds only of a record with a name, so its first name can be taken.
  pub matches-ne_nil :
      (r : Record) (hostname : Text) → matches names r hostname ≡ true → r.hostnames ≢ []
  unfolding matches
  matches-ne_nil r hostname h e = let no_name = rw (e, matches) at h in cc no_name

  module _ (resolve_ip_addr : Text → Result IpAddr) where
    abbrev pub NamesCanonical : Record → Type 0
    NamesCanonical r = All IsCanonical r.hostnames

    with_address-NamesCanonical :
        (ip : Result IpAddr) (vals : List Text) (r : Record)
        → with_address names resolve_ip_addr ip vals ≡ ok r
        → NamesCanonical r
    unfolding with_address
    with_address-NamesCanonical (ok ip) vals r e =
        let same : r.hostnames ≡ read_names names vals = cc in rw same (read_names-IsCanonical vals)
    with_address-NamesCanonical (err x) vals r e = cc
    with_address-NamesCanonical panic vals r e = cc

    read_entry-NamesCanonical :
        (line : Text) (vals : List Text) (r : Record)
        → read_entry names resolve_ip_addr line vals ≡ ok r
        → NamesCanonical r
    unfolding read_entry
    read_entry-NamesCanonical line (val ∷ v ∷ vals) r e =
        with_address-NamesCanonical (resolve_ip_addr val) (v ∷ vals) r e
    read_entry-NamesCanonical line (val ∷ []) r e = cc
    read_entry-NamesCanonical line [] r e = cc

    read_trimmed-NamesCanonical :
        (line : Text) (r : Record)
        → read_trimmed names resolve_ip_addr line ≡ ok r
        → NamesCanonical r
    unfolding read_trimmed
    read_trimmed-NamesCanonical [] r e = let same : r.hostnames ≡ [] = cc in rw same tt
    read_trimmed-NamesCanonical (c ∷ line) r e = elim (Bool-cases (c == b'#')) [
      | inl mark ↦
          let e' = rw (mark, read_trimmed) at e in let same : r.hostnames ≡ [] = cc e' in rw same tt
      | inr plain ↦
          read_entry-NamesCanonical (c ∷ line) (fields (c ∷ line)) r (rw (plain, read_trimmed) at e)
    ]

    decode_loop-lines :
        (records : List Record) (lines : List Text) (failure : Option Error) (out : List Record)
        → All NamesCanonical records
        → decode_loop names resolve_ip_addr records lines failure ≡ ok out
        → All NamesCanonical out × (length out ≡ length records + length lines) × (failure ≡ none)
    unfolding decode_loop
    decode_loop-lines records [] none out h e =
        let same : out ≡ records = cc in (rw same h, omega (arith, ap length same), refl)
    decode_loop-lines records [] (some x) out h e = cc
    decode_loop-lines records (raw ∷ lines) failure out h e =
        let (r, later, read) =
          >>=-eq-ok (read_line names resolve_ip_addr raw)
            (λ r. decode_loop names resolve_ip_addr (records ++ r ∷ []) lines failure) e in
        let new = read_trimmed-NamesCanonical (trim_space raw) r (unfold read_line in read) in
        let (all, count, ended) =
          decode_loop-lines (records ++ r ∷ []) lines failure out
            (All-append NamesCanonical records (r ∷ []) h (new, tt)) later in
        (all, omega (arith, count, length-append {0} records (r ∷ [])), ended)

    -- A file that decodes was read to its end with no error, has one record for each line, and
    -- every host name of a record is the canonical form of a valid domain name.
    pub decode-ok :
        (s : Scan) (out : List Record)
        → decode names resolve_ip_addr s ≡ ok out
        → All NamesCanonical out × (length out ≡ length s.lines) × (s.failure ≡ none)
    unfolding decode
    decode-ok s out e =
        let (all, count, ended) = decode_loop-lines [] s.lines s.failure out tt e in
        (all, omega (arith, count), ended)
