-- ===== src/Hosts/Contents.antt =====
-- What the map holds after the hosts file is read.
use mathlib.Core.List.{append-nil, append_assoc}
use getresolvd.Base.{
  arith, List, [], ◌∷◌, ◌++◌, ◌≡◌, refl, sym, ap, ◌∙◌, Option, none, some, Text, text_eq_iff,
  text_eq_refl, text_eq, if◌then◌else◌, Bool-cases, inl, inr, subst,
}
use getresolvd.Netip.{Addr}
use getresolvd.Errors.{Merge, Result, ok, err, panic, ◌>>=◌}
use getresolvd.Errors.Laws.{>>=-eq-ok}
use getresolvd.Deps.{DnsNames, Filter, Scan}
use getresolvd.AddrSelect.Sort.{Dialer}
use getresolvd.Hostsfile.{IpAddr, Record, decode}
use getresolvd.Hosts.{
  NameMap, lookup, insert, or_nil, explain_parse, explain_address, add_names, add_records, hosts,
  map_lookup, hosts_lookup,
}
use getresolvd.Hosts.Names.{lookup-insert}

pub parsed_ok :
    (d : Result (List Record)) (records : List Record)
    → explain_parse d ≡ ok records
    → d ≡ ok records
unfolding explain_parse
parsed_ok (ok out) records q = q
parsed_ok (err x) records q = cc
parsed_ok panic records q = cc

explained_ok : (r : Result Addr) (a : Addr) → explain_address r ≡ ok a → r ≡ ok a
unfolding explain_address
explained_ok (ok b) a e = e
explained_ok (err x) a e = cc
explained_ok panic a e = cc

module _ (names : DnsNames) (to_addr : IpAddr → Result Addr) where
  -- The addresses that a line gives a name: its own, once for each of its names with that fully
  -- qualified form.
  abbrev pub line_ips : Text → IpAddr → List Text → List IpAddr
  line_ips k ip [] = []
  line_ips k ip (hn ∷ hns) =
      let rest = line_ips k ip hns in if text_eq (names.fqdn hn) k then ip ∷ rest else rest

  -- The addresses that the file gives a name, in the order of its lines.
  abbrev pub file_ips : Text → List Record → List IpAddr
  file_ips k [] = []
  file_ips k (r ∷ records) = line_ips k r.ip_address r.hostnames ++ file_ips k records

  -- All of them, as addresses.
  abbrev pub to_addrs : List IpAddr → Result (List Addr)
  to_addrs [] = ok []
  to_addrs (ip ∷ ips) = to_addr ip >>= λ a. to_addrs ips >>= λ as_. ok (a ∷ as_)

  -- More addresses for a name; no addresses leave it as it is.
  abbrev joined : Option (List Addr) → List Addr → Option (List Addr)
  joined found [] = found
  joined found (a ∷ addrs) = some (or_nil found ++ a ∷ addrs)

  joined-append :
      (found : Option (List Addr)) (xs ys : List Addr)
      → joined (joined found xs) ys ≡ joined found (xs ++ ys)
  joined-append found [] ys = refl
  joined-append found (x ∷ xs) [] = ap some (rw (append-nil xs))
  joined-append found (x ∷ xs) (y ∷ ys) = ap some (append_assoc (or_nil found) (x ∷ xs) (y ∷ ys))

  -- `out` holds for `k` what `m` holds, and these addresses behind.
  abbrev Extends : Text → NameMap → List IpAddr → NameMap → Type 0
  Extends k m ips out =
      (new : List Addr) × (to_addrs ips ≡ ok new) × (lookup k out ≡ joined (lookup k m) new)

  pub to_addrs-append :
      (xs ys : List IpAddr) (a b : List Addr)
      → to_addrs xs ≡ ok a
      → to_addrs ys ≡ ok b
      → to_addrs (xs ++ ys) ≡ ok (a ++ b)
  to_addrs-append [] ys [] b h k = k
  to_addrs-append [] ys (x ∷ a) b h k = cc
  to_addrs-append (x ∷ xs) ys a b h k =
      let (addr, rest, first) =
        >>=-eq-ok (to_addr x) (λ a. to_addrs xs >>= λ as_. ok (a ∷ as_)) h in
      let (addrs, end, more) = >>=-eq-ok (to_addrs xs) (λ as_. ok (addr ∷ as_)) rest in
      let whole = to_addrs-append xs ys addrs b more k in
      let same : addr ∷ addrs ≡ a = cc in rw (first, whole) (ap (λ l. ok (l ++ b)) same)

  Extends-trans :
      (k : Text) (m mid out : NameMap) (xs ys : List IpAddr)
      → Extends k m xs mid
      → Extends k mid ys out
      → Extends k m (xs ++ ys) out
  Extends-trans k m mid out xs ys (a, f, e) (b, g, h) = (
    a ++ b,
    to_addrs-append xs ys a b f g,
    h ∙ (ap (λ found. joined found b) e ∙ joined-append (lookup k m) a b),
  )

  -- The assignment in the inner loop.
  insert-Extends :
      (k hn : Text) (ip : IpAddr) (addr : Addr) (m : NameMap)
      → to_addr ip ≡ ok addr
      → Extends k m
          (line_ips k ip (hn ∷ []))
          (insert (names.fqdn hn) (or_nil (lookup (names.fqdn hn) m) ++ addr ∷ []) m)
  insert-Extends k hn ip addr m e =
      let now = or_nil (lookup (names.fqdn hn) m) ++ addr ∷ [] in
      elim (Bool-cases (text_eq (names.fqdn hn) k)) [
        | inl same ↦ (
          addr ∷ [],
          rw (same, e),
          lookup-insert (names.fqdn hn) k now m ∙ rw (same, (text_eq_iff (names.fqdn hn) k).0 same),
        )
        | inr other ↦ ([], rw other, lookup-insert (names.fqdn hn) k now m ∙ rw other)
      ]

  add_names-Extends :
      (k : Text) (ip : IpAddr) (hns : List Text) (m out : NameMap)
      → add_names names to_addr ip hns m ≡ ok out
      → Extends k m (line_ips k ip hns) out
  unfolding add_names
  add_names-Extends k ip [] m out e = let same : m ≡ out = cc in ([], refl, rw same)
  add_names-Extends k ip (hn ∷ hns) m out e =
      let add = λ (addr : Addr).
        insert (names.fqdn hn) (or_nil (lookup (names.fqdn hn) m) ++ addr ∷ []) m in
      let (addr, later, got) =
        >>=-eq-ok (explain_address (to_addr ip)) (λ addr. add_names names to_addr ip hns (add addr))
          e in
      let both =
        Extends-trans k m (add addr) out (line_ips k ip (hn ∷ [])) (line_ips k ip hns)
          (insert-Extends k hn ip addr m (explained_ok (to_addr ip) addr got))
          (add_names-Extends k ip hns (add addr) out later) in
      subst (λ ips. Extends k m ips out) (line_ips-cons k hn) both
    where
      line_ips-cons :
          (k hn : Text) → line_ips k ip (hn ∷ []) ++ line_ips k ip hns ≡ line_ips k ip (hn ∷ hns)
      line_ips-cons k hn = ground arith

  add_records-Extends :
      (k : Text) (records : List Record) (m out : NameMap)
      → add_records names to_addr records m ≡ ok out
      → Extends k m (file_ips k records) out
  unfolding add_records
  add_records-Extends k [] m out e = let same : m ≡ out = cc in ([], refl, rw same)
  add_records-Extends k (r ∷ records) m out e =
      let (mid, later, first) =
        >>=-eq-ok (add_names names to_addr r.ip_address r.hostnames m)
          (λ mid. add_records names to_addr records mid) e in
      Extends-trans k m mid out (line_ips k r.ip_address r.hostnames) (file_ips k records)
        (add_names-Extends k r.ip_address r.hostnames m mid first)
        (add_records-Extends k records mid out later)

  -- The map with one name, unless it has no address.
  abbrev pub entry : Text → List Addr → NameMap
  entry k [] = []
  entry k (a ∷ addrs) = (k, a ∷ addrs) ∷ []

  lookup-entry : (k : Text) (addrs : List Addr) → lookup k (entry k addrs) ≡ joined none addrs
  unfolding lookup
  lookup-entry k [] = refl
  lookup-entry k (a ∷ addrs) = rw (text_eq_refl k)

  -- After a hosts file is read, a lookup answers from the addresses of the lines that give the host's
  -- fully qualified form as a name, in the order of the file, and as if nothing else was in it.
  pub hosts_lookup-file :
      (merge : Merge) (filter : Filter) {W : Type 0} (dialer : Dialer W)
      (resolve : Text → Result IpAddr) (reader : Scan) (m : NameMap) (network host : Text) (w : W)
      → hosts names to_addr resolve (some reader) ≡ ok m
      → (records : List Record) × (addrs : List Addr) × (decode names resolve reader ≡ ok records)
        × (to_addrs (file_ips (names.fqdn host) records) ≡ ok addrs)
        × (hosts_lookup names merge filter dialer m network host w
            ≡ hosts_lookup names merge filter dialer (entry (names.fqdn host) addrs) network host w)
  unfolding hosts hosts_lookup
  hosts_lookup-file merge filter dialer resolve reader m network host w e =
      let (records, later, read) =
        >>=-eq-ok (explain_parse (decode names resolve reader))
          (λ records. add_records names to_addr records []) e in
      let (addrs, made, held) = add_records-Extends (names.fqdn host) records [] m later in
      (
        records,
        addrs,
        parsed_ok (decode names resolve reader) records read,
        made,
        ap (λ found. map_lookup names merge filter dialer found network host w)
            (held ∙ sym (lookup-entry (names.fqdn host) addrs)),
      )
