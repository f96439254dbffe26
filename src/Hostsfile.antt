-- ===== src/Hostsfile.antt =====
-- internal/hostsfile: the records of a hosts file.
pub mod Laws
pub mod RoundTrip
use getresolvd.Base.{
  Bool, true, false, ◌&&◌, ◌||◌, not, List, [], ◌∷◌, ◌++◌, Option, none, some, Text, codes, text_eq,
  fields, ◌==◌, trim_space, if◌then◌else◌,
}
use getresolvd.Netip.{Bytes}
use getresolvd.Errors.{Error, plain, Result, ok, err, panic, ◌>>=◌}
use getresolvd.Deps.{DnsNames, Scan}

-- `net.IPAddr`.
pub record IpAddr : Type 0 where
  pub ip : Bytes
  pub zone : Text

-- `Record`, a line of the file.
pub record Record : Type 0 where
  pub ip_address : IpAddr
  pub hostnames : List Text
  pub comment : Text
  pub is_blank : Bool

-- `new(Record)`.
abbrev pub empty_record : Record
empty_record = record {
  ip_address = record { ip = []; zone = [] };
  hostnames = [];
  comment = [];
  is_blank = false;
}

abbrev contains_name : List Text → Text → Bool
contains_name [] name = false
contains_name (hn ∷ hns) name = text_eq hn name || contains_name hns name

module _ (names : DnsNames) where
  -- `(*Record).Matches`.
  unfoldable pub matches : Record → Text → Bool
  matches r hostname = contains_name r.hostnames (names.canonical_name hostname)

  -- The loop over `vals[1:]`, which a `#` ends.
  unfoldable pub read_names : List Text → List Text
  read_names [] = []
  read_names ([] ∷ vals) =
      let rest = read_names vals in
      if names.is_domain_name [] then names.canonical_name [] ∷ rest else rest
  read_names ((c ∷ name) ∷ vals) =
      let rest = read_names vals in
      if c == b'#'
      then []
      else if names.is_domain_name (c ∷ name)
      then names.canonical_name (c ∷ name) ∷ rest
      else rest

  -- `net.ResolveIPAddr("ip", s)`, which may ask the system's resolver.
  module _ (resolve_ip_addr : Text → Result IpAddr) where
    with_address : Result IpAddr → List Text → Result Record
    with_address (ok ip) vals =
        ok (record empty_record { ip_address = ip; hostnames = read_names vals })
    with_address (err e) vals = err e
    with_address panic vals = panic

    -- A line with an address.
    read_entry : Text → List Text → Result Record
    read_entry line (val ∷ v ∷ vals) = with_address (resolve_ip_addr val) (v ∷ vals)
    read_entry line _ = err (plain (codes "invalid hostsfile entry: " ++ line))

    -- The body of the loop, on the trimmed line.
    read_trimmed : Text → Result Record
    read_trimmed [] = ok (record empty_record { is_blank = true })
    read_trimmed (c ∷ line) =
        if c == b'#'
        then ok (record empty_record { comment = c ∷ line })
        else read_entry (c ∷ line) (fields (c ∷ line))

    unfoldable pub read_line : Text → Result Record
    unfolding read_trimmed read_entry with_address
    read_line raw = read_trimmed (trim_space raw)

    decode_loop : List Record → List Text → Option Error → Result (List Record)
    decode_loop records [] none = ok records
    decode_loop records [] (some e) = err e
    decode_loop records (raw ∷ lines) failure =
        read_line raw >>= λ r. decode_loop (records ++ r ∷ []) lines failure

    -- `Decode`.
    unfoldable pub decode : Scan → Result (List Record)
    unfolding decode_loop read_line
    decode s = decode_loop [] s.lines s.failure
