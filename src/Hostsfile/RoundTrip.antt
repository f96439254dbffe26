-- ===== src/Hostsfile/RoundTrip.antt =====
-- A hosts file written from lines decodes to the records of these lines.
use mathlib.Core.List.{append_assoc, append-nil}
use getresolvd.Base.{
  All-append, true, false, List, [], ◌∷◌, ◌++◌, ◌≡◌, ◌≢◌, refl, sym, ap, ◌∙◌, none, Text, codes,
  fields, trim_space, join_text, All, map, ◌==◌,
}
use getresolvd.Base.Texts.Words.{IsWord, fields-join_text}
use getresolvd.Base.Texts.Trim.{trim_space-join_text}
use getresolvd.Errors.{Result, ok}
use getresolvd.Deps.{DnsNames}
use getresolvd.Hostsfile.{
  IpAddr, Record, empty_record, read_names, with_address, read_entry, read_trimmed, read_line,
  decode_loop, decode,
}

-- A line of a hosts file: an address with its names, at least one, and the words of a comment behind
-- them, if any; a comment alone; or nothing.
pub data Line : Type 0 where
  entry : Text → Text → List Text → List Text → Line
  note : Text → Line
  blank : Line

-- The line as it is written.
abbrev pub line_text : Line → Text
line_text (entry address name more rest) = join_text (address ∷ name ∷ more ++ rest) (codes " ")
line_text (note comment) = b'#' ∷ comment
line_text blank = []

-- The text does not begin a comment.
abbrev pub IsPlain : Text → Type 0
IsPlain [] = Unit
IsPlain (c ∷ s) = (c == b'#') ≡ false

-- Nothing, or words of which the first begins a comment.
abbrev pub IsTail : List Text → Type 0
IsTail [] = Unit
IsTail ([] ∷ ws) = ⊥
IsTail ((c ∷ w) ∷ ws) = ((c == b'#') ≡ true) × All IsWord ((c ∷ w) ∷ ws)

tail_words : (rest : List Text) → IsTail rest → All IsWord rest
tail_words [] h = tt
tail_words ([] ∷ ws) h = elim h [ ]
tail_words ((c ∷ w) ∷ ws) h = h.1

module _ (names : DnsNames) (resolve : Text → Result IpAddr) where
  -- A domain name in canonical form.
  abbrev pub IsName : Text → Type 0
  IsName n = IsWord n × IsPlain n × (names.is_domain_name n ≡ true) × (names.canonical_name n ≡ n)

  -- A line that is written as it is read.
  abbrev pub IsPrintable : Line → Type 0
  IsPrintable (entry address name more rest) =
      IsWord address
      × IsPlain address
      × All IsName (name ∷ more)
      × IsTail rest
      × (ip : IpAddr) × (resolve address ≡ ok ip)
  IsPrintable (note comment) = trim_space (b'#' ∷ comment) ≡ b'#' ∷ comment
  IsPrintable blank = Unit

  abbrev pub address_of : Result IpAddr → IpAddr
  address_of (ok ip) = ip
  address_of _ = empty_record.ip_address

  -- The record that a line stands for.
  abbrev pub record_of : Line → Record
  record_of (entry address name more rest) = record empty_record {
    ip_address = address_of (resolve address);
    hostnames = name ∷ more;
  }
  record_of (note comment) = record empty_record { comment = b'#' ∷ comment }
  record_of blank = record empty_record { is_blank = true }

  names_words : (ns : List Text) → All IsName ns → All IsWord ns
  names_words [] h = tt
  names_words (n ∷ ns) h = (h.0.0, names_words ns h.1)

  read_names-tail : (rest : List Text) → IsTail rest → read_names names rest ≡ []
  unfolding read_names
  read_names-tail [] h = refl
  read_names-tail ([] ∷ ws) h = elim h [ ]
  read_names-tail ((c ∷ w) ∷ ws) h = rw h.0 refl

  read_names-same :
      (ns rest : List Text) → All IsName ns → IsTail rest → read_names names (ns ++ rest) ≡ ns
  unfolding read_names
  read_names-same [] rest h t = read_names-tail rest t
  read_names-same ([] ∷ ns) rest h t = absurd (h.0.0.0 refl)
  read_names-same ((c ∷ n) ∷ ns) rest h t =
      let (word, plain, valid, canonical) = h.0 in
      rw (plain, valid, canonical, read_names-same ns rest h.1 t) refl

  read_entry-fields :
      (address name : Text) (more rest : List Text) (ip : IpAddr) (line : Text) (ws : List Text)
      → ws ≡ address ∷ name ∷ more ++ rest
      → All IsName (name ∷ more)
      → IsTail rest
      → resolve address ≡ ok ip
      → read_entry names resolve line ws ≡ ok (record_of (entry address name more rest))
  unfolding read_entry with_address
  read_entry-fields address name more rest ip line ws split h t e =
      rw (split, e, read_names-same (name ∷ more) rest h t) refl

  read_trimmed-plain :
      (s : Text) (r : Record)
      → s ≢ []
      → IsPlain s
      → read_entry names resolve s (fields s) ≡ ok r
      → read_trimmed names resolve s ≡ ok r
  unfolding read_trimmed
  read_trimmed-plain [] r n p e = absurd (n refl)
  read_trimmed-plain (c ∷ s) r n p e = rw p e

  IsPlain-append : (s t : Text) → s ≢ [] → IsPlain s → IsPlain (s ++ t)
  IsPlain-append [] t n p = absurd (n refl)
  IsPlain-append (c ∷ s) t n p = p

  append-ne_nil : (s t : Text) → s ≢ [] → (s ++ t) ≢ []
  append-ne_nil [] t n = absurd (n refl)
  append-ne_nil (c ∷ s) t n = λ e. cc

  read_line-line_text :
      (l : Line) → IsPrintable l → read_line names resolve (line_text l) ≡ ok (record_of l)
  unfolding read_line
  read_line-line_text (entry address name more rest) (word, plain, ns, tail, ip, e) =
      let ws = name ∷ more ++ rest in
      let behind = codes " " ++ join_text ws (codes " ") in
      let all : All IsWord (address ∷ ws) = (
        word,
        All-append IsWord (name ∷ more) rest (names_words (name ∷ more) ns) (tail_words rest tail),
      ) in
      rw (trim_space-join_text address ws all) (
        read_trimmed-plain (address ++ behind) _ (append-ne_nil address behind word.0)
          (IsPlain-append address behind word.0 plain)
          (read_entry-fields address name more rest ip _ _ (fields-join_text (address ∷ ws) all) ns
            tail e))
  read_line-line_text (note comment) h = rw h (unfold read_trimmed in refl)
  read_line-line_text blank h = unfold trim_space read_trimmed in refl

  decode_loop-line_text :
      (records : List Record) (ls : List Line)
      → All IsPrintable ls
      → decode_loop names resolve records (map line_text ls) none ≡ ok (records ++ map record_of ls)
  unfolding decode_loop
  decode_loop-line_text records [] h = ap ok (sym (append-nil records))
  decode_loop-line_text records (l ∷ ls) h = rw (read_line-line_text l h.0) (
      decode_loop-line_text (records ++ record_of l ∷ []) ls h.1
      ∙ ap ok (append_assoc records (record_of l ∷ []) (map record_of ls)))

  -- Lines of a hosts file are read back: entries whose address can be resolved, with valid names in
  -- canonical form that no `#` starts and perhaps the words of a comment behind them, comments without
  -- spaces at their end, and blank lines.
  pub decode-line_text :
      (ls : List Line)
      → All IsPrintable ls
      → decode names resolve (record { lines = map line_text ls; failure = none })
        ≡ ok (map record_of ls)
  unfolding decode
  decode-line_text ls h = decode_loop-line_text [] ls h
