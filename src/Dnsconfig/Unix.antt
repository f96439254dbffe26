-- ===== src/Dnsconfig/Unix.antt =====
-- `Read` and `dnsDefaultSearch` of internal/dnsconfig/config_unix.go.
pub mod Settings
pub mod RoundTrip
use getresolvd.Base.{
  ℕ, Bool, true, false, ◌||◌, List, [], ◌∷◌, ◌++◌, Option, none, some, Text, codes, text_eq, fields,
  join_text, if◌then◌else◌, ltb, ◌==◌, length,
}
use getresolvd.Errors.{Error, Result, ok}
use getresolvd.Deps.{DnsNames, ParseAddr, Scan}
use getresolvd.Dnsconfig.{Config, default_ns, initial}
use getresolvd.Dnsconfig.Options.{set_options}

-- What `os.Open` and `file.Stat` give: an error of one of them, or the modification time and the
-- scanner over the file.
pub data Opened : Type 0 where
  open_failed : Error → Opened
  stat_failed : Error → Opened
  opened : ℕ → Scan → Opened

module _ (names : DnsNames) (parse_addr : ParseAddr) (join_host_port : Text → Text → Text) where
  -- The texts of package strings and of miekg/dns on the result of `getFqdnHostname`.
  search_of_labels : List Text → List Text
  search_of_labels (l ∷ m ∷ labels) = names.canonical_name (join_text (m ∷ labels) (codes ".")) ∷ []
  search_of_labels _ = []

  -- `dnsDefaultSearch`, for the name that `getFqdnHostname` returns; `none` is its error.
  unfoldable pub dns_default_search : Option Text → List Text
  unfolding search_of_labels
  dns_default_search (some hn) = search_of_labels (names.split_domain_name hn)
  dns_default_search none = []

  -- `case "nameserver"`.
  unfoldable pub add_server : Config → List Text → Config
  add_server conf [] = conf
  add_server conf (s ∷ _) =
      if ltb (length conf.servers) 3
      then elim (parse_addr s) [
        | some _ ↦ record conf { servers = conf.servers ++ join_host_port s (codes "53") ∷ [] }
        | none ↦ conf
      ]
      else conf

  -- `case "domain"`.
  unfoldable pub set_domain : Config → List Text → Config
  set_domain conf [] = conf
  set_domain conf (s ∷ _) = record conf { search = names.canonical_name s ∷ [] }

  -- The loop of `case "search"`.
  unfoldable pub search_list : List Text → List Text
  search_list [] = []
  search_list (s ∷ args) =
      let rest = search_list args in
      let name = names.canonical_name s in if text_eq name (codes ".") then rest else name ∷ rest

  -- The switch over the first word of a line.
  unfoldable pub directive : Config → Text → List Text → Config
  unfolding add_server set_domain search_list set_options
  directive conf word args =
      if text_eq word (codes "nameserver")
      then add_server conf args
      else if text_eq word (codes "domain")
      then set_domain conf args
      else if text_eq word (codes "search")
      then record conf { search = search_list args }
      else if text_eq word (codes "options")
      then set_options conf args
      else if text_eq word (codes "lookup")
      then record conf { lookup = args }
      else record conf { unknown_opt = true }

  -- `line[0] == ';' || line[0] == '#'`.
  abbrev pub is_comment : Text → Bool
  is_comment [] = false
  is_comment (c ∷ _) = c == b';' || c == b'#'

  unfoldable pub words : Config → List Text → Config
  words conf [] = conf
  words conf (word ∷ args) = directive conf word args

  -- The body of the loop over the lines.
  unfoldable pub read_line : Config → Text → Config
  unfolding words directive
  read_line conf line = if is_comment line then conf else words conf (fields line)

  unfoldable pub read_lines : Config → List Text → Config
  unfolding read_line
  read_lines conf [] = conf
  read_lines conf (line ∷ lines) = read_lines (read_line conf line) lines

  abbrev pub or_default : List Text → List Text → List Text
  or_default [] d = d
  or_default (s ∷ l) d = s ∷ l

  -- What follows the loop.
  unfoldable pub finish : Option Text → Config → Option Error → Config × Option Error
  finish hostname conf (some e) = (conf, some e)
  finish hostname conf none = (
    record conf {
      servers = or_default conf.servers default_ns;
      search = or_default conf.search (dns_default_search hostname);
    },
    none,
  )

  -- `Read`: the configuration, and the error that comes with it.
  unfoldable pub read : Option Text → Opened → Config × Option Error
  unfolding finish read_lines dns_default_search
  read hostname (open_failed e) =
      (record initial { servers = default_ns; search = dns_default_search hostname }, some e)
  read hostname (stat_failed e) =
      (record initial { servers = default_ns; search = dns_default_search hostname }, some e)
  read hostname (opened time s) =
      finish hostname (read_lines (record initial { m_time = time }) s.lines) s.failure
