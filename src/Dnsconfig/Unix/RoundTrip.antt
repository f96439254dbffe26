-- ===== src/Dnsconfig/Unix/RoundTrip.antt =====
-- A resolv.conf written from settings is read back as these settings.
use mathlib.Core.List.{append-nil, append_assoc}
use getresolvd.Base.{
  Option, ℕ, ◌+◌, ◌≤◌, true, false, List, [], ◌∷◌, ◌++◌, ◌≡◌, refl, sym, ap, ◌∙◌, arith, none, some,
  Text, codes, text_eq, ltb, length, length-append, map, All, suc,
}
use getresolvd.Base.Texts.Words.{IsWord, no_space, fields-join_text}
use getresolvd.Netip.{Addr}
use getresolvd.Deps.{DnsNames, ParseAddr}
use getresolvd.Dnsconfig.{Config, default_ns, initial}
use getresolvd.Dnsconfig.Unix.{
  dns_default_search, add_server, search_list, directive, is_comment, words, read_line, read_lines,
  or_default, finish, opened, read,
}
use getresolvd.Dnsconfig.Unix.Settings.{
  Settings, option_words, line_of, lines_of, option_words-All, HasRanges, with_options, IsUnflagged,
  set_options-option_words,
}

module _ (names : DnsNames) (parse_addr : ParseAddr) (join_host_port : Text → Text → Text) where
  -- A text of an address, which `netip.ParseAddr` takes.
  abbrev pub IsServer : Text → Type 0
  IsServer v = IsWord v × (a : Addr) × (parse_addr v ≡ some a)

  -- A name in the form of `dns.CanonicalName` that is not the root.
  abbrev pub IsSearchName : Text → Type 0
  IsSearchName d = IsWord d × (names.canonical_name d ≡ d) × (text_eq d (codes ".") ≡ false)

  -- Settings that a resolv.conf can say.
  pub record IsPrintable (s : Settings) : Type 0 where
    pub few_servers : length s.servers ≤ 3
    pub servers_All : All IsServer s.servers
    pub search_All : All IsSearchName s.search
    pub lookup_All : All IsWord s.lookup
    pub ranges : HasRanges s

  servers_words : (ws : List Text) → All IsServer ws → All IsWord ws
  servers_words [] h = tt
  servers_words (w ∷ ws) h = (h.0.0, servers_words ws h.1)

  search_words : (ws : List Text) → All IsSearchName ws → All IsWord ws
  search_words [] h = tt
  search_words (w ∷ ws) h = (h.0.0, search_words ws h.1)

  is_comment-line_of :
      (c : ℕ) (w : Text) (ws : List Text)
      → is_comment names parse_addr join_host_port (line_of ((c ∷ w) ∷ ws))
        ≡ is_comment names parse_addr join_host_port (c ∷ w)
  is_comment-line_of c w [] = refl
  is_comment-line_of c w (v ∷ ws) = refl

  read_line-line_of :
      (conf : Config) (c : ℕ) (w : Text) (ws : List Text)
      → is_comment names parse_addr join_host_port (c ∷ w) ≡ false
      → All IsWord ((c ∷ w) ∷ ws)
      → read_line names parse_addr join_host_port conf (line_of ((c ∷ w) ∷ ws))
        ≡ directive names parse_addr join_host_port conf (c ∷ w) ws
  unfolding read_line words
  read_line-line_of conf c w ws h k =
      rw (is_comment-line_of c w ws, h, fields-join_text ((c ∷ w) ∷ ws) k) refl

  search_list-same :
      (ds : List Text) → All IsSearchName ds → search_list names parse_addr join_host_port ds ≡ ds
  unfolding search_list
  search_list-same [] h = refl
  search_list-same (d ∷ ds) h = rw (h.0.1, h.0.2, search_list-same ds h.1) refl

  add_server-more :
      (conf : Config) (v : Text) (rest : List Text)
      → length conf.servers + suc (length rest) ≤ 3
      → IsServer v
      → add_server names parse_addr join_host_port conf (v ∷ [])
        ≡ record conf { servers = conf.servers ++ join_host_port v (codes "53") ∷ [] }
  unfolding add_server
  add_server-more conf v rest few h =
      let room : ltb (length conf.servers) 3 ≡ true = ground arith in rw (room, h.2) refl

  read_lines-servers :
      (conf : Config) (vs more : List Text)
      → length conf.servers + length vs ≤ 3
      → All IsServer vs
      → read_lines names parse_addr join_host_port conf
          (map (λ v. line_of (codes "nameserver" ∷ v ∷ [])) vs ++ more)
        ≡ read_lines names parse_addr join_host_port
            (record conf { servers = conf.servers ++ map (λ v. join_host_port v (codes "53")) vs })
            more
  unfolding read_lines directive
  read_lines-servers conf [] more few h =
      ap (λ l. read_lines names parse_addr join_host_port (record conf { servers = l }) more)
        (sym (append-nil conf.servers))
  read_lines-servers conf (v ∷ vs) more few h =
      let one = join_host_port v (codes "53") ∷ [] in
      let line = line_of (codes "nameserver" ∷ v ∷ []) in
      let lines = map (λ w. line_of (codes "nameserver" ∷ w ∷ [])) vs in
      let added : read_line names parse_addr join_host_port conf line
          ≡ record conf { servers = conf.servers ++ one } =
        read_line-line_of conf b'n' (codes "ameserver") (v ∷ []) refl
          (((λ e. cc), refl), (h.0.0, tt))
        ∙ add_server-more conf v vs few h.0 in
      ap (λ d. read_lines names parse_addr join_host_port d (lines ++ more)) added
      ∙ (read_lines-servers (record conf { servers = conf.servers ++ one }) vs more
            (rw (length-append conf.servers one) (omega arith)) h.1
          ∙ ap (λ l. read_lines names parse_addr join_host_port (record conf { servers = l }) more)
              (append_assoc conf.servers one (map (λ w. join_host_port w (codes "53")) vs)))

  -- The last three lines.
  read_lines-options :
      (conf : Config) (s : Settings)
      → IsPrintable s
      → IsUnflagged conf
      → read_lines names parse_addr join_host_port conf (
          line_of (codes "search" ∷ s.search)
          ∷ line_of (codes "lookup" ∷ s.lookup)
          ∷ line_of (codes "options" ∷ option_words s)
          ∷ [])
        ≡ with_options (record conf { search = s.search; lookup = s.lookup }) s
  unfolding read_lines directive
  read_lines-options conf s h u =
      let searched : Config = record conf { search = s.search } in
      let looked : Config = record searched { lookup = s.lookup } in
      let word : (c : ℕ) (w : Text) → no_space (c ∷ w) ≡ true → IsWord (c ∷ w) =
        λ c w e. ((λ f. cc), e) in
      let first : read_line names parse_addr join_host_port conf
            (line_of (codes "search" ∷ s.search))
          ≡ searched =
        read_line-line_of conf b's' (codes "earch") s.search refl
          (word _ _ refl, search_words s.search h.search_All)
        ∙ ap (λ l. record conf { search = l }) (search_list-same s.search h.search_All) in
      let second : read_line names parse_addr join_host_port searched
            (line_of (codes "lookup" ∷ s.lookup))
          ≡ looked =
        read_line-line_of searched b'l' (codes "ookup") s.lookup refl
          (word _ _ refl, h.lookup_All) in
      let third : read_line names parse_addr join_host_port looked
            (line_of (codes "options" ∷ option_words s))
          ≡ with_options looked s =
        read_line-line_of looked b'o' (codes "ptions") (option_words s) refl
          (word _ _ refl, option_words-All s)
        ∙ set_options-option_words looked s h.ranges (record {
          no_rotate = u.no_rotate;
          no_single_request = u.no_single_request;
          no_use_tcp = u.no_use_tcp;
          no_trust_ad = u.no_trust_ad;
          no_no_reload = u.no_no_reload;
        }) in
      rw (first, second, third) refl

  -- The configuration that the settings stand for.
  unfoldable pub config_of : Option Text → ℕ → Settings → Config
  config_of hostname time s =
      let servers = map (λ v. join_host_port v (codes "53")) s.servers in
      with_options
        (record initial {
          m_time = time;
          servers = or_default names parse_addr join_host_port servers default_ns;
          search =
              or_default names parse_addr join_host_port s.search
                (dns_default_search names parse_addr join_host_port hostname);
          lookup = s.lookup;
        })
        s

  -- Settings with at most three servers whose texts are addresses, search names in canonical form
  -- other than the root, `lookup` words, at most 15 for `ndots`, and a timeout and attempts in the
  -- ranges that `Read` keeps, written as the lines of a resolv.conf, are read back: the servers with
  -- port 53, the search list, the `lookup` line and the options, with the defaults for no server and
  -- no search list, no unknown option, and no error.
  pub read-lines_of :
      (hostname : Option Text) (time : ℕ) (s : Settings)
      → IsPrintable s
      → read names parse_addr join_host_port hostname
          (opened time (record { lines = lines_of s; failure = none }))
        ≡ (config_of hostname time s, none)
  unfolding read finish config_of
  read-lines_of hostname time s h =
      let few = h.few_servers in
      let start : Config = record initial { m_time = time } in
      let some_servers : Config = record start {
        servers = map (λ v. join_host_port v (codes "53")) s.servers;
      } in
      let unflagged : IsUnflagged some_servers = record {
        no_rotate = refl;
        no_single_request = refl;
        no_use_tcp = refl;
        no_trust_ad = refl;
        no_no_reload = refl;
      } in
      ap (λ c. finish names parse_addr join_host_port hostname c none)
        (read_lines-servers start s.servers _ (omega arith) h.servers_All
          ∙ read_lines-options some_servers s h unflagged)
