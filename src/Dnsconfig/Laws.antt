-- ===== src/Dnsconfig/Laws.antt =====
-- Bounds of what `Read` returns, for every file.
use getresolvd.Base.{
  Option, some, refl, sym, ap, ◌∙◌, subst, ◌⊎◌, inl, inr, ℕ, ◌*◌, ◌≤◌, ◌<◌, Bool, true, false, List,
  [], ◌∷◌, ◌≡◌, ◌≢◌, arith, none, Text, ℤ, pos, pos_part, neg_part, length, length-append,
  if◌then◌else◌, codes, drop, fields,
}
use getresolvd.Errors.{Error}
use getresolvd.Deps.{DnsNames, ParseAddr, Scan}
use getresolvd.Dnsconfig.{Config, default_ns, initial, second}
use getresolvd.Dnsconfig.Atoi.{atoi}
use getresolvd.Dnsconfig.Options.{clamp_n_dots, at_least_one, timeout_of, set_option, set_options}
use getresolvd.Dnsconfig.Unix.{
  words, or_default, finish, Opened, open_failed, stat_failed, opened, add_server, set_domain,
  search_list, directive, read_line, read_lines, read,
}

-- At most three servers, a threshold from 0 to 15, and at least one attempt.
pub record IsValid (c : Config) : Type 0 where
  pub few_servers : length c.servers ≤ 3
  pub n_dots_le : pos_part c.n_dots ≤ 15
  pub n_dots_nonneg : neg_part c.n_dots ≡ 0
  pub some_attempts : 1 ≤ pos_part c.attempts

clamp_n_dots_bounds : (n : ℤ) → (pos_part (clamp_n_dots n) ≤ 15) × (neg_part (clamp_n_dots n) ≡ 0)
unfolding clamp_n_dots
clamp_n_dots_bounds n = ground arith

at_least_one_bounds : (n : ℤ) → 1 ≤ pos_part (at_least_one n)
unfolding at_least_one
at_least_one_bounds n = ground arith

-- A pick between two values keeps what holds of both.
if_keeps :
    (b : Bool) (c : Config) {d : Config} → IsValid c → IsValid d → IsValid (if b then c else d)
if_keeps true c h k = h
if_keeps false c h k = k

set_option-IsValid : (c : Config) (s : Text) → IsValid c → IsValid (set_option c s)
unfolding set_option
set_option-IsValid c s v =
    let dots = clamp_n_dots_bounds (atoi (drop 6 s)) in
    let tries = at_least_one_bounds (atoi (drop 9 s)) in
    if_keeps _ (record c { n_dots = clamp_n_dots (atoi (drop 6 s)) }) (omega arith)
      (if_keeps _ (record c { timeout = timeout_of (atoi (drop 8 s)) }) (omega arith)
        (if_keeps _ (record c { attempts = at_least_one (atoi (drop 9 s)) }) (omega arith)
          (if_keeps _ (record c { rotate = true }) (omega arith)
            (if_keeps _ (record c { single_request = true }) (omega arith)
              (if_keeps _ (record c { use_tcp = true }) (omega arith)
                (if_keeps _ (record c { trust_ad = true }) (omega arith)
                  (if_keeps _ c v (
                    if_keeps _ (record c { no_reload = true }) {d = record c { unknown_opt = true }}
                      (omega arith) (omega arith)))))))))

set_options-IsValid : (c : Config) (opts : List Text) → IsValid c → IsValid (set_options c opts)
unfolding set_options
set_options-IsValid c [] v = v
set_options-IsValid c (s ∷ opts) v =
    set_options-IsValid (set_option c s) opts (set_option-IsValid c s v)

-- The error of opening the file, of its stat, or of the scanner.
abbrev pub error_of : Opened → Option Error
error_of (open_failed e) = some e
error_of (stat_failed e) = some e
error_of (opened time s) = s.failure

-- The file was opened, and the scanner failed.
abbrev pub ScanFails : Opened → Type 0
ScanFails (open_failed e) = ⊥
ScanFails (stat_failed e) = ⊥
ScanFails (opened time s) = (e : Error) × (s.failure ≡ some e)

module _ (names : DnsNames) (parse_addr : ParseAddr) (join_host_port : Text → Text → Text) where
  add_server-IsValid :
      (c : Config) (args : List Text)
      → IsValid c
      → IsValid (add_server names parse_addr join_host_port c args)
  unfolding add_server
  add_server-IsValid c [] v = v
  add_server-IsValid c (s ∷ args) v =
      ground (arith, length-append c.servers (join_host_port s (codes "53") ∷ []))

  set_domain-IsValid :
      (c : Config) (args : List Text)
      → IsValid c
      → IsValid (set_domain names parse_addr join_host_port c args)
  unfolding set_domain
  set_domain-IsValid c [] v = v
  set_domain-IsValid c (s ∷ args) v = omega arith

  directive-IsValid :
      (c : Config) (word : Text) (args : List Text)
      → IsValid c
      → IsValid (directive names parse_addr join_host_port c word args)
  unfolding directive
  directive-IsValid c word args v =
      if_keeps _ (add_server names parse_addr join_host_port c args) (add_server-IsValid c args v) (
        if_keeps _ (set_domain names parse_addr join_host_port c args) (set_domain-IsValid c args v)
          (if_keeps _ (record c { search = search_list names parse_addr join_host_port args })
            (omega arith)
            (if_keeps _ (set_options c args) (set_options-IsValid c args v) (
              if_keeps _ (record c { lookup = args }) {d = record c { unknown_opt = true }}
                (omega arith) (omega arith)))))

  read_lines-IsValid :
      (c : Config) (lines : List Text)
      → IsValid c
      → IsValid (read_lines names parse_addr join_host_port c lines)
  unfolding read_lines read_line
  read_lines-IsValid c [] v = v
  read_lines-IsValid c (line ∷ lines) v =
      read_lines-IsValid (read_line names parse_addr join_host_port c line) lines
        (if_keeps _ c v (words-IsValid (fields line)))
    where
      words-IsValid : (ws : List Text) → IsValid (words names parse_addr join_host_port c ws)
      words-IsValid [] = v
      words-IsValid (word ∷ args) = directive-IsValid c word args v

  or_default-few :
      (servers : List Text)
      → length servers ≤ 3
      → (length (or_default names parse_addr join_host_port servers default_ns) ≤ 3)
        × (or_default names parse_addr join_host_port servers default_ns ≢ [])
  or_default-few [] h = (omega arith, λ e. cc)
  or_default-few (s ∷ servers) h = (h, λ e. cc)

  -- For every file that is read to its end without an error: the configuration has from one to three
  -- servers, a threshold from 0 to 15, and at least one attempt.
  pub read-IsValid :
      (hostname : Option Text) (time : ℕ) (s : Scan)
      → s.failure ≡ none
      → let c = (read names parse_addr join_host_port hostname (opened time s)).0 in
        IsValid c × (c.servers ≢ [])
  unfolding read
  read-IsValid hostname time s e =
      rw (e, read)
        (let v = read_lines-IsValid (record initial { m_time = time }) s.lines (omega arith) in
          finished _ v)
    where
      finished :
          (c : Config)
          → IsValid c
          → let d = (finish names parse_addr join_host_port hostname c none).0 in
            IsValid d × (d.servers ≢ [])
      finished c v =
          let (few, some_server) = or_default-few c.servers v.few_servers in
          (
            record {
              few_servers = few;
              n_dots_le = v.n_dots_le;
              n_dots_nonneg = v.n_dots_nonneg;
              some_attempts = v.some_attempts;
            },
            some_server,
          )

  scan_failed :
      (hostname : Option Text) (c : Config) (failure : Option Error) (e : Error)
      → failure ≡ some e
      → finish names parse_addr join_host_port hostname c failure ≡ (c, some e)
  unfolding finish
  scan_failed hostname c failure e h = rw h

  -- Whatever opening the file, its stat and the scanner give: the error is the first of theirs, the
  -- configuration has at most three servers, a threshold from 0 to 15 and at least one attempt, and
  -- it has a server unless the scanner failed.
  pub read_always :
      (hostname : Option Text) (o : Opened)
      → let (c, failure) = read names parse_addr join_host_port hostname o in
        (failure ≡ error_of o) × IsValid c × ((c.servers ≢ []) ⊎ ScanFails o)
  unfolding read
  read_always hostname (open_failed e) = (refl, omega arith, inl (λ q. cc))
  read_always hostname (stat_failed e) = (refl, omega arith, inl (λ q. cc))
  read_always hostname (opened time s) = scanned s.failure refl
    where
      scanned :
          (failure : Option Error)
          → s.failure ≡ failure
          → let (c, found) = read names parse_addr join_host_port hostname (opened time s) in
            (found ≡ s.failure) × IsValid c × ((c.servers ≢ []) ⊎ ScanFails (opened time s))
      scanned none h = let (v, n) = read-IsValid hostname time s h in (rw (h, read) refl, v, inl n)
      scanned (some e) h =
          let conf =
            read_lines names parse_addr join_host_port (record initial { m_time = time }) s.lines in
          let same = scan_failed hostname conf s.failure e h in
          (
            ap (λ (p : Config × Option Error). p.1) same ∙ sym h,
            subst (λ (p : Config × Option Error). IsValid p.0) (sym same)
                (read_lines-IsValid (record initial { m_time = time }) s.lines (omega arith)),
            inr (e, h),
          )

-- A timeout option from 1 to 9223372036 seconds gives that many seconds in nanoseconds.
pub timeout_of-exact : (n : ℕ) → 1 ≤ n → n ≤ 9223372036 → timeout_of (pos n) ≡ pos (n * second)
unfolding timeout_of at_least_one
timeout_of-exact n h small = ground arith

-- With an option from 9223372037 to 18446744073 seconds the timeout is negative.
pub timeout_of_overflow :
    (n : ℕ) → 9223372036 < n → n ≤ 18446744073 → 1 ≤ neg_part (timeout_of (pos n))
unfolding timeout_of at_least_one
timeout_of_overflow n large bound = ground arith
