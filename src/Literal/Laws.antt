-- ===== src/Literal/Laws.antt =====
-- Literal lookups stay local.
use getresolvd.Base.{true, List, [], ◌∷◌, ◌≡◌, ◌≢◌, Text, Bool-cases, inl, inr, All}
use getresolvd.Netip.{Addr}
use getresolvd.Errors.{Result, ok}
use getresolvd.Deps.{DnsNames, ParseAddr, Filter, FilterLawful, is_network, IsOfNetwork}
use getresolvd.Literal.{literal, literal_addrs, non_empty}

-- An answer to a lookup on `network`: at least one address, and all of the family asked for.
abbrev pub IsAnswer : Text → List Addr → Type 0
IsAnswer network addrs = (addrs ≢ []) × All (IsOfNetwork network) addrs

module _ (names : DnsNames) (parse_addr : ParseAddr) (filter : Filter)
    (lawful : FilterLawful filter) {W : Type 0} where
  non_empty-ok :
      (host : Text) (found : List Addr) (w w' : W) (addrs : List Addr)
      → ◌≡◌ {A = Result (List Addr) × W}
          (non_empty names parse_addr filter host found, w)
          (ok addrs, w')
      → (w' ≡ w) × (addrs ≢ []) × (addrs ≡ found)
  unfolding non_empty
  non_empty-ok host [] w w' addrs e = cc
  non_empty-ok host (a ∷ found) w w' addrs e = (cc, λ z. cc, cc)

  -- If the filter of addresses keeps only the family asked for, then success means a supported
  -- network and an answer that is not empty, all of that family, and what the filter keeps of the
  -- literal's own addresses; the world is left alone.
  pub literal-ok :
      (network host : Text) (w w' : W) (addrs : List Addr)
      → literal names parse_addr filter network host w ≡ (ok addrs, w')
      → (w' ≡ w)
        × (is_network network ≡ true)
        × IsAnswer network addrs
        × (addrs ≡ filter (literal_addrs names parse_addr filter host) network)
  unfolding literal
  literal-ok network host w w' addrs e = elim (Bool-cases (is_network network)) [
    | inl known ↦
        let found = filter (literal_addrs names parse_addr filter host) network in
        let (same, some_addr, taken) =
          non_empty-ok host found w w' addrs (rw (known, literal) at e) in
        (
          same,
          known,
          (
            some_addr,
            rw taken (lawful.of_network (literal_addrs names parse_addr filter host) network),
          ),
          taken,
        )
    | inr unknown ↦ cc (rw (unknown, literal) at e)
  ]
