-- ===== src/Relative.antt =====
-- relative.go, and `Join` of util/domain.go: search domains for short names.
pub mod Laws
pub mod Answers
use getresolvd.Base.{
  Bool, true, false, not, ◌&&◌, List, [], ◌∷◌, ◌++◌, Text, codes, ends_with_dot, count_dots,
  join_text, if◌then◌else◌, ℤ, pos, ltb_ℤ, Option, none, some,
}
use getresolvd.Netip.{Addr}
use getresolvd.Errors.{Error, Result}
use getresolvd.Deps.{DnsNames}
use getresolvd.Resolver.{Resolver, join_result, or_else}

-- `util.Join`.
unfoldable pub join : DnsNames → Text → Text → Text
join names host domain =
    names.canonical_name
      (join_text (names.split_domain_name host ++ names.split_domain_name domain) (codes "."))

-- The fields of `relativeResolver` beside the resolver.
pub record RelativeConf : Type 0 where
  pub search : List Text
  pub n_dots : ℤ

-- `WithDefaults` on the configuration: a nil slice and a nil pointer take the defaults.
unfoldable pub relative_conf : List Text → Option ℤ → RelativeConf
relative_conf [] (some n) = record { search = codes "." ∷ []; n_dots = n }
relative_conf [] none = record { search = codes "." ∷ []; n_dots = pos 1 }
relative_conf (s ∷ ss) (some n) = record { search = s ∷ ss; n_dots = n }
relative_conf (s ∷ ss) none = record { search = s ∷ ss; n_dots = pos 1 }

module _ (names : DnsNames) where
  -- The loop over the search domains.
  searched : Text → List Text → List Text
  searched host [] = []
  searched host (domain ∷ search) =
      let name = join names host domain in
      let rest = searched host search in if names.is_domain_name name then name ∷ rest else rest

  abbrev pub is_relative : RelativeConf → Text → Bool
  is_relative conf host = not (ends_with_dot host) && ltb_ℤ (pos (count_dots host)) conf.n_dots

  -- The names to ask for.
  unfoldable pub candidates_of : RelativeConf → Text → List Text
  unfolding searched
  candidates_of conf host =
      if is_relative conf host then searched host conf.search else names.fqdn host ∷ []

  module _ {W : Type 0} (r : Resolver W) where
    -- The loop over the names, with the errors so far.
    relative_loop : List Text → List Error → Text → W → Result (List Addr) × W
    relative_loop [] errs network w = (join_result errs, w)
    relative_loop (name ∷ rest) errs network w =
        or_else (r network name w) λ e w'. relative_loop rest (errs ++ e ∷ []) network w'

    -- `Relative(resolver, conf).LookupNetIP`.
    unfoldable pub relative : RelativeConf → Resolver W
    unfolding relative_loop candidates_of
    relative conf network host w = relative_loop (candidates_of conf host) [] network w
