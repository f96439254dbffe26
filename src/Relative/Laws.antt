-- ===== src/Relative/Laws.antt =====
-- Which names a relative resolver asks for, and in which order.
use getresolvd.Base.{true, false, List, [], ◌∷◌, ◌++◌, ◌≡◌, refl, ap, map, Text, All}
use getresolvd.Errors.{Error, ok}
use getresolvd.Deps.{DnsNames}
use getresolvd.Resolver.{Resolver, join_result, or_else}
use getresolvd.Sequential.{sequential, sequential_loop}
use getresolvd.Relative.{
  join, RelativeConf, searched, is_relative, candidates_of, relative_loop, relative,
}

-- The resolver that asks for `name`, whatever it is asked.
abbrev pub asking : {W : Type 0} → Resolver W → Text → Resolver W
asking r name network _ w = r network name w

module _ (names : DnsNames) {W : Type 0} (r : Resolver W) (conf : RelativeConf) where
  relative_loop-sequential_loop :
      (candidates : List Text) (errs : List Error) (network host : Text) (w : W)
      → relative_loop names r candidates errs network w
        ≡ sequential_loop (map (asking r) candidates) errs network host w
  unfolding relative_loop sequential_loop
  relative_loop-sequential_loop [] errs network host w = refl
  relative_loop-sequential_loop (name ∷ rest) errs network host w =
      ap (or_else (r network name w))
        (λ i e w'. relative_loop-sequential_loop rest (errs ++ e ∷ []) network host w' i)

  -- A lookup asks for the candidate names one after the other, as `Sequential` asks its resolvers.
  pub relative-sequential :
      (network host : Text) (w : W)
      → relative names r conf network host w
        ≡ sequential (map (asking r) (candidates_of names conf host)) network host w
  unfolding relative sequential
  relative-sequential network host w =
      relative_loop-sequential_loop (candidates_of names conf host) [] network host w

  -- A name with a dot at its end, or with at least as many dots as the threshold, is asked for
  -- once, as a fully qualified name, and its search domains play no part.
  pub relative_absolute :
      (network host : Text) (w : W)
      → is_relative names conf host ≡ false
      → relative names r conf network host w
        ≡ or_else (r network (names.fqdn host) w) (λ e w'. (join_result (e ∷ []), w'))
  unfolding relative relative_loop candidates_of
  relative_absolute network host w h = rw (h, candidates_of)

  searched-nil :
      (host : Text) (search : List Text)
      → All (λ d. names.is_domain_name (join names host d) ≡ false) search
      → searched names host search ≡ []
  unfolding searched
  searched-nil host [] h = refl
  searched-nil host (d ∷ search) h = rw (h.0, searched-nil host search h.1)

  -- A short name that makes no valid name with any search domain is answered with success and no
  -- address, and nothing is asked.
  pub relative_no_candidate :
      (network host : Text) (w : W)
      → is_relative names conf host ≡ true
      → All (λ d. names.is_domain_name (join names host d) ≡ false) conf.search
      → relative names r conf network host w ≡ (ok [], w)
  unfolding relative relative_loop candidates_of
  relative_no_candidate network host w h none_valid =
      rw (h, searched-nil host conf.search none_valid)
