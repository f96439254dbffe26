-- ===== src/Relative/Answers.antt =====
-- An answer of `Relative` is an answer of its resolver to a candidate name.
use getresolvd.Base.{
  Member-map, List, [], ◌∷◌, ◌≡◌, refl, sym, subst, ◌∙◌, Text, Member, map, inl, inr, ◌⊎◌,
}
use getresolvd.Netip.{Addr}
use getresolvd.Errors.{ok}
use getresolvd.Resolver.{Resolver}
use getresolvd.Deps.{DnsNames}
use getresolvd.Relative.{RelativeConf, candidates_of, relative}
use getresolvd.Relative.Laws.{asking, relative-sequential}
use getresolvd.Resolver.{Gives, NeverFails}
use getresolvd.Sequential.Answers.{sequential-OneGives, sequential-NeverFails}

module _ {W : Type 0} where
  asking-Member :
      (r asked : Resolver W) (names : List Text) (network host : Text) (addrs : List Addr)
      → Member asked (map (asking r) names)
      → Gives asked network host addrs
      → (name : Text) × Member name names × Gives r network name addrs
  asking-Member r asked [] network host addrs m g = elim m [ ]
  asking-Member r asked (n ∷ names) network host addrs (inl e) g =
      (n, inl refl, subst (λ a. Gives a network host addrs) e g)
  asking-Member r asked (n ∷ names) network host addrs (inr m) g =
      let (name, at, h) = asking-Member r asked names network host addrs m g in (name, inr at, h)

  map-nil {ℓ} : {A : Type ℓ} (f : A → Resolver W) (xs : List A) → map f xs ≡ [] → xs ≡ []
  map-nil f [] e = refl
  map-nil f (x ∷ xs) e = cc

  -- One of the names is answered, or there is none, and no address.
  abbrev pub OneAnswers : Resolver W → List Text → Text → List Addr → Type 0
  OneAnswers r asked network addrs =
      ((name : Text) × Member name asked × Gives r network name addrs)
      ⊎ ((asked ≡ []) × (addrs ≡ []))

  pub relative-OneAnswers :
      (names : DnsNames) (r : Resolver W) (conf : RelativeConf) (network host : Text) (w w' : W)
      (addrs : List Addr)
      → relative names r conf network host w ≡ (ok addrs, w')
      → OneAnswers r (candidates_of names conf host) network addrs
  relative-OneAnswers names r conf network host w w' addrs e =
      let asked = candidates_of names conf host in
      elim (sequential-OneGives (map (asking r) asked) network host w w' addrs
        (sym (relative-sequential names r conf network host w) ∙ e)) [
          | inl (a, m, g) ↦ inl (asking-Member r a asked network host addrs m g)
          | inr (none_asked, no_addr) ↦ inr (map-nil (asking r) asked none_asked, no_addr)
        ]

  -- One candidate name for which the resolver never fails is enough.
  pub relative-NeverFails :
      (names : DnsNames) (r : Resolver W) (conf : RelativeConf) (network host name : Text)
      → Member name (candidates_of names conf host)
      → NeverFails r network name
      → NeverFails (relative names r conf) network host
  relative-NeverFails names r conf network host name m n w w' e q =
      sequential-NeverFails (map (asking r) (candidates_of names conf host)) (asking r name) network
        host (Member-map (asking r) name (candidates_of names conf host) m) n w w' e
        (sym (relative-sequential names r conf network host w) ∙ q)
