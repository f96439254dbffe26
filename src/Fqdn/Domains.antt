-- ===== src/Fqdn/Domains.antt =====
-- The domain of this machine.
use getresolvd.Base.{List, [], ◌∷◌, ◌≡◌, refl, Text, codes, join_text, inl, inr, ◌⊎◌}
use getresolvd.Errors.{plain, Result, ok, err, panic}
use getresolvd.Deps.{DnsNames}
use getresolvd.Hostsfile.{IpAddr}
use getresolvd.Fqdn.{System, err_fqdn_not_found, hostname, of_labels, domain_of, domain}
use getresolvd.Fqdn.Sources.{Source, hostname-Source}
use getresolvd.Fqdn.Tried.{NotFound}
use getresolvd.Fqdn.Missing.{hostname-NotFound}

module _ (names : DnsNames) (resolve : Text → Result IpAddr) {W : Type 0} (sys : System W) where
  -- The domain is the name without its first label.
  pub record DomainOf (hn d : Text) : Type 0 where
    pub label : Text
    pub labels : List Text
    pub split : names.split_domain_name hn ≡ label ∷ labels
    pub rest : d ≡ names.canonical_name (join_text labels (codes "."))

  -- What `Domain` makes of a name of this machine, or of the error in its place.
  abbrev pub Outcome : W → Result Text × W → Type 0
  Outcome w (ok d, w') =
      (hn : Text) × (hostname names resolve sys w ≡ (ok hn, w'))
      × Source names resolve sys w hn
      × DomainOf hn d
  Outcome w (err e, w') =
      (sys.os_hostname w ≡ (err e, w'))
      ⊎ ((e ≡ err_fqdn_not_found) × NotFound names resolve sys w w')
      ⊎ ((e ≡ plain (codes "invalid hostname"))
          × ((hn : Text) × (hostname names resolve sys w ≡ (ok hn, w'))
              × Source names resolve sys w hn
              × (names.split_domain_name hn ≡ [])))
  Outcome w (panic, w') = hostname names resolve sys w ≡ (panic, w')

  of_labels-Outcome :
      (w w' : W) (hn : Text) (ls : List Text)
      → hostname names resolve sys w ≡ (ok hn, w')
      → names.split_domain_name hn ≡ ls
      → Outcome w (of_labels names resolve sys ls, w')
  unfolding of_labels
  of_labels-Outcome w w' hn [] found e =
      inr (inr (refl, (hn, found, hostname-Source names resolve sys w w' hn found, e)))
  of_labels-Outcome w w' hn (l ∷ ls) found e = (
    hn,
    found,
    hostname-Source names resolve sys w w' hn found,
    record { label = l; labels = ls; split = e; rest = refl },
  )

  -- If `Domain` succeeds, it returns the canonical form of the labels behind the first one of the name
  -- that `Hostname` returns, and that name comes from the hosts file, or if the file gives none, from
  -- the canonical name or an address of the host. It fails only with the error for the name of the
  -- operating system; with `ErrFqdnNotFound`, and then the hosts file, the canonical name and the
  -- addresses all gave no name; or since the name that was found has no labels. It panics only if
  -- `Hostname` does.
  pub domain-Outcome : (w : W) → Outcome w (domain names resolve sys w)
  unfolding domain
  domain-Outcome w = named (hostname names resolve sys w) refl
    where
      named :
          (p : Result Text × W)
          → hostname names resolve sys w ≡ p
          → Outcome w (domain_of names resolve sys p.0, p.1)
      named (ok hn, w') e =
          unfold domain_of in of_labels-Outcome w w' hn (names.split_domain_name hn) e refl
      named (err x, w') e =
          unfold domain_of in
          elim (hostname-NotFound names resolve sys w w' x e) [
            | inl h ↦ inl h
            | inr h ↦ inr (inl h)
          ]
      named (panic, w') e = unfold domain_of in e
