-- ===== src/Hosts/Runs.antt =====
-- Sequences of `AddHost` and `RemoveHost`, also of several callers: each is one step on the map, since
-- it holds the lock.
use getresolvd.Base.{
  false, List, [], ◌∷◌, ◌≡◌, refl, sym, ap, ◌∙◌, Option, none, some, Text, text_eq, if◌then◌else◌,
  All,
}
use getresolvd.Netip.{Addr}
use getresolvd.AddrSelect.Sort.{Dialer}
use getresolvd.Errors.{Merge, Result}
use getresolvd.Deps.{DnsNames, Filter}
use getresolvd.Hosts.{NameMap, lookup, add_host, remove_host, map_lookup, hosts_lookup}
use getresolvd.Hosts.Names.{lookup-insert, lookup-erase}

-- A call that changes the hosts.
pub data Change : Type 0 where
  add : Text → List Addr → Change
  remove : Text → Change

-- The name that a call changes.
abbrev pub changed : Change → Text
changed (add host addrs) = host
changed (remove host) = host

-- Two callers: the calls of both, each in its own order.
pub data Interleaving : List Change → List Change → List Change → Type 0 where
  done : Interleaving [] [] []
  left :
      {c : Change} {xs ys zs : List Change}
      → Interleaving xs ys zs
      → Interleaving (c ∷ xs) ys (c ∷ zs)
  right :
      {c : Change} {xs ys zs : List Change}
      → Interleaving xs ys zs
      → Interleaving xs (c ∷ ys) (c ∷ zs)

module _ (names : DnsNames) where
  unfoldable pub apply : Change → NameMap → NameMap
  apply (add host addrs) m = add_host names host addrs m
  apply (remove host) m = remove_host names host m

  unfoldable pub run : List Change → NameMap → NameMap
  run [] m = m
  run (c ∷ cs) m = run cs (apply c m)

  -- What a call makes of the addresses of the name `k`.
  abbrev pub effect : Text → Change → Option (List Addr) → Option (List Addr)
  effect k (add host addrs) found = if text_eq (names.fqdn host) k then some addrs else found
  effect k (remove host) found = if text_eq (names.fqdn host) k then none else found

  -- What the calls make of them: the last one for the name decides.
  abbrev pub replay : Text → List Change → Option (List Addr) → Option (List Addr)
  replay k [] found = found
  replay k (c ∷ cs) found = replay k cs (effect k c found)

  lookup-apply :
      (k : Text) (c : Change) (m : NameMap) → lookup k (apply c m) ≡ effect k c (lookup k m)
  unfolding apply add_host remove_host
  lookup-apply k (add host addrs) m = lookup-insert (names.fqdn host) k addrs m
  lookup-apply k (remove host) m = lookup-erase (names.fqdn host) k m

  lookup-run :
      (k : Text) (cs : List Change) (m : NameMap) → lookup k (run cs m) ≡ replay k cs (lookup k m)
  unfolding run
  lookup-run k [] m = refl
  lookup-run k (c ∷ cs) m = lookup-run k cs (apply c m) ∙ ap (replay k cs) (lookup-apply k c m)

  -- The call is for another name than `k`.
  abbrev pub IsOther : Text → Change → Type 0
  IsOther k c = text_eq (names.fqdn (changed c)) k ≡ false

  effect-other :
      (k : Text) (c : Change) (found : Option (List Addr)) → IsOther k c → effect k c found ≡ found
  effect-other k (add host addrs) found h = rw h
  effect-other k (remove host) found h = rw h

  replay-Interleaving :
      (k : Text) {xs ys zs : List Change} (found : Option (List Addr))
      → Interleaving xs ys zs
      → All (IsOther k) ys
      → replay k zs found ≡ replay k xs found
  replay-Interleaving k found done h = refl
  replay-Interleaving k found (left {c} i) h = replay-Interleaving k (effect k c found) i h
  replay-Interleaving k found (right {c} {xs} {ys} {zs} i) h =
      ap (replay k zs) (effect-other k c found h.0) ∙ replay-Interleaving k found i h.1

  module _ (merge : Merge) (filter : Filter) {W : Type 0} (dialer : Dialer W) where
    -- What is answered for addresses that are held, or none.
    abbrev pub answer_of : Option (List Addr) → Text → Text → W → Result (List Addr) × W
    answer_of found network host w = map_lookup names merge filter dialer found network host w

    -- After any sequence of calls, a lookup answers from what the last call for the name's fully
    -- qualified form has left, added addresses or none, or from what was held before if there is no
    -- such call.
    pub hosts_lookup-run :
        (cs : List Change) (m : NameMap) (network host : Text) (w : W)
        → hosts_lookup names merge filter dialer (run cs m) network host w
          ≡ answer_of (replay (names.fqdn host) cs (lookup (names.fqdn host) m)) network host w
    unfolding hosts_lookup
    hosts_lookup-run cs m network host w =
        ap (λ found. map_lookup names merge filter dialer found network host w)
          (lookup-run (names.fqdn host) cs m)

    -- However the calls of two callers interleave: if no call of the second is for the host, a lookup
    -- of it is answered as if the second had made none.
    pub hosts_lookup-Interleaving :
        {xs ys zs : List Change} (m : NameMap) (network host : Text) (w : W)
        → Interleaving xs ys zs
        → All (IsOther (names.fqdn host)) ys
        → hosts_lookup names merge filter dialer (run zs m) network host w
          ≡ hosts_lookup names merge filter dialer (run xs m) network host w
    hosts_lookup-Interleaving {xs} {ys} {zs} m network host w i h =
        hosts_lookup-run zs m network host w
        ∙ (ap (λ found. answer_of found network host w)
              (replay-Interleaving (names.fqdn host) (lookup (names.fqdn host) m) i h)
            ∙ sym (hosts_lookup-run xs m network host w))
