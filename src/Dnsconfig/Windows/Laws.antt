-- ===== src/Dnsconfig/Windows/Laws.antt =====
-- The servers that `Read` takes from Windows.
use mathlib.Core.List.{append-nil, append_assoc, map-append}
use getresolvd.Base.{
  Bool, true, false, not, ◌&&◌, List, [], ◌∷◌, ◌++◌, ◌≡◌, sym, ap, ◌∙◌, map, keep, keep-append,
  Text, codes, if◌then◌else◌, Bool-cases, inl, inr,
}
use getresolvd.Errors.{Result, ok, err, panic}
use getresolvd.Netip.{Addr, unmap}
use getresolvd.Dnsconfig.{initial}
use getresolvd.Dnsconfig.Windows.{
  Adapter, is_site_local_default, add_addrs, add_dns, add_adapters, adapters_of, or_default_ns,
  read,
}

-- The servers of an adapter, if they can be read.
abbrev pub readable : Result (List Addr) → List Addr
readable (ok addrs) = addrs
readable (err e) = []
readable panic = []

-- The servers of the adapters that are up and have a gateway.
abbrev pub all_dns : List Adapter → List Addr
all_dns [] = []
all_dns (aa ∷ aas) = (if aa.is_up && aa.has_gateway then readable aa.dns else []) ++ all_dns aas

module _ (addr_string : Addr → Text) (join_host_port : Text → Text → Text) where
  -- A server with the port of DNS.
  abbrev pub server_text : Addr → Text
  server_text a = join_host_port (addr_string a) (codes "53")

  -- The servers that are taken from a list of addresses.
  abbrev pub servers_of : List Addr → List Text
  servers_of addrs =
      map server_text
        (keep (λ a. not (is_site_local_default addr_string join_host_port a)) (map unmap addrs))

  servers_of-append : (xs ys : List Addr) → servers_of (xs ++ ys) ≡ servers_of xs ++ servers_of ys
  servers_of-append xs ys = rw (map-append, keep-append, map-append)

  add_addrs-servers_of :
      (servers : List Text) (addrs : List Addr)
      → add_addrs addr_string join_host_port servers addrs ≡ servers ++ servers_of addrs
  unfolding add_addrs
  add_addrs-servers_of servers [] = sym (append-nil servers)
  add_addrs-servers_of servers (a ∷ addrs) =
      elim (Bool-cases (is_site_local_default addr_string join_host_port (unmap a))) [
        | inl local ↦ rw local (add_addrs-servers_of servers addrs)
        | inr other ↦ rw other (
            add_addrs-servers_of (servers ++ server_text (unmap a) ∷ []) addrs
            ∙ append_assoc servers _ _)
      ]

  add_dns-servers_of :
      (servers : List Text) (dns : Result (List Addr))
      → add_dns addr_string join_host_port servers dns ≡ servers ++ servers_of (readable dns)
  unfolding add_dns
  add_dns-servers_of servers (ok addrs) = add_addrs-servers_of servers addrs
  add_dns-servers_of servers (err e) = sym (append-nil servers)
  add_dns-servers_of servers panic = sym (append-nil servers)

  add_adapters-servers_of :
      (servers : List Text) (aas : List Adapter)
      → add_adapters addr_string join_host_port servers aas ≡ servers ++ servers_of (all_dns aas)
  unfolding add_adapters
  add_adapters-servers_of servers [] = sym (append-nil servers)
  add_adapters-servers_of servers (aa ∷ aas) =
      add_adapters-servers_of
        (if not aa.is_up
          then servers
          else if not aa.has_gateway
          then servers
          else add_dns addr_string join_host_port servers aa.dns)
        aas
      ∙ (ap (λ l. l ++ servers_of (all_dns aas)) (one aa.is_up aa.has_gateway)
          ∙ (append_assoc servers _ _
              ∙ ap (◌++◌ servers) (
                  sym (
                    servers_of-append (if aa.is_up && aa.has_gateway then readable aa.dns else [])
                      (all_dns aas)))))
    where
      one :
          (up gateway : Bool)
          → (if not up
              then servers
              else if not gateway
              then servers
              else add_dns addr_string join_host_port servers aa.dns)
            ≡ servers ++ servers_of (if up && gateway then readable aa.dns else [])
      one true true = add_dns-servers_of servers aa.dns
      one true false = sym (append-nil servers)
      one false gateway = sym (append-nil servers)

  -- The configuration is the initial one with the servers of all adapters that are up, have a gateway
  -- and whose servers can be read: IPv6 adapters first, in their order, unmapped, without the
  -- addresses of fec0::/16, each with port 53; or the default servers if there is none.
  pub read-servers_of :
      (v6 v4 : Result (List Adapter))
      → read addr_string join_host_port v6 v4 ≡ record initial {
        servers = or_default_ns addr_string join_host_port (
            servers_of (
              all_dns (
                adapters_of addr_string join_host_port v6
                ++ adapters_of addr_string join_host_port v4)));
      }
  unfolding read
  read-servers_of v6 v4 =
      ap (λ l. record initial { servers = or_default_ns addr_string join_host_port l })
        (add_adapters-servers_of []
          (adapters_of addr_string join_host_port v6 ++ adapters_of addr_string join_host_port v4))
