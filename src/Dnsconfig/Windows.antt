-- ===== src/Dnsconfig/Windows.antt =====
-- `Read` of internal/dnsconfig/config_windows.go. What internal/winipcfg reads from Windows is a
-- parameter: the adapters, and for each one its DNS servers.
pub mod Laws
use getresolvd.Base.{Bool, not, ◌&&◌, List, [], ◌∷◌, ◌++◌, Text, codes, if◌then◌else◌, ◌==◌}
use getresolvd.Errors.{Result, ok}
use getresolvd.Netip.{Addr, is6, unmap, as_slice, byte_at}
use getresolvd.Dnsconfig.{Config, default_ns, initial}

-- What the code reads of an `IPAdapterAddresses`: `OperStatus == IfOperStatusUp`,
-- `FirstGatewayAddress != nil`, and `LUID.DNS()`.
pub record Adapter : Type 0 where
  pub is_up : Bool
  pub has_gateway : Bool
  pub dns : Result (List Addr)

module _ (addr_string : Addr → Text) (join_host_port : Text → Text → Text) where
  -- An address of fec0::/16, which Windows sets when no other server is.
  abbrev pub is_site_local_default : Addr → Bool
  is_site_local_default a =
      is6 a && (byte_at (as_slice a) 0 == 0xfe && byte_at (as_slice a) 1 == 0xc0)

  -- The inner loop, over the servers of an adapter.
  unfoldable pub add_addrs : List Text → List Addr → List Text
  unfolding unmap
  add_addrs servers [] = servers
  add_addrs servers (a ∷ addrs) =
      let addr = unmap a in
      add_addrs
        (if is_site_local_default addr
          then servers
          else servers ++ join_host_port (addr_string addr) (codes "53") ∷ [])
        addrs

  add_dns : List Text → Result (List Addr) → List Text
  add_dns servers (ok addrs) = add_addrs servers addrs
  add_dns servers _ = servers

  -- The outer loop, over the adapters.
  unfoldable pub add_adapters : List Text → List Adapter → List Text
  unfolding add_dns add_addrs
  add_adapters servers [] = servers
  add_adapters servers (aa ∷ aas) =
      add_adapters
        (if not aa.is_up
          then servers
          else if not aa.has_gateway
          then servers
          else add_dns servers aa.dns)
        aas

  abbrev pub adapters_of : Result (List Adapter) → List Adapter
  adapters_of (ok aas) = aas
  adapters_of _ = []

  abbrev pub or_default_ns : List Text → List Text
  or_default_ns [] = default_ns
  or_default_ns (s ∷ l) = s ∷ l

  -- `Read`, for what `GetAdaptersAddresses` returns for IPv6 and for IPv4.
  unfoldable pub read : Result (List Adapter) → Result (List Adapter) → Config
  unfolding add_adapters
  read v6 v4 = record initial {
    servers = or_default_ns (add_adapters [] (adapters_of v6 ++ adapters_of v4));
  }
