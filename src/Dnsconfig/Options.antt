-- ===== src/Dnsconfig/Options.antt =====
-- The line `options` of /etc/resolv.conf (internal/dnsconfig/config_unix.go).
use getresolvd.Base.{
  true, ◌||◌, List, [], ◌∷◌, Text, codes, text_eq, has_prefix, drop, if◌then◌else◌, ℤ, pos, ltb_ℤ,
  mul_int64,
}
use getresolvd.Dnsconfig.{Config, second}
use getresolvd.Dnsconfig.Atoi.{atoi}

-- The clamp of `ndots:`.
unfoldable pub clamp_n_dots : ℤ → ℤ
clamp_n_dots n = if ltb_ℤ n (pos 0) then pos 0 else if ltb_ℤ (pos 15) n then pos 15 else n

-- `if n < 1 { n = 1 }`.
unfoldable pub at_least_one : ℤ → ℤ
at_least_one n = if ltb_ℤ n (pos 1) then pos 1 else n

-- `time.Duration(n) * time.Second`.
unfoldable pub timeout_of : ℤ → ℤ
unfolding at_least_one
timeout_of n = mul_int64 (at_least_one n) second

-- The switch over one option.
unfoldable pub set_option : Config → Text → Config
unfolding clamp_n_dots at_least_one timeout_of
set_option conf s =
    if has_prefix (codes "ndots:") s
    then record conf { n_dots = clamp_n_dots (atoi (drop 6 s)) }
    else if has_prefix (codes "timeout:") s
    then record conf { timeout = timeout_of (atoi (drop 8 s)) }
    else if has_prefix (codes "attempts:") s
    then record conf { attempts = at_least_one (atoi (drop 9 s)) }
    else if text_eq s (codes "rotate")
    then record conf { rotate = true }
    else if text_eq s (codes "single-request") || text_eq s (codes "single-request-reopen")
    then record conf { single_request = true }
    else if text_eq s (codes "use-vc") || (text_eq s (codes "usevc") || text_eq s (codes "tcp"))
    then record conf { use_tcp = true }
    else if text_eq s (codes "trust-ad")
    then record conf { trust_ad = true }
    else if text_eq s (codes "edns0")
    then conf
    else if text_eq s (codes "no-reload")
    then record conf { no_reload = true }
    else record conf { unknown_opt = true }

-- The loop over `f[1:]`.
unfoldable pub set_options : Config → List Text → Config
unfolding set_option
set_options conf [] = conf
set_options conf (s ∷ opts) = set_options (set_option conf s) opts
