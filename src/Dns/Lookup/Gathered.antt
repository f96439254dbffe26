-- ===== src/Dns/Lookup/Gathered.antt =====
-- The addresses in the answer sections of the replies to several queries.
use getresolvd.Base.{ℕ, List, [], ◌∷◌, ◌≡◌, Text}
use getresolvd.Netip.{Addr}
use getresolvd.Errors.{ok, Merge}
use getresolvd.Dns.{DnsResolver}
use getresolvd.Dns.Query.{Network, Msg}
use getresolvd.Dns.Query.Replies.{Replied}
use getresolvd.Dns.Lookup.{append_answers}

module _ {W : Type 0} (net : Network W) (merge : Merge) (r : DnsResolver) (name : Text) where
  -- From the world `w` to `w'`, the server replies to a query of each type in turn, with the return
  -- code for success; `found` holds `addrs` and then the addresses of the A and AAAA records of these
  -- replies.
  pub data Gathered : List ℕ → W → List Addr → List Addr → W → Type 0 where
    none_asked : {w : W} {addrs : List Addr} → Gathered [] w addrs addrs w
    replied :
        {q : ℕ} {qs : List ℕ} {w v w' : W} {addrs mid found : List Addr} (m : Msg)
        → Replied net merge r name q w m v
        → append_answers addrs m.answer ≡ ok mid
        → Gathered qs v mid found w'
        → Gathered (q ∷ qs) w addrs found w'

  -- The same, to some world.
  abbrev pub Gathers : List ℕ → W → List Addr → List Addr → Type 0
  Gathers qs w addrs found = (w' : W) × Gathered qs w addrs found w'
