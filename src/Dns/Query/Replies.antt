-- ===== src/Dns/Query/Replies.antt =====
-- What happened on the network when `tryOneName` succeeds.
use getresolvd.Base.{
  ℕ, true, ◌≡◌, refl, ap, ◌∙◌, Text, Bool-cases, Option-cases, inl, inr, ◌==◌, ==_iff,
  if◌then◌else◌,
}
use getresolvd.Errors.{DnsError, Result, ok, err, panic, Merge, extend_dns_error}
use getresolvd.Dns.{DnsResolver}
use getresolvd.Dns.Query.{
  Network, Msg, rcode_success, rcode_name_error, check_rcode, fail_with, exchanged, closing, ask,
  shaken, dialed, cancelling, has_timeout, try_one_name, is_tls_net, trim_tls,
}

abbrev pub IsSuccess : Msg → Type 0
IsSuccess m = m.rcode ≡ rcode_success

-- What holds of a result that is a value, and of the world behind it.
abbrev pub IfOkThen {ℓ κ} : {A : Type ℓ} {W : Type 0} → (A → W → Type κ) → Result A × W → Type κ
IfOkThen P (ok a, w) = P a w
IfOkThen P (err e, w) = Unit
IfOkThen P (panic, w) = Unit

module _ {W : Type 0} (net : Network W) (merge : Merge) (r : DnsResolver) where
  -- The context of a query, and its end.
  abbrev pub begun : W → W
  begun w = if has_timeout net merge r then net.with_timeout r.timeout w else w

  abbrev pub finished : W → W
  finished w = if has_timeout net merge r then net.cancel w else w

  -- Over TLS, the handshake succeeds; another transport has none.
  abbrev pub Shaken : ℕ → W → W → Type 0
  Shaken conn w w' = if is_tls_net r.transport then net.handshake conn w ≡ (ok tt, w') else w' ≡ w

  -- From the world `w` to `w'`: a connection to the server is dialed and shaken, the server replies
  -- with `m` to the question of this name and type, with the return code for success, and the
  -- connection is closed.
  pub record Replied (name : Text) (q_type : ℕ) (w : W) (m : Msg) (w' : W) : Type 0 where
    pub conn : ℕ
    pub connected : W
    pub ready : W
    pub after : W
    pub dials :
        net.dial (trim_tls r.transport) (net.server_string r.server) (begun w)
        ≡ (ok conn, connected)
    pub shakes : Shaken conn connected ready
    pub replies : net.exchange conn name q_type ready ≡ (ok m, after)
    pub success : IsSuccess m
    pub ends : w' ≡ finished (net.close conn after)

  extend-IfOkThen :
      (P : Msg → W → Type 0) (dst src : DnsError) (w : W)
      → IfOkThen P (extend_dns_error {A = Msg} merge dst src, w)
  unfolding extend_dns_error
  extend-IfOkThen P dst src w = elim (Option-cases (merge dst src)) [
    | inl e ↦ rw (e, extend_dns_error) tt
    | inr (d, e) ↦ rw (e, extend_dns_error) tt
  ]

  -- The reply over a connection that is ready, which is then closed.
  record Asked (name : Text) (q_type conn : ℕ) (w : W) (m : Msg) (w' : W) : Type 0 where
    after : W
    replies : net.exchange conn name q_type w ≡ (ok m, after)
    success : IsSuccess m
    ends : w' ≡ net.close conn after

  check_rcode-Asked :
      (name : Text) (q_type conn : ℕ) (w : W) (m : Msg) (after : W)
      → net.exchange conn name q_type w ≡ (ok m, after)
      → IfOkThen (Asked name q_type conn w) (check_rcode net merge r name m, net.close conn after)
  unfolding check_rcode
  check_rcode-Asked name q_type conn w m after e = elim (Bool-cases (m.rcode == rcode_success)) [
    | inl h ↦
        rw (h, check_rcode)
          (record {
            after = after;
            replies = e;
            success = (==_iff m.rcode rcode_success).0 h;
            ends = refl;
          })
    | inr h ↦
        rw (h, check_rcode)
          (elim (Bool-cases (m.rcode == rcode_name_error)) [
            | inl k ↦ rw k (extend-IfOkThen (Asked name q_type conn w) _ _ _)
            | inr k ↦ rw k (extend-IfOkThen (Asked name q_type conn w) _ _ _)
          ])
  ]

  ask-Asked :
      (name : Text) (q_type conn : ℕ) (w : W)
      → IfOkThen (Asked name q_type conn w) (ask net merge r name q_type conn w)
  unfolding ask closing
  ask-Asked name q_type conn w = reply (net.exchange conn name q_type w) refl
    where
      reply :
          (p : Result Msg × W)
          → net.exchange conn name q_type w ≡ p
          → IfOkThen
              (Asked name q_type conn w)
              (closing net merge r conn (exchanged net merge r name p))
      reply (ok m, after) e = unfold exchanged in check_rcode-Asked name q_type conn w m after e
      reply (err x, after) e =
          unfold exchanged fail_with in extend-IfOkThen (Asked name q_type conn w) _ _ _
      reply (panic, after) e = unfold exchanged in tt

  -- All of it but the end of the context.
  record Dialed (name : Text) (q_type : ℕ) (w : W) (m : Msg) (w' : W) : Type 0 where
    conn : ℕ
    connected : W
    ready : W
    dials : net.dial (trim_tls r.transport) (net.server_string r.server) w ≡ (ok conn, connected)
    shakes : Shaken conn connected ready
    asked : Asked name q_type conn ready m w'

  IfOkThen-map :
      (P Q : Msg → W → Type 0) (p : Result Msg × W)
      → ((m : Msg) (w : W) → P m w → Q m w)
      → IfOkThen P p
      → IfOkThen Q p
  IfOkThen-map P Q (ok m, w) f h = f m w h
  IfOkThen-map P Q (err e, w) f h = tt
  IfOkThen-map P Q (panic, w) f h = tt

  module _ (name : Text) (q_type : ℕ) (w : W) (conn : ℕ) (v : W)
      (dials : net.dial (trim_tls r.transport) (net.server_string r.server) w ≡ (ok conn, v)) where
    ask-Dialed :
        (ready : W)
        → Shaken conn v ready
        → IfOkThen (Dialed name q_type w) (ask net merge r name q_type conn ready)
    ask-Dialed ready shakes =
        IfOkThen-map (Asked name q_type conn ready) (Dialed name q_type w) _
          (λ m w' a. record {
            conn = conn;
            connected = v;
            ready = ready;
            dials = dials;
            shakes = shakes;
            asked = a;
          })
          (ask-Asked name q_type conn ready)

    shaken-Dialed :
        is_tls_net r.transport ≡ true
        → (p : Result {0} Unit × W) → net.handshake conn v ≡ p
        → IfOkThen (Dialed name q_type w) (shaken net merge r name q_type conn p)
    unfolding shaken fail_with
    shaken-Dialed tls (ok _, ready) e = ask-Dialed ready (rw tls e)
    shaken-Dialed tls (err x, ready) e = extend-IfOkThen (Dialed name q_type w) _ _ _
    shaken-Dialed tls (panic, ready) e = tt

  dialed-Dialed :
      (name : Text) (q_type : ℕ) (w : W) (p : Result ℕ × W)
      → net.dial (trim_tls r.transport) (net.server_string r.server) w ≡ p
      → IfOkThen (Dialed name q_type w) (dialed net merge r name q_type p)
  unfolding dialed fail_with
  dialed-Dialed name q_type w (ok conn, v) e = elim (Bool-cases (is_tls_net r.transport)) [
    | inl h ↦ rw h (shaken-Dialed name q_type w conn v e h (net.handshake conn v) refl)
    | inr h ↦ rw h (ask-Dialed name q_type w conn v e v (rw h refl))
  ]
  dialed-Dialed name q_type w (err x, v) e = extend-IfOkThen (Dialed name q_type w) _ _ _
  dialed-Dialed name q_type w (panic, v) e = tt

  Dialed-Replied :
      (name : Text) (q_type : ℕ) (w : W) (m : Msg) (v w' : W)
      → Dialed name q_type (begun w) m v
      → w' ≡ finished v
      → Replied name q_type w m w'
  Dialed-Replied name q_type w m v w' d e = record {
    conn = d.conn;
    connected = d.connected;
    ready = d.ready;
    after = d.asked.after;
    dials = d.dials;
    shakes = d.shakes;
    replies = d.asked.replies;
    success = d.asked.success;
    ends = e ∙ ap finished d.asked.ends;
  }

  -- A query that succeeds has a reply of the server that it was sent to.
  pub try_one_name-Replied :
      (name : Text) (q_type : ℕ) (w : W)
      → IfOkThen (Replied name q_type w) (try_one_name net merge r name q_type w)
  unfolding try_one_name cancelling
  try_one_name-Replied name q_type w = elim (Bool-cases (has_timeout net merge r)) [
    | inl h ↦ rw h (cancelled _ (dialed-Dialed name q_type (net.with_timeout r.timeout w) _ refl) h)
    | inr h ↦ rw h (
        IfOkThen-map (Dialed name q_type w) (Replied name q_type w) _
          (λ m v d. Dialed-Replied name q_type w m v v (rw h d) (rw h refl))
          (dialed-Dialed name q_type w _ refl))
  ]
    where
      cancelled :
          (p : Result Msg × W)
          → IfOkThen (Dialed name q_type (net.with_timeout r.timeout w)) p
          → has_timeout net merge r ≡ true
          → IfOkThen (Replied name q_type w) (cancelling net merge r p)
      cancelled (ok m, v) d h = Dialed-Replied name q_type w m v (net.cancel v) (rw h d) (rw h refl)
      cancelled (err e, v) d h = tt
      cancelled (panic, v) d h = tt
