-- ===== src/Dns/Laws.antt =====
-- The connection of a query, and errors that are no answers.
use getresolvd.Base.{ℕ, refl, subst, ◌≡◌, Text, Bool-cases, Option-cases, true, ◌⊎◌, inl, inr}
use getresolvd.Errors.{DnsError, Result, ok, err, panic, Merge, extend_dns_error}
use getresolvd.Errors.Laws.{IfOk}
use getresolvd.Dns.{DnsResolver}
use getresolvd.Dns.Query.{Network, Msg, rcode_success, closing, ask, shaken, dialed, is_tls_net}

pub extend-IfOk {ℓ κ} :
    {A : Type ℓ} (P : A → Type κ) (merge : Merge) (dst src : DnsError)
    → IfOk P (extend_dns_error {A = A} merge dst src)
unfolding extend_dns_error
extend-IfOk P merge dst src = elim (Option-cases (merge dst src)) [
  | inl e ↦ rw (e, extend_dns_error) tt
  | inr (d, e) ↦ rw (e, extend_dns_error) tt
]

abbrev pub IsSuccess : Msg → Type 0
IsSuccess m = m.rcode ≡ rcode_success

module _ {W : Type 0} (net : Network W) (merge : Merge) (r : DnsResolver) where
  -- What every query over this connection ends with.
  abbrev pub Closes : ℕ → Result Msg × W → Type 0
  Closes conn p = (w : W) × (p.1 ≡ net.close conn w)

  -- The handshake panics, before `defer conn.Close()`: the panic is all that follows it.
  abbrev pub HandshakePanics : ℕ → W → Result Msg × W → Type 0
  HandshakePanics conn w p =
      (is_tls_net r.transport ≡ true)
      × ((w' : W) × (net.handshake conn w ≡ (panic, w')) × (p ≡ (panic, w')))

  ask-Closes :
      (name : Text) (q_type conn : ℕ) (w : W) → Closes conn (ask net merge r name q_type conn w)
  unfolding ask closing
  ask-Closes name q_type conn w = (_, refl)

  shaken-Closes :
      (name : Text) (q_type conn : ℕ) (w : W)
      → is_tls_net r.transport ≡ true
      → (p : Result {0} Unit × W) → net.handshake conn w ≡ p
      → Closes conn (shaken net merge r name q_type conn p)
        ⊎ HandshakePanics conn w (shaken net merge r name q_type conn p)
  unfolding shaken
  shaken-Closes name q_type conn w tls (ok _, w') e = inl (ask-Closes name q_type conn w')
  shaken-Closes name q_type conn w tls (err x, w') e = inl (w', refl)
  shaken-Closes name q_type conn w tls (panic, w') e = inr (tls, (w', e, refl))

  -- Once a connection is dialed, the query closes it as its last step on the network, whether the
  -- handshake fails or succeeds and the exchange fails, panics or succeeds; only if the handshake of
  -- a TLS transport panics, the query panics at once and the connection stays open.
  pub dialed-Closes :
      (name : Text) (q_type conn : ℕ) (w : W)
      → Closes conn (dialed net merge r name q_type (ok conn, w))
        ⊎ HandshakePanics conn w (dialed net merge r name q_type (ok conn, w))
  unfolding dialed
  dialed-Closes name q_type conn w = elim (Bool-cases (is_tls_net r.transport)) [
    | inl h ↦
        subst (λ p. Closes conn p ⊎ HandshakePanics conn w p) (rw h refl)
          (shaken-Closes name q_type conn w h (net.handshake conn w) refl)
    | inr h ↦ inl (rw h (ask-Closes name q_type conn w))
  ]
