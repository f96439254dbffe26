-- ===== src/Dns/Lookup/QueryFailures.antt =====
-- The errors of the queries of a lookup.
use getresolvd.Base.{ℕ, Bool, true, false, List, [], ◌∷◌, ◌≡◌, refl, Text, inl, inr, Member}
use getresolvd.Netip.{Addr}
use getresolvd.AddrSelect.Sort.{Dialer}
use getresolvd.Errors.{Error, Result, ok, err, panic, Merge}
use getresolvd.Errors.Laws.{MergeFills}
use getresolvd.Deps.{DnsNames}
use getresolvd.Dns.{DnsResolver}
use getresolvd.Dns.Query.{Network, Msg, try_one_name}
use getresolvd.Dns.Query.Causes.{Cause, IfErr, try_one_name-Cause}
use getresolvd.Dns.Lookup.{
  appended, try_and_append, and_then, one_by_one, continue, rest_after_error, ended, in_group,
  ordered,
}
use getresolvd.Dns.Lookup.LastQuery.{append_answers-ok}

pub IfErr-map {ℓ κ ν} :
    {A : Type ℓ} (P : Error → Type κ) (Q : Error → Type ν) (r : Result A)
    → ((e : Error) → P e → Q e)
    → IfErr P r
    → IfErr Q r
IfErr-map P Q (ok a) f h = tt
IfErr-map P Q (err e) f h = f e h
IfErr-map P Q panic f h = tt

module _ {W : Type 0} (names : DnsNames) (net : Network W) (dialer : Dialer W) (merge : Merge)
    (r : DnsResolver) (fills : MergeFills merge) where
  -- One of the queries failed with this error.
  pub record QueryFailed (name : Text) (qs : List ℕ) (x : Error) : Type 0 where
    pub query : ℕ
    pub member : Member query qs
    pub cause : Cause net merge r name query x

  QueryFailed-more :
      (name : Text) (q : ℕ) (qs : List ℕ) (x : Error)
      → QueryFailed name qs x
      → QueryFailed name (q ∷ qs) x
  QueryFailed-more name q qs x f = record {
    query = f.query;
    member = inr f.member;
    cause = f.cause;
  }

  -- A query, and then others.
  appended-IfErr :
      (name : Text) (q : ℕ) (qs : List ℕ) (addrs : List Addr) (w : W)
      (next : Result (List Addr) × W → Result (List Addr) × W)
      → ((a : List Addr) (v : W) → IfErr (QueryFailed name qs) (next (ok a, v)).0)
      → ((e : Error) (v : W)
          → QueryFailed name (q ∷ qs) e
          → IfErr (QueryFailed name (q ∷ qs)) (next (err e, v)).0)
      → ((v : W) → IfErr (QueryFailed name (q ∷ qs)) (next (panic, v)).0)
      → IfErr
          (QueryFailed name (q ∷ qs))
          (next (try_and_append names net dialer merge r name q addrs w)).0
  unfolding try_and_append
  appended-IfErr name q qs addrs w next k f g = by_reply (try_one_name net merge r name q w) refl
    where
      by_reply :
          (p : Result Msg × W)
          → try_one_name net merge r name q w ≡ p
          → IfErr (QueryFailed name (q ∷ qs)) (next (appended names net dialer merge r addrs p)).0
      by_reply (ok m, v) e =
          unfold appended in
          elim (append_answers-ok addrs m.answer) [
            | inl broken ↦ rw broken (g v)
            | inr (out, added) ↦ rw added (
                IfErr-map (QueryFailed name qs) (QueryFailed name (q ∷ qs)) (next (ok out, v)).0
                  (λ x h. QueryFailed-more name q qs x h) (k out v))
          ]
      by_reply (err x, v) e =
          unfold appended in
          f x v (record {
            query = q;
            member = inl refl;
            cause = try_one_name-Cause net merge r name q fills w v x e;
          })
      by_reply (panic, v) e = unfold appended in g v

  pub one_by_one-IfErr :
      (name : Text) (qs : List ℕ) (addrs : List Addr) (w : W)
      → IfErr (QueryFailed name qs) (one_by_one names net dialer merge r name qs addrs w).0
  unfolding one_by_one and_then
  one_by_one-IfErr name [] addrs w = tt
  one_by_one-IfErr name (q ∷ qs) addrs w =
      appended-IfErr name q qs addrs w
        (λ p.
          and_then names net dialer merge r p
            λ a v. one_by_one names net dialer merge r name qs a v)
        (λ a v. one_by_one-IfErr name qs a v) (λ e v h. h) (λ v. tt)

  pub in_group-IfErr :
      (name : Text) (qs : List ℕ) (addrs : List Addr) (w : W)
      → IfErr (QueryFailed name qs) (in_group names net dialer merge r name qs addrs w).0
  unfolding in_group continue
  in_group-IfErr name [] addrs w = tt
  in_group-IfErr name (q ∷ qs) addrs w =
      appended-IfErr name q qs addrs w
        (λ p.
          continue names net dialer merge r name qs addrs p
            λ a v. in_group names net dialer merge r name qs a v)
        (λ a v. in_group-IfErr name qs a v) (λ e v h. after qs e v h) (λ v. tt)
    where
      stays :
          (e : Error) (p : Result (List Addr) × W)
          → QueryFailed name (q ∷ qs) e
          → IfErr (QueryFailed name (q ∷ qs)) (ended names net dialer merge r e p).0
      stays e (ok a, v) h = unfold ended in h
      stays e (err x, v) h = unfold ended in h
      stays e (panic, v) h = unfold ended in tt

      after :
          (others : List ℕ) (e : Error) (v : W)
          → QueryFailed name (q ∷ qs) e
          → IfErr
              (QueryFailed name (q ∷ qs))
              (rest_after_error names net dialer merge r name others addrs e v).0
      after [] e v h = unfold rest_after_error in h
      after (o ∷ others) e v h = unfold rest_after_error in stays e _ h

  pub ordered-QueryFailed :
      (swapped : Bool) (name : Text) (qs : List ℕ) (x : Error)
      → QueryFailed name (ordered names net dialer merge r swapped qs) x
      → QueryFailed name qs x
  ordered-QueryFailed true name [] x f = f
  ordered-QueryFailed true name (a ∷ []) x f = f
  ordered-QueryFailed true name (a ∷ b ∷ []) x f = record {
    query = f.query;
    member = turned f.member;
    cause = f.cause;
  }
    where
      turned : {q : ℕ} → Member q (b ∷ a ∷ []) → Member q (a ∷ b ∷ [])
      turned (inl e) = inr (inl e)
      turned (inr (inl e)) = inl e
      turned (inr (inr m)) = inr (inr m)
  ordered-QueryFailed true name (a ∷ b ∷ c ∷ qs) x f = f
  ordered-QueryFailed false name qs x f = f
