-- ===== src/Dns/Lookup/LastQuery.antt =====
-- The last query of a group, as a step of the group.
use getresolvd.Base.{
  ℕ, Bool, true, false, List, [], ◌∷◌, ◌++◌, ◌≡◌, refl, ap, none, some, Text, get_elem?, set, All,
  length, ltb, take, Bool-cases, inl, inr, ◌⊎◌,
}
use getresolvd.Netip.{Addr, ipv4, addr_from16}
use getresolvd.AddrSelect.Sort.{Dialer}
use getresolvd.Errors.{Error, Result, ok, err, panic, Merge}
use getresolvd.Deps.{DnsNames}
use getresolvd.Dns.{DnsResolver}
use getresolvd.Dns.Query.{Network, Msg, Rr, rr_a, rr_aaaa, rr_other, try_one_name}
use getresolvd.Dns.Lookup.{to4, to16, append_answers, appended, try_and_append, ended}
use getresolvd.Dns.Group.{
  outcome_of, cancelled, Query, asking, answered, failed, KeepError, KeepsFirst, State, appends,
  fails, Reach, next, start, IsDone, waited,
}

-- The loop over the records panics or succeeds.
pub append_answers-ok :
    (addrs : List Addr) (rrs : List Rr)
    → (append_answers addrs rrs ≡ panic) ⊎ ((out : List Addr) × (append_answers addrs rrs ≡ ok out))
unfolding append_answers
append_answers-ok addrs [] = inr (addrs, refl)
append_answers-ok addrs (rr_a b ∷ rrs) = elim (Bool-cases (ltb (length (to4 b)) 4)) [
  | inl short ↦ inl (rw short refl)
  | inr long ↦ rw long (append_answers-ok (addrs ++ ipv4 (take 4 (to4 b)) ∷ []) rrs)
]
append_answers-ok addrs (rr_aaaa b ∷ rrs) = elim (Bool-cases (ltb (length (to16 b)) 16)) [
  | inl short ↦ inl (rw short refl)
  | inr long ↦ rw long (append_answers-ok (addrs ++ addr_from16 (take 16 (to16 b)) ∷ []) rrs)
]
append_answers-ok addrs (rr_other ∷ rrs) = append_answers-ok addrs rrs

-- Two goroutines, in the order in which they end.
abbrev pub place {ℓ} : {A : Type ℓ} → Bool → A → A → List A
place true u v = v ∷ u ∷ []
place false u v = u ∷ v ∷ []

abbrev pub first_at : Bool → ℕ
first_at true = 1
first_at false = 0

abbrev pub second_at : Bool → ℕ
second_at true = 0
second_at false = 1

pub get_elem?-first_at {ℓ} :
    {A : Type ℓ} (s : Bool) (u v : A) → get_elem? (place s u v) (first_at s) ≡ some u
get_elem?-first_at true u v = refl
get_elem?-first_at false u v = refl

pub get_elem?-second_at {ℓ} :
    {A : Type ℓ} (s : Bool) (u v : A) → get_elem? (place s u v) (second_at s) ≡ some v
get_elem?-second_at true u v = refl
get_elem?-second_at false u v = refl

pub set-first_at {ℓ} :
    {A : Type ℓ} (s : Bool) (u v x : A) → set (place s u v) (first_at s) x ≡ place s x v
set-first_at true u v x = refl
set-first_at false u v x = refl

pub set-second_at {ℓ} :
    {A : Type ℓ} (s : Bool) (u v x : A) → set (place s u v) (second_at s) x ≡ place s u x
set-second_at true u v x = refl
set-second_at false u v x = refl

pub All-place : (s : Bool) (u v : Query) → IsDone u → IsDone v → All IsDone (place s u v)
All-place true u v h k = (k, (h, tt))
All-place false u v h k = (h, (k, tt))

pub start-place :
    (s : Bool) (a b : ℕ)
    → start (place s a b) ≡ record { addrs = []; queries = place s asking asking; failure = none }
start-place true a b = refl
start-place false a b = refl

module _ {W : Type 0} (names : DnsNames) (net : Network W) (dialer : Dialer W) (merge : Merge)
    (r : DnsResolver) (name : Text) (qs : List ℕ) where
  -- What `tryOneName` returns for query `i` in some world, or in one with a cancelled context.
  abbrev pub MayQuery : ℕ → Bool → Result Msg → Type 0
  MayQuery i false out =
      (q : ℕ) × (v : W) × (get_elem? qs i ≡ some q) × ((try_one_name net merge r name q v).0 ≡ out)
  MayQuery i true out =
      (q : ℕ) × (v : W) × (get_elem? qs i ≡ some q)
      × ((try_one_name net merge r name q (net.cancel v)).0 ≡ out)

  module _ (keep_error : KeepError) (lawful : KeepsFirst keep_error) where
    -- A run of the group in which every query returns, with this result.
    pub record Runs (out : Result (List Addr)) : Type 0 where
      pub last : State
      pub run : Reach keep_error MayQuery (start qs) last
      pub all_done : All IsDone last.queries
      pub waits : waited last ≡ out

    -- The group before the last query `i`, whose type is `q`.
    pub record Remaining (s : State) (i q : ℕ) : Type 0 where
      pub run : Reach keep_error MayQuery (start qs) s
      pub at_query : get_elem? qs i ≡ some q
      pub at : get_elem? s.queries i ≡ some asking
      pub others : (v : Query) → IsDone v → All IsDone (set s.queries i v)

    -- It succeeds.
    then_answered :
        (s : State) (i q : ℕ) (m : Msg) (found : List Addr) (out : Result (List Addr))
        → Remaining s i q
        → MayQuery i (cancelled keep_error MayQuery s.failure) (ok m)
        → append_answers s.addrs m.answer ≡ ok found
        → outcome_of s.failure found ≡ out
        → Runs out
    then_answered s i q m found out h may added e = record {
      last = record s { addrs = found; queries = set s.queries i (answered m) };
      run = next h.run (appends i m found h.at may added refl);
      all_done = h.others (answered m) tt;
      waits = e;
    }

    -- It fails.
    then_failed :
        (s : State) (i q : ℕ) (x : Error) (out : Result (List Addr))
        → Remaining s i q
        → MayQuery i (cancelled keep_error MayQuery s.failure) (err x)
        → outcome_of (keep_error s.failure x) s.addrs ≡ out
        → Runs out
    then_failed s i q x out h may e = record {
      last = record s { queries = set s.queries i (failed x); failure = keep_error s.failure x };
      run = next h.run (fails i x h.at may refl);
      all_done = h.others (failed x) tt;
      waits = e;
    }

    -- The last query of a group that has no error yet.
    pub last_of_run :
        (s : State) (i q : ℕ) (w : W)
        → Remaining s i q
        → s.failure ≡ none
        → let out = (try_and_append names net dialer merge r name q s.addrs w).0 in
          (out ≡ panic) ⊎ Runs out
    unfolding try_and_append
    last_of_run s i q w h none_yet = by_reply (try_one_name net merge r name q w) refl
      where
        by_reply :
            (p : Result Msg × W)
            → try_one_name net merge r name q w ≡ p
            → let out = (appended names net dialer merge r s.addrs p).0 in (out ≡ panic) ⊎ Runs out
        by_reply (ok m, v) e =
            unfold appended in
            elim (append_answers-ok s.addrs m.answer) [
              | inl broken ↦ inl broken
              | inr (found, added) ↦ inr (
                  then_answered s i q m found _ h
                    (rw none_yet (q, w, h.at_query, ap (λ (p : Result Msg × W). p.0) e)) added
                    (rw (none_yet, added)))
            ]
        by_reply (err x, v) e =
            unfold appended in
            inr (
              then_failed s i q x _ h
                (rw none_yet (q, w, h.at_query, ap (λ (p : Result Msg × W). p.0) e))
                (rw (none_yet, lawful.first x)))
        by_reply (panic, v) e = unfold appended in inl refl

    -- The last query of a group that has an error, whose context is cancelled.
    pub last_after_error :
        (s : State) (i q : ℕ) (x : Error) (w : W)
        → Remaining s i q
        → s.failure ≡ some x
        → let out =
            (ended names net dialer merge r x
              (try_and_append names net dialer merge r name q s.addrs (net.cancel w))).0 in
          (out ≡ panic) ⊎ Runs out
    unfolding try_and_append
    last_after_error s i q x w h failing =
        by_reply (try_one_name net merge r name q (net.cancel w)) refl
      where
        by_reply :
            (p : Result Msg × W)
            → try_one_name net merge r name q (net.cancel w) ≡ p
            → let out =
                (ended names net dialer merge r x
                  (appended names net dialer merge r s.addrs p)).0 in
              (out ≡ panic) ⊎ Runs out
        by_reply (ok m, v) e =
            unfold appended ended in
            elim (append_answers-ok s.addrs m.answer) [
              | inl broken ↦ inl (rw broken refl)
              | inr (found, added) ↦ inr (
                  then_answered s i q m found _ h
                    (rw failing (q, w, h.at_query, ap (λ (p : Result Msg × W). p.0) e)) added
                    (rw (failing, added)))
            ]
        by_reply (err y, v) e =
            unfold appended ended in
            inr (
              then_failed s i q y _ h
                (rw failing (q, w, h.at_query, ap (λ (p : Result Msg × W). p.0) e))
                (rw (failing, lawful.later x y)))
        by_reply (panic, v) e = unfold appended ended in inl refl
