-- ===== src/Dns/Lookup/Interleavings.antt =====
-- The two orders of `in_group` are interleavings of the group of queries.
use getresolvd.Base.{
  Option, ℕ, ◌≤◌, Bool, true, false, List, [], ◌∷◌, ◌≡◌, refl, sym, ap, subst, ◌∙◌, arith, none,
  some, Text, get_elem?, length, inl, inr, ◌⊎◌,
}
use getresolvd.Netip.{Addr}
use getresolvd.AddrSelect.Sort.{Dialer}
use getresolvd.Errors.{Error, Result, ok, err, panic, Merge}
use getresolvd.Deps.{DnsNames}
use getresolvd.Dns.{DnsResolver}
use getresolvd.Dns.Query.{Network, Msg, try_one_name}
use getresolvd.Dns.Lookup.{appended, try_and_append, continue, rest_after_error, ordered, in_group}
use getresolvd.Dns.Group.{
  Step, Query, asking, answered, failed, KeepError, KeepsFirst, State, appends, fails, Reach, here,
  next, start, IsDone,
}
use getresolvd.Dns.Lookup.LastQuery.{
  Remaining, append_answers-ok, place, first_at, second_at, get_elem?-first_at, get_elem?-second_at,
  set-first_at, set-second_at, All-place, start-place, MayQuery, Runs, last_of_run,
  last_after_error,
}

module _ {W : Type 0} (names : DnsNames) (net : Network W) (dialer : Dialer W) (merge : Merge)
    (r : DnsResolver) (name : Text) (qs : List ℕ) (keep_error : KeepError)
    (lawful : KeepsFirst keep_error) where
  continue_last :
      (addrs : List Addr) (p : Result (List Addr) × W)
      → (continue names net dialer merge r name [] addrs p
          λ a w. in_group names net dialer merge r name [] a w).0
        ≡ p.0
  unfolding continue rest_after_error in_group
  continue_last addrs (ok a, w) = refl
  continue_last addrs (err x, w) = refl
  continue_last addrs (panic, w) = refl

  in_group_one :
      (s : State) (i q : ℕ) (w : W)
      → Remaining names net dialer merge r name qs keep_error lawful s i q
      → s.failure ≡ none
      → let out = (in_group names net dialer merge r name (q ∷ []) s.addrs w).0 in
        (out ≡ panic) ⊎ Runs names net dialer merge r name qs keep_error lawful out
  unfolding in_group
  in_group_one s i q w h none_yet =
      subst (λ out. (out ≡ panic) ⊎ Runs names net dialer merge r name qs keep_error lawful out)
        (sym (continue_last s.addrs _))
        (last_of_run names net dialer merge r name qs keep_error lawful s i q w h none_yet)

  module _ (s : Bool) (a b : ℕ) (same : qs ≡ place s a b) where
    abbrev begin : State
    begin = record { addrs = []; queries = place s asking asking; failure = none }

    begun : Reach keep_error (MayQuery names net dialer merge r name qs) (start qs) begin
    begun =
        subst (λ t. Reach keep_error (MayQuery names net dialer merge r name qs) (start qs) t)
          (ap (λ l. start l) same ∙ start-place s a b) here

    at_first : get_elem? qs (first_at s) ≡ some a
    at_first = rw same (get_elem?-first_at s a b)

    -- The first query has returned.
    remaining :
        (addrs : List Addr) (u : Query) (f : Option Error)
        → IsDone u
        → Step keep_error
            (MayQuery names net dialer merge r name qs)
            begin
            (record { addrs = addrs; queries = place s u asking; failure = f })
        → Remaining names net dialer merge r name qs keep_error lawful
            (record { addrs = addrs; queries = place s u asking; failure = f })
            (second_at s)
            b
    remaining addrs u f h st = record {
      run = next begun st;
      at_query = rw same (get_elem?-second_at s a b);
      at = get_elem?-second_at s u asking;
      others = λ v k. rw (set-second_at s u asking v) (All-place s u v h k);
    }

    after_first :
        (w : W) (p : Result Msg × W)
        → try_one_name net merge r name a w ≡ p
        → let out =
            (continue names net dialer merge r name
              (b ∷ [])
              []
              (appended names net dialer merge r [] p)
              λ addrs w. in_group names net dialer merge r name (b ∷ []) addrs w).0 in
          (out ≡ panic) ⊎ Runs names net dialer merge r name qs keep_error lawful out
    after_first w (ok m, v) e =
        unfold appended continue in
        elim (append_answers-ok [] m.answer) [
          | inl broken ↦ inl (rw broken refl)
          | inr (found, added) ↦ rw added (
              in_group_one _ (second_at s) b v
                (remaining found (answered m) none tt (
                  appends (first_at s) m found (get_elem?-first_at s asking asking)
                    (a, w, at_first, ap (λ (p : Result Msg × W). p.0) e) added
                    (ap (λ l. record { addrs = found; queries = l; failure = none })
                      (sym (set-first_at s asking asking (answered m))))))
                refl)
        ]
    after_first w (err x, v) e =
        unfold appended continue rest_after_error in
        last_after_error names net dialer merge r name qs keep_error lawful
          (record { addrs = []; queries = place s (failed x) asking; failure = keep_error none x })
          (second_at s) b x v
          (remaining [] (failed x) (keep_error none x) tt (
            fails (first_at s) x (get_elem?-first_at s asking asking)
              (a, w, at_first, ap (λ (p : Result Msg × W). p.0) e)
              (ap (λ l. record { addrs = []; queries = l; failure = keep_error none x })
                (sym (set-first_at s asking asking (failed x))))))
          (lawful.first x)
    after_first w (panic, v) e = unfold appended continue in inl refl

    in_group_two :
        (w : W)
        → let out = (in_group names net dialer merge r name (a ∷ b ∷ []) [] w).0 in
          (out ≡ panic) ⊎ Runs names net dialer merge r name qs keep_error lawful out
    unfolding in_group try_and_append
    in_group_two w = after_first w (try_one_name net merge r name a w) refl

module _ {W : Type 0} (names : DnsNames) (net : Network W) (dialer : Dialer W) (merge : Merge)
    (r : DnsResolver) (name : Text) (keep_error : KeepError) (lawful : KeepsFirst keep_error) where
  -- If the group keeps the first error: the model of a group of at most two queries that takes one
  -- after the other, in either order, panics or gives the result of a run of the group's step
  -- relation in which each query returns what `tryOneName` returns in some world, cancelled if and
  -- only if another one failed before.
  pub in_group-Runs :
      (swapped : Bool) (qs : List ℕ) (w : W)
      → length qs ≤ 2
      → let out =
          (in_group names net dialer merge r name
            (ordered names net dialer merge r swapped qs)
            []
            w).0 in
        (out ≡ panic) ⊎ Runs names net dialer merge r name qs keep_error lawful out
  unfolding in_group
  in_group-Runs true [] w few =
      inr (record { last = start {A = ℕ} []; run = here; all_done = tt; waits = refl })
  in_group-Runs true (a ∷ []) w few =
      in_group_one names net dialer merge r name (a ∷ []) keep_error lawful (start (a ∷ [])) 0 a w
        (record { run = here; at_query = refl; at = refl; others = λ v d. (d, tt) }) refl
  in_group-Runs false [] w few =
      inr (record { last = start {A = ℕ} []; run = here; all_done = tt; waits = refl })
  in_group-Runs false (a ∷ []) w few =
      in_group_one names net dialer merge r name (a ∷ []) keep_error lawful (start (a ∷ [])) 0 a w
        (record { run = here; at_query = refl; at = refl; others = λ v d. (d, tt) }) refl
  in_group-Runs true (a ∷ b ∷ []) w few =
      in_group_two names net dialer merge r name (a ∷ b ∷ []) keep_error lawful true b a refl w
  in_group-Runs false (a ∷ b ∷ []) w few =
      in_group_two names net dialer merge r name (a ∷ b ∷ []) keep_error lawful false a b refl w
  in_group-Runs true (a ∷ b ∷ c ∷ qs) w few = absurd (omega arith)
  in_group-Runs false (a ∷ b ∷ c ∷ qs) w few = absurd (omega arith)
