-- ===== src/Dns/Group/Laws.antt =====
-- What a group of queries returns, in every interleaving.
use mathlib.Core.List.Perm
use getresolvd.Base.{
  ℕ, Bool, false, List, [], ◌∷◌, ◌≡◌, ◌≢◌, refl, sym, ap, subst, Option, none, some, get_elem?, set,
  All, All-get_elem?, map, Perm, inl, inr, ◌⊎◌,
}
use getresolvd.Base.Indexed.{
  Everywhere, Everywhere-set, Everywhere-map, get_elem?-set_self, get_elem?-set_other,
  get_elem?-map_const,
}
use getresolvd.Errors.{Error, Result, ok, err}
use getresolvd.Dns.Query.{Msg}
use getresolvd.Dns.Group.Contents.{
  record_addrs, append_answers-record_addrs, contents, contents-answered, contents-failed,
}
use getresolvd.Dns.Group.{
  Query, asking, answered, failed, State, cancelled, Step, appends, fails, Reach, here, next, start,
  IsDone, waited, outcome_of, KeepError, KeepsFirst,
}

module _ (keep_error : KeepError) (lawful : KeepsFirst keep_error)
    (may : ℕ → Bool → Result Msg → Type 0) where
  -- What the state of a goroutine says of its query, while the group has this error.
  abbrev Justified : Option Error → ℕ → Query → Type 0
  Justified f i asking = Unit
  Justified f i (answered m) = f ≡ none → may i false (ok m)
  Justified f i (failed e) = f ≢ none

  -- The error of the group is the error of a query that failed before any other.
  abbrev pub FirstFailure : Option Error → List Query → Type 0
  FirstFailure none qs = Unit
  FirstFailure (some e) qs = (i : ℕ) × (get_elem? qs i ≡ some (failed e)) × may i false (err e)

  record Inv (s : State) : Type 0 where
    gathered : Perm s.addrs (contents s.queries)
    justified : Everywhere (Justified s.failure) s.queries
    first : FirstFailure s.failure s.queries

  FirstFailure-set :
      (f : Option Error) (qs : List Query) (i : ℕ) (q : Query)
      → get_elem? qs i ≡ some asking
      → FirstFailure f qs
      → FirstFailure f (set qs i q)
  FirstFailure-set none qs i q at h = tt
  FirstFailure-set (some e) qs i q at (j, h, m) =
      (j, get_elem?-set_other qs j i (failed e) asking q h at (λ x. cc), m)

  -- The flag of the query that appends.
  may_uncancelled :
      (f : Option Error) (i : ℕ) (m : Result Msg)
      → may i (cancelled keep_error may f) m
      → f ≡ none
      → may i false m
  may_uncancelled none i m h e = h
  may_uncancelled (some x) i m h e = cc

  keep_error-ne-none : (f : Option Error) (e : Error) → keep_error f e ≢ none
  keep_error-ne-none none e h = let same = lawful.first e in cc
  keep_error-ne-none (some x) e h = let same = lawful.later x e in cc

  Justified-failure :
      (f : Option Error) (e : Error) (i : ℕ) (q : Query)
      → Justified f i q
      → Justified (keep_error f e) i q
  Justified-failure f e i asking j = tt
  Justified-failure f e i (answered m) j = λ h. absurd (keep_error-ne-none f e h)
  Justified-failure f e i (failed x) j = keep_error-ne-none f e

  FirstFailure-failed :
      (f : Option Error) (qs : List Query) (i : ℕ) (e : Error)
      → get_elem? qs i ≡ some asking
      → may i (cancelled keep_error may f) (err e)
      → FirstFailure f qs
      → FirstFailure (keep_error f e) (set qs i (failed e))
  FirstFailure-failed none qs i e at m h =
      rw (lawful.first e) (i, get_elem?-set_self qs i asking (failed e) at, m)
  FirstFailure-failed (some x) qs i e at m h =
      rw (lawful.later x e) (FirstFailure-set (some x) qs i (failed e) at h)

  Step-Inv : {s t : State} → Step keep_error may s t → Inv s → Inv t
  Step-Inv {s} (appends i m addrs at allowed added e) v = subst Inv (sym e) (record {
    gathered = rw (append_answers-record_addrs s.addrs addrs m.answer added) (
        Perm.trans (Perm.append_right (record_addrs m.answer) v.gathered)
          (contents-answered s.queries i m at));
    justified =
        Everywhere-set (Justified s.failure) s.queries i (answered m) v.justified
          (may_uncancelled s.failure i (ok m) allowed);
    first = FirstFailure-set s.failure s.queries i (answered m) at v.first;
  })
  Step-Inv {s} (fails i x at allowed e) v = subst Inv (sym e) (record {
    gathered = subst (λ l. Perm s.addrs l) (sym (contents-failed s.queries i x at)) v.gathered;
    justified =
        Everywhere-set (Justified (keep_error s.failure x)) s.queries i (failed x)
          (Everywhere-map (Justified s.failure) (Justified (keep_error s.failure x)) s.queries
            (Justified-failure s.failure x) v.justified)
          (keep_error-ne-none s.failure x);
    first = FirstFailure-failed s.failure s.queries i x at allowed v.first;
  })

  Reach-Inv : {s t : State} → Inv s → Reach keep_error may s t → Inv t
  Reach-Inv v here = v
  Reach-Inv v (next r st) = Step-Inv st (Reach-Inv v r)

  contents-asking : {A : Type 0} (qs : List A) → contents (map (λ _. asking) qs) ≡ []
  contents-asking [] = refl
  contents-asking (q ∷ qs) = contents-asking qs

  start-Inv : {A : Type 0} (qs : List A) → Inv (start qs)
  start-Inv qs = record {
    gathered = rw (contents-asking qs) Perm.nil;
    justified = λ i v e. rw (get_elem?-map_const asking qs i v e) tt;
    first = tt;
  }

  -- The group returned addresses: every query succeeded before any cancellation, and they are a
  -- rearrangement of the addresses of the replies in the order of the queries.
  pub record Succeeds (t : State) : Type 0 where
    pub returns : waited t ≡ ok t.addrs
    pub replies : Everywhere (λ i q. (m : Msg) × (q ≡ answered m) × may i false (ok m)) t.queries
    pub gathered : Perm t.addrs (contents t.queries)

  -- The group returned the error of a query that failed before any other.
  pub record FailsFirst (t : State) : Type 0 where
    pub error : Error
    pub index : ℕ
    pub returns : waited t ≡ err error
    pub failure : get_elem? t.queries index ≡ some (failed error)
    pub uncancelled : may index false (err error)

  -- If the group keeps the first error: in every interleaving, once all goroutines have returned: either all queries succeeded, and the
  -- addresses are a rearrangement of those in their replies, or the error is the one of the query that
  -- failed first, which the cancellation of the group cannot have caused.
  pub group_outcome :
      {A : Type 0} (qs : List A) {t : State}
      → Reach keep_error may (start qs) t
      → All IsDone t.queries
      → Succeeds t ⊎ FailsFirst t
  group_outcome qs {t} r d = by_failure t.failure refl
    where
      v : Inv t
      v = Reach-Inv (start-Inv qs) r

      replied :
          (i : ℕ) (q : Query)
          → t.failure ≡ none
          → Justified t.failure i q
          → IsDone q
          → (m : Msg) × (q ≡ answered m) × may i false (ok m)
      replied i asking f j d = elim d [ ]
      replied i (answered m) f j d = (m, refl, j f)
      replied i (failed e) f j d = absurd (j f)

      by_failure : (f : Option Error) → t.failure ≡ f → Succeeds t ⊎ FailsFirst t
      by_failure none e = inl (record {
        returns = ap (λ f. outcome_of f t.addrs) e;
        replies =
            λ i q at. replied i q e (v.justified i q at) (All-get_elem? IsDone t.queries i q d at);
        gathered = v.gathered;
      })
      by_failure (some x) e =
          let (i, at, m) = subst (λ f. FirstFailure f t.queries) e v.first in
          inr (record {
            error = x;
            index = i;
            returns = ap (λ f. outcome_of f t.addrs) e;
            failure = at;
            uncancelled = m;
          })
