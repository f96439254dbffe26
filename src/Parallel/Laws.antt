-- ===== src/Parallel/Laws.antt =====
-- What a parallel lookup returns, in every interleaving, and the goroutines that it leaves behind.
use getresolvd.Base.{
  ℕ, List, [], ◌∷◌, ◌++◌, ◌≡◌, ◌≢◌, refl, sym, subst, some, get_elem?, All, Member,
  Member-append_left, Member-concat, All-get_elem?,
}
use getresolvd.Base.Indexed.{
  Everywhere, Everywhere-set, Everywhere-map, get_elem?-set_other, get_elem?-map_const,
}
use getresolvd.Netip.{Addr}
use getresolvd.Errors.{Error, Result, ok, err}
use getresolvd.Parallel.{
  Worker, running, sending, delivered, failed, Main, waiting, answered, closed, ended, State,
  IsDone, Step, finds, fails, receives, closes, ends, Reach, here, next, start,
}

module _ (may : ℕ → Result (List Addr) → Type 0) (context_error : Error → Type 0) where
  -- What the state of a goroutine says of its resolver, of the errors so far, and of the receiver.
  abbrev Justified : Main → List Error → ℕ → Worker → Type 0
  Justified main errs i running = Unit
  Justified main errs i (sending addrs) = may i (ok addrs)
  Justified main errs i (delivered addrs) = may i (ok addrs) × (main ≢ waiting)
  Justified main errs i (failed e) = may i (err e) × Member e errs

  Justified-mono :
      (main main' : Main) (errs errs' : List Error) (i : ℕ) (v : Worker)
      → (main ≢ waiting → main' ≢ waiting)
      → ((e : Error) → Member e errs → Member e errs')
      → Justified main errs i v
      → Justified main' errs' i v
  Justified-mono main main' errs errs' i running k l j = tt
  Justified-mono main main' errs errs' i (sending a) k l j = j
  Justified-mono main main' errs errs' i (delivered a) k l j = (j.0, k j.1)
  Justified-mono main main' errs errs' i (failed e) k l j = (j.0, l e j.1)

  -- What a returned call says: an answer was found by some resolver, and a closed channel means
  -- that every resolver has failed.
  abbrev pub Returned : Main → List Error → List Worker → Type 0
  Returned waiting errs ws = Unit
  Returned (answered addrs) errs ws = (i : ℕ) × may i (ok addrs)
  Returned (closed es) errs ws =
      Everywhere (λ i v. (e : Error) × (v ≡ failed e) × may i (err e) × Member e es) ws
  Returned (ended e) errs ws = context_error e

  record Inv (s : State) : Type 0 where
    justified : Everywhere (Justified s.main s.errs) s.workers
    outcome : Returned s.main s.errs s.workers

  every_failed :
      (errs : List Error) (ws : List Worker)
      → Everywhere (Justified waiting errs) ws
      → All IsDone ws
      → Everywhere (λ i v. (e : Error) × (v ≡ failed e) × may i (err e) × Member e errs) ws
  every_failed errs ws h d i v e = only_failed v (h i v e) (All-get_elem? IsDone ws i v d e)
    where
      only_failed :
          (v : Worker)
          → Justified waiting errs i v
          → IsDone v
          → (e : Error) × (v ≡ failed e) × may i (err e) × Member e errs
      only_failed running j d = elim d [ ]
      only_failed (sending a) j d = elim d [ ]
      only_failed (delivered a) j d = absurd (j.1 refl)
      only_failed (failed e) j d = (e, refl, j.0, j.1)

  -- While a goroutine runs, the channel is not closed.
  outcome_running :
      (m : Main) (errs errs' : List Error) (ws ws' : List Worker) (i : ℕ)
      → get_elem? ws i ≡ some running
      → Returned m errs ws
      → Returned m errs' ws'
  outcome_running waiting errs errs' ws ws' i at r = tt
  outcome_running (answered a) errs errs' ws ws' i at r = r
  outcome_running (closed es) errs errs' ws ws' i at r = let failure = (r i running at).1 in cc
  outcome_running (ended e) errs errs' ws ws' i at r = r

  -- The end of the `select` leaves the goroutines justified.
  leave : (s : State) (m : Main) → m ≢ waiting → Inv s → Everywhere (Justified m s.errs) s.workers
  leave s m n v =
      Everywhere-map _ _ s.workers
        (λ i u. Justified-mono s.main m s.errs s.errs i u (λ _. n) (λ e h. h)) v.justified

  Step-Inv : {s t : State} → Step may context_error s t → Inv s → Inv t
  Step-Inv {s} (finds i addrs at m e) v = subst Inv (sym e) (record {
    justified = Everywhere-set (Justified s.main s.errs) s.workers i (sending addrs) v.justified m;
    outcome = outcome_running s.main s.errs s.errs s.workers _ i at v.outcome;
  })
  Step-Inv {s} (fails i x at m e) v = subst Inv (sym e) (record {
    justified =
        Everywhere-set (Justified s.main (s.errs ++ x ∷ [])) s.workers i (failed x)
          (Everywhere-map _ _ s.workers
            (λ i u.
              Justified-mono s.main s.main s.errs (s.errs ++ x ∷ []) i u (λ n. n)
                (λ y. Member-append_left y s.errs (x ∷ [])))
            v.justified)
          (m, Member-concat x s.errs);
    outcome = outcome_running s.main s.errs (s.errs ++ x ∷ []) s.workers _ i at v.outcome;
  })
  Step-Inv {s} (receives i addrs w at e) v = subst Inv (sym e) (record {
    justified =
        Everywhere-set (Justified (answered addrs) s.errs) s.workers i (delivered addrs)
          (leave s (answered addrs) (λ q. cc) v) (v.justified i (sending addrs) at, λ q. cc);
    outcome = (i, v.justified i (sending addrs) at);
  })
  Step-Inv {s} (closes w d e) v = subst Inv (sym e) (record {
    justified = leave s (closed s.errs) (λ q. cc) v;
    outcome =
        every_failed s.errs s.workers
          (subst (λ m. Everywhere (Justified m s.errs) s.workers) w v.justified) d;
  })
  Step-Inv {s} (ends x w c e) v =
      subst Inv (sym e) (record { justified = leave s (ended x) (λ q. cc) v; outcome = c })

  Reach-Inv : {s t : State} → Inv s → Reach may context_error s t → Inv t
  Reach-Inv v here = v
  Reach-Inv v (next r st) = Step-Inv st (Reach-Inv v r)

  start-Inv : {R : Type 0} (rs : List R) → Inv (start rs)
  start-Inv rs = record {
    justified = λ i v e. rw (get_elem?-map_const running rs i v e) tt;
    outcome = tt;
  }

  -- In every interleaving, from the start: returned addresses are what some resolver found; the
  -- joined errors are returned only if every resolver failed, and hold the error of each; and an
  -- error of the context is returned only if the context ended.
  pub Reach-Returned :
      {R : Type 0} (rs : List R) {t : State}
      → Reach may context_error (start rs) t
      → Returned t.main t.errs t.workers
  Reach-Returned rs r = (Reach-Inv (start-Inv rs) r).outcome

  sending_stays :
      {s t : State} (i : ℕ) (addrs : List Addr)
      → Step may context_error s t
      → s.main ≢ waiting
      → get_elem? s.workers i ≡ some (sending addrs)
      → (t.main ≢ waiting) × (get_elem? t.workers i ≡ some (sending addrs))
  sending_stays {s} i addrs (finds j a at m e) n h =
      rw e (n, get_elem?-set_other s.workers i j (sending addrs) running _ h at (λ q. cc))
  sending_stays {s} i addrs (fails j x at m e) n h =
      rw e (n, get_elem?-set_other s.workers i j (sending addrs) running _ h at (λ q. cc))
  sending_stays i addrs (receives j a w at e) n h = absurd (n w)
  sending_stays i addrs (closes w d e) n h = absurd (n w)
  sending_stays i addrs (ends x w c e) n h = absurd (n w)

  -- Once `LookupNetIP` has returned, a goroutine that stands at its send stays there in every
  -- continuation: it never calls `wg.Done`.
  pub sending_forever :
      {s t : State} (i : ℕ) (addrs : List Addr)
      → s.main ≢ waiting
      → get_elem? s.workers i ≡ some (sending addrs)
      → Reach may context_error s t
      → (t.main ≢ waiting) × (get_elem? t.workers i ≡ some (sending addrs))
  sending_forever i addrs n h here = (n, h)
  sending_forever i addrs n h (next r st) =
      let (n', h') = sending_forever i addrs n h r in sending_stays i addrs st n' h'
