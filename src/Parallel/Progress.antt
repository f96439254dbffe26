-- ===== src/Parallel/Progress.antt =====
-- A parallel lookup takes boundedly many steps, and is never stuck before it returns.
use getresolvd.Base.{
  ◌≢◌, ℕ, zero, suc, ◌+◌, ◌*◌, ◌≤◌, ◌<◌, List, [], ◌∷◌, ◌≡◌, refl, arith, some, get_elem?, set, All,
  map, length, ◌⊎◌, inl, inr,
}
use getresolvd.Netip.{Addr}
use getresolvd.Errors.{Error, Result, ok, err}
use getresolvd.Parallel.{
  Worker, running, sending, delivered, failed, Main, waiting, answered, closed, ended, State,
  IsDone, Step, finds, fails, receives, closes, ends, Reach, here, next, start,
}

-- The steps that a goroutine, all of them, and `LookupNetIP` may still take.
abbrev left_of : Worker → ℕ
left_of running = 2
left_of (sending a) = 1
left_of (delivered a) = 0
left_of (failed e) = 0

abbrev left_in : List Worker → ℕ
left_in [] = 0
left_in (v ∷ ws) = left_of v + left_in ws

abbrev main_left : Main → ℕ
main_left waiting = 1
main_left (answered a) = 0
main_left (closed es) = 0
main_left (ended e) = 0

left_in-set :
    (ws : List Worker) (i : ℕ) (u v : Worker)
    → get_elem? ws i ≡ some u
    → left_in (set ws i v) + left_of u ≡ left_in ws + left_of v
left_in-set [] i u v e = cc
left_in-set (w ∷ ws) zero u v e = let same : w ≡ u = cc in rw same (omega arith)
left_in-set (w ∷ ws) (suc i) u v e = omega (arith, left_in-set ws i u v e)

left_in-start {ℓ} : {R : Type ℓ} (rs : List R) → left_in (map (λ _. running) rs) ≡ 2 * length rs
left_in-start [] = refl
left_in-start (r ∷ rs) = omega (arith, left_in-start rs)

-- A goroutine that is not past its end, or none.
data Search (ws : List Worker) : Type 0 where
  all_done : All IsDone ws → Search ws
  one_runs : (i : ℕ) → get_elem? ws i ≡ some running → Search ws
  one_sends : (i : ℕ) (a : List Addr) → get_elem? ws i ≡ some (sending a) → Search ws

later : (w : Worker) (ws : List Worker) → IsDone w → Search ws → Search (w ∷ ws)
later w ws d (all_done ds) = all_done (d, ds)
later w ws d (one_runs i e) = one_runs (suc i) e
later w ws d (one_sends i a e) = one_sends (suc i) a e

search_workers : (ws : List Worker) → Search ws
search_workers [] = all_done tt
search_workers (running ∷ ws) = one_runs zero refl
search_workers (sending a ∷ ws) = one_sends zero a refl
search_workers (delivered a ∷ ws) = later (delivered a) ws tt (search_workers ws)
search_workers (failed e ∷ ws) = later (failed e) ws tt (search_workers ws)

module _ (may : ℕ → Result (List Addr) → Type 0) (context_error : Error → Type 0) where
  abbrev left : State → ℕ
  left s = left_in s.workers + main_left s.main

  Step-left : {s t : State} → Step may context_error s t → left t < left s
  Step-left {s} (finds i a at m e) =
      rw e (omega (arith, left_in-set s.workers i running (sending a) at))
  Step-left {s} (fails i x at m e) =
      rw e (omega (arith, left_in-set s.workers i running (failed x) at))
  Step-left {s} (receives i a w at e) =
      rw (e, w) (omega (arith, left_in-set s.workers i (sending a) (delivered a) at))
  Step-left {s} (closes w d e) = rw (e, w) (omega arith)
  Step-left {s} (ends x w c e) = rw (e, w) (omega arith)

  abbrev pub steps : {s t : State} → Reach may context_error s t → ℕ
  steps here = 0
  steps (next r st) = suc (steps r)

  steps-left : {s t : State} (r : Reach may context_error s t) → steps r + left t ≤ left s
  steps-left here = omega arith
  steps-left (next r st) = omega (arith, steps-left r, Step-left st)

  -- Every run of a parallel lookup ends: it has at most two steps for each resolver and one more.
  pub steps-le :
      {R : Type 0} (rs : List R) {t : State} (r : Reach may context_error (start rs) t)
      → steps r ≤ 2 * length rs + 1
  steps-le rs r = omega (arith, steps-left r, left_in-start rs)

  -- If every lookup may return addresses or an error, then a state in which `LookupNetIP` has not
  -- returned has a next step: with the bound on the steps, every run that goes on as long as it can
  -- ends with a return.
  pub waiting_steps :
      ((i : ℕ) → ((a : List Addr) × may i (ok a)) ⊎ ((e : Error) × may i (err e)))
      → (s : State) → s.main ≡ waiting
      → (t : State) × Step may context_error s t
  waiting_steps returns s w = by_search (search_workers s.workers)
    where
      runs :
          (i : ℕ)
          → get_elem? s.workers i ≡ some running
          → ((a : List Addr) × may i (ok a)) ⊎ ((e : Error) × may i (err e))
          → (t : State) × Step may context_error s t
      runs i at (inl (a, m)) = (_, finds i a at m refl)
      runs i at (inr (e, m)) = (_, fails i e at m refl)

      by_search : Search s.workers → (t : State) × Step may context_error s t
      by_search (all_done d) = (_, closes w d refl)
      by_search (one_runs i at) = runs i at (returns i)
      by_search (one_sends i a at) = (_, receives i a w at refl)

  step_first :
      {s t u : State}
      → Step may context_error s t
      → Reach may context_error t u
      → Reach may context_error s u
  step_first st here = next here st
  step_first st (next r last) = next (step_first st r) last

  main_cases : (m : Main) → (m ≡ waiting) ⊎ (m ≢ waiting)
  main_cases waiting = inl refl
  main_cases (answered a) = inr (λ e. cc)
  main_cases (closed es) = inr (λ e. cc)
  main_cases (ended x) = inr (λ e. cc)

  module _
      (returns : (i : ℕ) → ((a : List Addr) × may i (ok a)) ⊎ ((e : Error) × may i (err e))) where
    returns_within :
        (n : ℕ) (s : State)
        → left s ≤ n
        → (u : State) × Reach may context_error s u × (u.main ≢ waiting)
    returns_within zero s h = elim (main_cases s.main) [
      | inl w ↦ let some_left = rw w at h in absurd (omega arith)
      | inr m ↦ (s, here, m)
    ]
    returns_within (suc n) s h = elim (main_cases s.main) [
      | inr m ↦ (s, here, m)
      | inl w ↦
          let (t, st) = waiting_steps returns s w in
          let (u, r, m) = returns_within n t (omega (arith, Step-left st)) in
          (u, step_first st r, m)
    ]

    -- If every lookup may return addresses or an error: a run of a parallel lookup has at most two
    -- steps for each resolver and one more, and it can always be continued to one in which
    -- `LookupNetIP` has returned. So every run that goes on as long as it can ends with a return.
    pub run_returns :
        {R : Type 0} (rs : List R) {t : State} (r : Reach may context_error (start rs) t)
        → (steps r ≤ 2 * length rs + 1)
          × ((u : State) × Reach may context_error t u × (u.main ≢ waiting))
    run_returns rs {t} r = (steps-le rs r, returns_within (left t) t (omega arith))
