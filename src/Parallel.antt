-- ===== src/Parallel.antt =====
-- parallel.go: all resolvers at once. The goroutines are workers, and a step relation gives every
-- interleaving of their sends, of the receive in `LookupNetIP` and of the end of the context.
pub mod Laws
pub mod Progress
use getresolvd.Base.{
  ℕ, zero, suc, Bool, true, false, List, [], ◌∷◌, ◌++◌, ◌≡◌, Option, some, none, get_elem?, set,
  All, map,
}
use getresolvd.Netip.{Addr}
use getresolvd.Errors.{Error, Result, ok, err}
use getresolvd.Resolver.{join_result}

-- The goroutine of one resolver: in its lookup, at `results <- addrs`, past that send, or past a
-- failed lookup. The last two have called `wg.Done`.
pub data Worker : Type 0 where
  running : Worker
  sending : List Addr → Worker
  delivered : List Addr → Worker
  failed : Error → Worker

-- `LookupNetIP` itself: at its `select`, or returned from one of the three branches.
pub data Main : Type 0 where
  waiting : Main
  answered : List Addr → Main
  closed : List Error → Main
  ended : Error → Main

pub record State : Type 0 where
  pub main : Main
  pub workers : List Worker
  pub errs : List Error

-- The goroutine is past `wg.Done`.
abbrev pub IsDone : Worker → Type 0
IsDone running = ⊥
IsDone (sending a) = ⊥
IsDone (delivered a) = Unit
IsDone (failed e) = Unit

-- What resolver `i` may return, and the error of a context that ends.
module _ (may : ℕ → Result (List Addr) → Type 0) (context_error : Error → Type 0) where
  pub data Step (s : State) : State → Type 0 where
    -- A lookup succeeds, and the goroutine comes to its send.
    finds :
        {t : State} (i : ℕ) (addrs : List Addr)
        → get_elem? s.workers i ≡ some running
        → may i (ok addrs)
        → t ≡ record s { workers = set s.workers i (sending addrs) }
        → Step s t
    -- A lookup fails, and its error is kept.
    fails :
        {t : State} (i : ℕ) (e : Error)
        → get_elem? s.workers i ≡ some running
        → may i (err e)
        → t ≡ record s { workers = set s.workers i (failed e); errs = s.errs ++ e ∷ [] }
        → Step s t
    -- The channel has no buffer: the send and the receive are one step.
    receives :
        {t : State} (i : ℕ) (addrs : List Addr)
        → s.main ≡ waiting
        → get_elem? s.workers i ≡ some (sending addrs)
        → t ≡ record s { main = answered addrs; workers = set s.workers i (delivered addrs) }
        → Step s t
    -- `wg.Wait` is over and the channel is closed.
    closes :
        {t : State}
        → s.main ≡ waiting
        → All IsDone s.workers
        → t ≡ record s { main = closed s.errs }
        → Step s t
    -- `<-ctx.Done()`.
    ends :
        {t : State} (e : Error)
        → s.main ≡ waiting
        → context_error e
        → t ≡ record s { main = ended e }
        → Step s t

  pub data Reach (s : State) : State → Type 0 where
    here : Reach s s
    next : {t u : State} → Reach s t → Step t u → Reach s u

-- Before the `select`, with a goroutine for each resolver.
abbrev pub start {ℓ} : {R : Type ℓ} → List R → State
start rs = record { main = waiting; workers = map (λ _. running) rs; errs = [] }

-- What `LookupNetIP` returns.
abbrev pub returned : Main → Option (Result (List Addr))
returned waiting = none
returned (answered addrs) = some (ok addrs)
returned (closed errs) = some (join_result errs)
returned (ended e) = some (err e)
