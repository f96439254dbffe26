-- ===== src/Dns/Group.antt =====
-- The group of queries in `LookupNetIP` of dns.go: an errgroup with a goroutine for each query type.
-- A step relation gives every interleaving of the goroutines; the lock makes the loop over the
-- records of a reply one step.
pub mod Contents
pub mod Laws
use getresolvd.Base.{
  ℕ, Bool, true, false, List, [], ◌∷◌, ◌++◌, ◌≡◌, Option, none, some, get_elem?, set, All, map,
}
use getresolvd.Netip.{Addr}
use getresolvd.Errors.{Error, Result, ok, err}
use getresolvd.Dns.Query.{Msg}
use getresolvd.Dns.Lookup.{append_answers}

-- The goroutine of one query: in `tryOneName`, or returned.
pub data Query : Type 0 where
  asking : Query
  answered : Msg → Query
  failed : Error → Query

-- The shared list of addresses, the goroutines, and the first error, which the group keeps and which
-- cancels its context.
pub record State : Type 0 where
  pub addrs : List Addr
  pub queries : List Query
  pub failure : Option Error

-- How golang.org/x/sync/errgroup keeps an error beside the one that it may have.
abbrev pub KeepError : Type 0
KeepError = Option Error → Error → Option Error

-- What it documents: `Wait` returns the first error.
pub record KeepsFirst (keep_error : KeepError) : Type 0 where
  pub first : (e : Error) → keep_error none e ≡ some e
  pub later : (e e' : Error) → keep_error (some e) e' ≡ some e

-- What query `i` may return, before the context of the group is cancelled (`false`) and after.
module _ (keep_error : KeepError) (may : ℕ → Bool → Result Msg → Type 0) where
  abbrev pub cancelled : Option Error → Bool
  cancelled none = false
  cancelled (some e) = true

  pub data Step (s : State) : State → Type 0 where
    -- A query succeeds and appends its addresses.
    appends :
        {t : State} (i : ℕ) (m : Msg) (addrs : List Addr)
        → get_elem? s.queries i ≡ some asking
        → may i (cancelled s.failure) (ok m)
        → append_answers s.addrs m.answer ≡ ok addrs
        → t ≡ record s { addrs = addrs; queries = set s.queries i (answered m) }
        → Step s t
    -- A query fails.
    fails :
        {t : State} (i : ℕ) (e : Error)
        → get_elem? s.queries i ≡ some asking
        → may i (cancelled s.failure) (err e)
        → t ≡ record s { queries = set s.queries i (failed e); failure = keep_error s.failure e }
        → Step s t

  pub data Reach (s : State) : State → Type 0 where
    here : Reach s s
    next : {t u : State} → Reach s t → Step t u → Reach s u

-- The group before its first step.
abbrev pub start {ℓ} : {A : Type ℓ} → List A → State
start qs = record { addrs = []; queries = map (λ _. asking) qs; failure = none }

-- `g.Wait` returns when every goroutine has returned.
abbrev pub IsDone : Query → Type 0
IsDone asking = ⊥
IsDone (answered m) = Unit
IsDone (failed e) = Unit

abbrev pub outcome_of : Option Error → List Addr → Result (List Addr)
outcome_of none addrs = ok addrs
outcome_of (some e) addrs = err e

abbrev pub waited : State → Result (List Addr)
waited s = outcome_of s.failure s.addrs
