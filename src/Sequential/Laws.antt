-- ===== src/Sequential/Laws.antt =====
-- `Sequential` returns what the first resolver that does not fail returns, and all errors, in
-- order, if every one fails.
use mathlib.Core.List.{append_assoc, append-nil}
use getresolvd.Base.{List, [], ◌∷◌, ◌++◌, ◌≡◌, refl, ap, ◌∙◌, ◌⊎◌, inl, inr, Text}
use getresolvd.Netip.{Addr}
use getresolvd.Errors.{Error, Result, ok, err, panic}
use getresolvd.Resolver.{Resolver, join_result, or_else}
use getresolvd.Sequential.{sequential_loop, sequential}

-- A result that ends the loop.
pub data Ends : Result (List Addr) → Type 0 where
  by_ok : (addrs : List Addr) → Ends (ok addrs)
  by_panic : Ends panic

pub not-Ends-err : {x : Error} → ¬ Ends (err x)
not-Ends-err h = elim h [ ]

module _ {W : Type 0} (network host : Text) where
  -- Every resolver of the list fails in turn, with these errors.
  pub data AllFail : List (Resolver W) → W → List Error → W → Type 0 where
    done : {w : W} → AllFail [] w [] w
    fails :
        {r : Resolver W} {rs : List (Resolver W)} {e : Error} {es : List Error} {w w' w'' : W}
        → r network host w ≡ (err e, w')
        → AllFail rs w' es w''
        → AllFail (r ∷ rs) w (e ∷ es) w''

  -- The resolvers before `chosen` fail, and it returns `out`.
  pub record Stops (rs : List (Resolver W)) (w : W) (out : Result (List Addr) × W) : Type 0 where
    pub before : List (Resolver W)
    pub chosen : Resolver W
    pub after : List (Resolver W)
    pub errs : List Error
    pub middle : W
    pub splits : rs ≡ before ++ chosen ∷ after
    pub earlier : AllFail before w errs middle
    pub returns : chosen network host middle ≡ out
    pub ends : Ends out.0

  -- Every resolver fails, and `out` joins their errors.
  pub record Fails (rs : List (Resolver W)) (w : W) (errs : List Error)
      (out : Result (List Addr) × W) : Type 0 where
    pub new : List Error
    pub last : W
    pub all : AllFail rs w new last
    pub joins : out ≡ (join_result (errs ++ new), last)

  found_here :
      (r : Resolver W) (rs : List (Resolver W)) (w : W) (out : Result (List Addr) × W)
      → r network host w ≡ out
      → Ends out.0
      → Stops (r ∷ rs) w out
  found_here r rs w out e k = record {
    before = [];
    chosen = r;
    after = rs;
    errs = [];
    middle = w;
    splits = refl;
    earlier = done;
    returns = e;
    ends = k;
  }

  found_later :
      (r : Resolver W) (rs : List (Resolver W)) (w w' : W) (e : Error)
      (out : Result (List Addr) × W)
      → r network host w ≡ (err e, w')
      → Stops rs w' out
      → Stops (r ∷ rs) w out
  found_later r rs w w' e out f s = record {
    before = r ∷ s.before;
    chosen = s.chosen;
    after = s.after;
    errs = e ∷ s.errs;
    middle = s.middle;
    splits = ap (◌∷◌ r) s.splits;
    earlier = fails f s.earlier;
    returns = s.returns;
    ends = s.ends;
  }

  loop_next :
      (r : Resolver W) (rs : List (Resolver W)) (errs : List Error) (w : W)
      (out : Result (List Addr) × W)
      → r network host w ≡ out
      → ((errs : List Error) (w : W)
          → Stops rs w (sequential_loop rs errs network host w)
            ⊎ Fails rs w errs (sequential_loop rs errs network host w))
      → Stops (r ∷ rs) w (or_else out λ e w'. sequential_loop rs (errs ++ e ∷ []) network host w')
        ⊎ Fails
            (r ∷ rs)
            w
            errs
            (or_else out λ e w'. sequential_loop rs (errs ++ e ∷ []) network host w')
  loop_next r rs errs w (ok a, w') e later = inl (found_here r rs w _ e (by_ok a))
  loop_next r rs errs w (panic, w') e later = inl (found_here r rs w _ e by_panic)
  loop_next r rs errs w (err x, w') e later = elim (later (errs ++ x ∷ []) w') [
    | inl s ↦ inl (found_later r rs w w' x _ e s)
    | inr f ↦ inr (record {
      new = x ∷ f.new;
      last = f.last;
      all = fails e f.all;
      joins = f.joins ∙ rw (append_assoc errs (x ∷ []) f.new);
    })
  ]

  loop_cases :
      (rs : List (Resolver W)) (errs : List Error) (w : W)
      → Stops rs w (sequential_loop rs errs network host w)
        ⊎ Fails rs w errs (sequential_loop rs errs network host w)
  unfolding sequential_loop
  loop_cases [] errs w =
      inr (record { new = []; last = w; all = done; joins = rw (append-nil errs) })
  loop_cases (r ∷ rs) errs w =
      loop_next r rs errs w (r network host w) refl λ errs w. loop_cases rs errs w

  -- For every list of resolvers: either a resolver succeeds (or panics) after all those before it
  -- failed, and its result is returned with no later resolver asked; or all fail, and the errors
  -- are joined in order (an empty list of resolvers is a success with no address).
  pub sequential-first :
      (rs : List (Resolver W)) (w : W)
      → Stops rs w (sequential rs network host w) ⊎ Fails rs w [] (sequential rs network host w)
  unfolding sequential
  sequential-first rs w = loop_cases rs [] w
