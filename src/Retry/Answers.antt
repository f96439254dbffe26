-- ===== src/Retry/Answers.antt =====
-- An answer of `Retry` is an answer of its resolver.
use getresolvd.Base.{true, false, ◌⊎◌, inl, inr, ℕ, List, ◌≡◌, Text, Bool, ℤ, to_uint}
use getresolvd.Netip.{Addr}
use getresolvd.Errors.{Error, Result, ok, err, is_temporary}
use getresolvd.Resolver.{Resolver}
use getresolvd.Retry.{RetryLib, retry}
use getresolvd.Resolver.{Gives, NeverFails}

-- retry-go gives the addresses of a call that succeeded, also when the context is done.
abbrev pub RetryReturns : {W : Type 0} → RetryLib W → Type 0
RetryReturns {W} lib =
    (f : W → Result (List Addr) × W) (p : Error → Bool) (n : ℕ) (w w' : W) (addrs : List Addr)
    → lib.do_with_data f p n w ≡ (ok addrs, w')
    → (v : W) × (v' : W) × (f v ≡ (ok addrs, v'))

-- retry-go fails only after a call that failed, or since the context is done.
abbrev pub RetryFails : {W : Type 0} → RetryLib W → Type 0
RetryFails {W} lib =
    (f : W → Result (List Addr) × W) (p : Error → Bool) (n : ℕ) (w w' : W) (e : Error)
    → lib.do_with_data f p n w ≡ (err e, w')
    → ((v : W) × (v' : W) × (x : Error) × (f v ≡ (err x, v'))) ⊎ ((v : W) × (lib.done v ≡ true))

module _ {W : Type 0} where
  pub retry-Gives :
      (lib : RetryLib W)
      → RetryReturns lib
      → (r : Resolver W) (attempts : ℤ) (network host : Text) (w w' : W) (addrs : List Addr)
      → retry lib r attempts network host w ≡ (ok addrs, w')
      → Gives r network host addrs
  unfolding retry
  retry-Gives lib returns r attempts network host w w' addrs e =
      returns (r network host) is_temporary (to_uint attempts) w w' addrs e

  -- While the context is not done, a resolver that never fails is enough.
  pub retry-NeverFails :
      (lib : RetryLib W)
      → RetryFails lib
      → ((w : W) → lib.done w ≡ false)
      → (r : Resolver W) (attempts : ℤ) (network host : Text) → NeverFails r network host
      → NeverFails (retry lib r attempts) network host
  unfolding retry
  retry-NeverFails lib failing active r attempts network host n w w' e q =
      elim (failing (r network host) is_temporary (to_uint attempts) w w' e q) [
        | inl (v, v', x, f) ↦ n v v' x f
        | inr (v, d) ↦ let f = active v in cc
      ]
