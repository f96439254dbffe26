-- ===== src/Retry.antt =====
-- retry.go: a resolver that is asked again after temporary errors.
pub mod Sample
pub mod Laws
pub mod Answers
use getresolvd.Base.{ℕ, suc, Bool, true, false, ◌≡◌, List, Option, none, some, ℤ, pos, to_uint}
use getresolvd.Netip.{Addr}
use getresolvd.Errors.{Error, Result, ok, err, panic, is_temporary}
use getresolvd.Resolver.{Resolver}

-- `retry.DoWithData` of github.com/avast/retry-go/v4 with the options `Context`, `Attempts`,
-- `RetryIf` and `LastErrorOnly(true)`: the call to retry, the test of `RetryIf` and the attempts.
-- `done` says that the context is done, and `wait` is the delay between two attempts.
pub record RetryLib (W : Type 0) : Type 0 where
  pub do_with_data : (W → Result (List Addr) × W) → (Error → Bool) → ℕ → W → Result (List Addr) × W
  pub done : W → Bool
  pub wait : W → W

-- What that package documents, while the context is not done. Zero attempts mean no limit.
pub record RetryLawful {W : Type 0} (lib : RetryLib W) : Type 0 where
  pub on_ok :
      (f : W → Result (List Addr) × W) (p : Error → Bool) (n : ℕ) (w : W) {a : List Addr} {w' : W}
      → lib.done w ≡ false
      → f w ≡ (ok a, w')
      → lib.do_with_data f p n w ≡ (ok a, w')
  pub on_refused :
      (f : W → Result (List Addr) × W) (p : Error → Bool) (n : ℕ) (w : W) {e : Error} {w' : W}
      → lib.done w ≡ false
      → f w ≡ (err e, w')
      → p e ≡ false
      → lib.do_with_data f p n w ≡ (err e, w')
  pub on_last :
      (f : W → Result (List Addr) × W) (p : Error → Bool) (w : W) {e : Error} {w' : W}
      → lib.done w ≡ false
      → f w ≡ (err e, w')
      → lib.do_with_data f p 1 w ≡ (err e, w')
  pub on_retry :
      (f : W → Result (List Addr) × W) (p : Error → Bool) (n : ℕ) (w : W) {e : Error} {w' : W}
      → lib.done w ≡ false
      → f w ≡ (err e, w')
      → p e ≡ true
      → lib.done (lib.wait w') ≡ false
      → lib.do_with_data f p (suc (suc n)) w ≡ lib.do_with_data f p (suc n) (lib.wait w')
  -- A panic of the call is not caught.
  pub on_panic :
      (f : W → Result (List Addr) × W) (p : Error → Bool) (n : ℕ) (w : W) {w' : W}
      → lib.done w ≡ false
      → f w ≡ (panic, w')
      → lib.do_with_data f p n w ≡ (panic, w')

-- `*conf.Attempts`, where a nil pointer takes the default of `WithDefaults`.
abbrev pub retry_attempts : Option ℤ → ℤ
retry_attempts (some n) = n
retry_attempts none = pos 2

-- `Retry(resolver, conf).LookupNetIP`, for the number of attempts in the resolver.
unfoldable pub retry : {W : Type 0} → RetryLib W → Resolver W → ℤ → Resolver W
retry lib r attempts network host w =
    lib.do_with_data (r network host) is_temporary (to_uint attempts) w
