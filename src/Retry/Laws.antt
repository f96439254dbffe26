-- ===== src/Retry/Laws.antt =====
-- How many attempts `Retry` makes, given what retry-go documents.
use native.Mathlib.Nat.{mod-eq_of_lt}
use getresolvd.Base.{
  ℕ, suc, ◌+◌, ◌-◌, ◌^◌, ◌<◌, true, false, ◌≡◌, refl, sym, ap, subst, ◌∙◌, arith, List, [], ◌∷◌,
  Text, ℤ, pos, to_uint, ◌⊎◌, inl, inr,
}
use getresolvd.Netip.{Addr}
use getresolvd.Errors.{Error, Result, ok, err, panic, is_temporary, to_errors}
use getresolvd.Errors.Laws.{is_temporary-joined}
use getresolvd.Resolver.{Resolver, join_result}
use getresolvd.Sequential.{sequential}
use getresolvd.Sequential.Laws.{sequential-first, Stops, Fails, Ends, not-Ends-err}
use getresolvd.Retry.{RetryLib, RetryLawful, retry}

module _ {W : Type 0} (lib : RetryLib W) (lawful : RetryLawful lib) (r : Resolver W)
    (network host : Text) where
  -- `k` attempts in a row fail with temporary errors, and the context is not done after each wait.
  pub data Failing : ℕ → W → W → Type 0 where
    start : {w : W} → lib.done w ≡ false → Failing 0 w w
    again :
        {k : ℕ} {w w' w'' : W} {e : Error}
        → lib.done w ≡ false
        → r network host w ≡ (err e, w')
        → is_temporary e ≡ true
        → Failing k (lib.wait w') w''
        → Failing (suc k) w w''

  Failing-done : {k : ℕ} {w w' : W} → Failing k w w' → lib.done w ≡ false
  Failing-done (start d) = d
  Failing-done (again d _ _ _) = d

  Failing-last : {k : ℕ} {w w' : W} → Failing k w w' → lib.done w' ≡ false
  Failing-last (start d) = d
  Failing-last (again d _ _ f) = Failing-last f

  skip_failing :
      {k : ℕ} {w w' : W} (n m : ℕ)
      → Failing k w w'
      → m ≡ k + suc n
      → lib.do_with_data (r network host) is_temporary m w
        ≡ lib.do_with_data (r network host) is_temporary (suc n) w'
  skip_failing n m (start d) e = let e' : m ≡ suc n = omega arith in rw e'
  skip_failing n m (again {k} {w} {w'} d x t f) e =
      let e' : m ≡ suc (suc (k + n)) = omega arith in
      rw e' (
        lawful.on_retry (r network host) is_temporary (k + n) w d x t (Failing-done f)
        ∙ skip_failing n (suc (k + n)) f (omega arith))

  -- If retry-go does what it documents, for a number of attempts of 64 bits: after fewer than that many temporary failures in a row,
  -- while the context is not done, the addresses of the next call are returned.
  pub retry-Failing :
      {k : ℕ} {w w' w'' : W} (n : ℕ)
      → n < 2 ^ 64
      → k < n
      → Failing k w w'
      → (a : List Addr) → r network host w' ≡ (ok a, w'')
      → retry lib r (pos n) network host w ≡ (ok a, w'')
  unfolding retry
  retry-Failing {k} {w} {w'} n small below f a x =
      ap (λ k. lib.do_with_data (r network host) is_temporary k w) (mod-eq_of_lt small)
      ∙ (skip_failing (n - suc k) n f (omega arith)
          ∙ lawful.on_ok (r network host) is_temporary (suc (n - suc k)) w' (Failing-last f) x)

  -- If retry-go does what it documents, for a number of attempts of 64 bits: after one temporary
  -- failure fewer than that in a row, while the context is not done, the error of the next call is
  -- returned, temporary or not.
  pub retry-exhausted :
      {k : ℕ} {w w' w'' : W}
      → suc k < 2 ^ 64
      → Failing k w w'
      → (e : Error) → r network host w' ≡ (err e, w'')
      → retry lib r (pos (suc k)) network host w ≡ (err e, w'')
  unfolding retry
  retry-exhausted {k} {w} {w'} small f e x =
      ap (λ k. lib.do_with_data (r network host) is_temporary k w) (mod-eq_of_lt small)
      ∙ (skip_failing 0 (suc k) f (omega arith)
          ∙ lawful.on_last (r network host) is_temporary w' (Failing-last f) x)

join_result-err : (es : List Error) (x : Error) → err x ≡ join_result es → is_temporary x ≡ false
join_result-err [] x e = cc
join_result-err (y ∷ es) x e = cc (is_temporary-joined (to_errors (y ∷ es)))

-- Whatever error the resolver returns, it is not temporary.
abbrev pub NeverTemporary : {W : Type 0} → Resolver W → Type 0
NeverTemporary {W} r =
    (network host : Text) (w w' : W) (x : Error)
    → r network host w ≡ (err x, w')
    → is_temporary x ≡ false

pub sequential-NeverTemporary :
    {W : Type 0} (rs : List (Resolver W)) → NeverTemporary (sequential rs)
sequential-NeverTemporary {W} rs network host w w' x e =
    refused (sequential rs network host w) e (sequential-first network host rs w)
  where
    refused :
        (out : Result (List Addr) × W)
        → out ≡ (err x, w')
        → Stops network host rs w out ⊎ Fails network host rs w [] out
        → is_temporary x ≡ false
    refused out q (inl s) =
        absurd (not-Ends-err (subst (λ (o : Result (List Addr) × W). Ends o.0) q s.ends))
    refused out q (inr f) =
        join_result-err f.new x (ap (λ (p : Result (List Addr) × W). p.0) (sym q ∙ f.joins))

-- A resolver whose errors are never temporary is asked once.
pub retry_once :
    {W : Type 0} (lib : RetryLib W)
    → RetryLawful lib
    → (r : Resolver W) → NeverTemporary r
    → (attempts : ℤ) (network host : Text) (w : W) → lib.done w ≡ false
    → retry lib r attempts network host w ≡ r network host w
unfolding retry
retry_once {W} lib lawful r never attempts network host w d = once (r network host w) refl
  where
    once :
        (out : Result (List Addr) × W)
        → r network host w ≡ out
        → lib.do_with_data (r network host) is_temporary (to_uint attempts) w ≡ out
    once (ok a, w') e = lawful.on_ok (r network host) is_temporary _ w d e
    once (panic, w') e = lawful.on_panic (r network host) is_temporary _ w d e
    once (err x, w') e =
        lawful.on_refused (r network host) is_temporary _ w d e (never network host w w' x e)
