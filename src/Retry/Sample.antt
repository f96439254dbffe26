-- ===== src/Retry/Sample.antt =====
-- A retry-go that never waits and whose context is never done, as retry.go expects it.
use getresolvd.Base.{
  Bool-cases, inl, inr, refl, ℕ, zero, suc, Bool, false, List, ◌≡◌, ◌∙◌, if◌then◌else◌,
}
use getresolvd.Netip.{Addr}
use getresolvd.Errors.{Error, Result, ok, err, panic}
use getresolvd.Retry.{RetryLib, RetryLawful}
use getresolvd.Retry.Answers.{RetryReturns, RetryFails}

abbrev Call : Type 0
Call = ℕ → Result (List Addr) × ℕ

-- What follows a call, when `again` is the next one.
abbrev next_attempt : (Error → Bool) → Result (List Addr) × ℕ → Call → Result (List Addr) × ℕ
next_attempt p (ok a, w) again = (ok a, w)
next_attempt p (panic, w) again = (panic, w)
next_attempt p (err e, w) again = let rest = again w in if p e then rest else (err e, w)

abbrev attempts_loop : Call → (Error → Bool) → ℕ → Call
attempts_loop f p zero w = f w
attempts_loop f p (suc zero) w = f w
attempts_loop f p (suc (suc n)) w = next_attempt p (f w) (attempts_loop f p (suc n))

abbrev pub sample_retry : RetryLib ℕ
sample_retry = record { do_with_data = attempts_loop; done = λ _. false; wait = λ w. w }

on_ok_lem :
    (f : Call) (p : Error → Bool) (n w : ℕ) {a : List Addr} {w' : ℕ}
    → f w ≡ (ok a, w')
    → attempts_loop f p n w ≡ (ok a, w')
on_ok_lem f p zero w e = e
on_ok_lem f p (suc zero) w e = e
on_ok_lem f p (suc (suc n)) w e = rw e

on_panic_lem :
    (f : Call) (p : Error → Bool) (n w : ℕ) {w' : ℕ}
    → f w ≡ (panic, w')
    → attempts_loop f p n w ≡ (panic, w')
on_panic_lem f p zero w e = e
on_panic_lem f p (suc zero) w e = e
on_panic_lem f p (suc (suc n)) w e = rw e

on_refused_lem :
    (f : Call) (p : Error → Bool) (n w : ℕ) {x : Error} {w' : ℕ}
    → f w ≡ (err x, w')
    → p x ≡ false
    → attempts_loop f p n w ≡ (err x, w')
on_refused_lem f p zero w e h = e
on_refused_lem f p (suc zero) w e h = e
on_refused_lem f p (suc (suc n)) w e h = rw (e, h)

pub sample_retry_lawful : RetryLawful sample_retry
sample_retry_lawful = record {
  on_ok = λ f p n w _ e. on_ok_lem f p n w e;
  on_refused = λ f p n w _ e h. on_refused_lem f p n w e h;
  on_last = λ f p w _ e. e;
  on_retry = λ f p n w _ e h _. rw (e, h);
  on_panic = λ f p n w _ e. on_panic_lem f p n w e;
}

returns_lem :
    (f : Call) (p : Error → Bool) (n w w' : ℕ) (addrs : List Addr)
    → attempts_loop f p n w ≡ (ok addrs, w')
    → (v : ℕ) × (v' : ℕ) × (f v ≡ (ok addrs, v'))
returns_lem f p zero w w' addrs e = (w, w', e)
returns_lem f p (suc zero) w w' addrs e = (w, w', e)
returns_lem f p (suc (suc n)) w w' addrs e =
    called (λ v q. returns_lem f p (suc n) v w' addrs q) (f w) refl e
  where
    called :
        ((v : ℕ)
          → attempts_loop f p (suc n) v ≡ (ok addrs, w')
          → (u : ℕ) × (u' : ℕ) × (f u ≡ (ok addrs, u')))
        → (out : Result (List Addr) × ℕ) → f w ≡ out
        → next_attempt p out (attempts_loop f p (suc n)) ≡ (ok addrs, w')
        → (u : ℕ) × (u' : ℕ) × (f u ≡ (ok addrs, u'))
    called later (ok a, v) q r = (w, w', q ∙ r)
    called later (panic, v) q r = cc
    called later (err x, v) q r = elim (Bool-cases (p x)) [
      | inl again ↦ later v (rw again at r)
      | inr stop ↦ cc (rw stop at r)
    ]

pub sample_retry_returns : RetryReturns sample_retry
sample_retry_returns = returns_lem

fails_lem :
    (f : Call) (p : Error → Bool) (n w w' : ℕ) (e : Error)
    → attempts_loop f p n w ≡ (err e, w')
    → (v : ℕ) × (v' : ℕ) × (x : Error) × (f v ≡ (err x, v'))
fails_lem f p zero w w' e q = (w, w', e, q)
fails_lem f p (suc zero) w w' e q = (w, w', e, q)
fails_lem f p (suc (suc n)) w w' e q = called (f w) refl q
  where
    called :
        (out : Result (List Addr) × ℕ)
        → f w ≡ out
        → next_attempt p out (attempts_loop f p (suc n)) ≡ (err e, w')
        → (v : ℕ) × (v' : ℕ) × (x : Error) × (f v ≡ (err x, v'))
    called (ok a, v) r t = cc
    called (panic, v) r t = cc
    called (err x, v) r t = (w, v, x, r)

pub sample_retry_fails : RetryFails sample_retry
sample_retry_fails = λ f p n w w' e q. inl (fails_lem f p n w w' e q)
