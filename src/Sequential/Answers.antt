-- ===== src/Sequential/Answers.antt =====
-- An answer of `Sequential` is an answer of one of its resolvers.
use getresolvd.Base.{List, [], ◌∷◌, ◌≡◌, refl, sym, ap, subst, ◌∙◌, Text, Member, inl, inr, ◌⊎◌}
use getresolvd.Netip.{Addr}
use getresolvd.Errors.{Error, Result, ok, err}
use getresolvd.Resolver.{Resolver, join_result}
use getresolvd.Sequential.{sequential}
use getresolvd.Sequential.Laws.{
  AllFail, done, fails, Stops, Fails, Ends, not-Ends-err, sequential-first,
}
use getresolvd.Resolver.{OneGives, NeverFails}
use getresolvd.Base.{Member-middle}

joined-nil :
    (es : List Error) (addrs : List Addr) → ok addrs ≡ join_result es → (es ≡ []) × (addrs ≡ [])
joined-nil [] addrs e = (refl, cc)
joined-nil (x ∷ es) addrs e = cc

module _ {W : Type 0} where
  AllFail-nil :
      (network host : Text) {rs : List (Resolver W)} {w w' : W} {es : List Error}
      → AllFail network host rs w es w'
      → es ≡ []
      → rs ≡ []
  AllFail-nil network host done e = refl
  AllFail-nil network host (fails f h) e = cc

  pub sequential-OneGives :
      (rs : List (Resolver W)) (network host : Text) (w w' : W) (addrs : List Addr)
      → sequential rs network host w ≡ (ok addrs, w')
      → OneGives rs network host addrs
  sequential-OneGives rs network host w w' addrs e =
      by_cases (sequential rs network host w) e (sequential-first network host rs w)
    where
      by_cases :
          (out : Result (List Addr) × W)
          → out ≡ (ok addrs, w')
          → Stops network host rs w out ⊎ Fails network host rs w [] out
          → OneGives rs network host addrs
      by_cases out q (inl s) = inl (
        s.chosen,
        subst (Member s.chosen) (sym s.splits) (Member-middle s.chosen s.before s.after),
        (s.middle, w', s.returns ∙ q),
      )
      by_cases out q (inr f) =
          let (no_error, no_addr) =
            joined-nil f.new addrs (ap (λ (p : Result (List Addr) × W). p.0) (sym q ∙ f.joins)) in
          inr (AllFail-nil network host f.all no_error, no_addr)

  AllFail-NeverFails :
      (r : Resolver W) (network host : Text) {rs : List (Resolver W)} {w w' : W} {es : List Error}
      → AllFail network host rs w es w'
      → Member r rs
      → NeverFails r network host
      → ⊥
  AllFail-NeverFails r network host done m n = elim m [ ]
  AllFail-NeverFails r network host (fails {r = s} {e = e} {w = w} {w' = v} f h) (inl q) n =
      n w v e (ap (λ (t : Resolver W). t network host w) q ∙ f)
  AllFail-NeverFails r network host (fails f h) (inr m) n = AllFail-NeverFails r network host h m n

  -- One resolver that never fails is enough.
  pub sequential-NeverFails :
      (rs : List (Resolver W)) (r : Resolver W) (network host : Text)
      → Member r rs
      → NeverFails r network host
      → NeverFails (sequential rs) network host
  sequential-NeverFails rs r network host m n w w' e q =
      by_cases (sequential rs network host w) q (sequential-first network host rs w)
    where
      by_cases :
          (out : Result (List Addr) × W)
          → out ≡ (err e, w')
          → Stops network host rs w out ⊎ Fails network host rs w [] out
          → ⊥
      by_cases out q (inl s) =
          not-Ends-err (subst (λ (o : Result (List Addr) × W). Ends o.0) q s.ends)
      by_cases out q (inr f) = AllFail-NeverFails r network host f.all m n
