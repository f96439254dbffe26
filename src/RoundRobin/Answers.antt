-- ===== src/RoundRobin/Answers.antt =====
-- An answer of `RoundRobin` is an answer of one of its resolvers.
use getresolvd.Base.{
  List, [], ◌∷◌, ◌≡◌, refl, sym, ap, ◌∙◌, arith, Option, none, some, Text, Member, length, inl, inr,
}
use getresolvd.Netip.{Addr}
use getresolvd.Errors.{ok}
use getresolvd.Resolver.{Resolver}
use getresolvd.RoundRobin.Laws.{round_robin-sequential}
use getresolvd.Shuffle.{RandLawful, Rand, shuffle}
use getresolvd.Shuffle.Members.{Moved, shuffle-Moved}
use getresolvd.Resolver.{OneGives, NeverFails}
use getresolvd.Base.{All-Member, Member-trans, Perm-Member}
use getresolvd.Sequential.Answers.{sequential-OneGives, sequential-NeverFails}
use getresolvd.RoundRobin.{in_order, round_robin}

length-zero {ℓ} : {A : Type ℓ} (xs : List A) → length xs ≡ 0 → xs ≡ []
length-zero [] h = refl
length-zero (x ∷ xs) h = absurd (omega arith)

module _ {W : Type 0} where
  pub round_robin-OneGives :
      (rand : Rand W) (rs : List (Resolver W)) (network host : Text) (w w' : W) (addrs : List Addr)
      → round_robin rand rs network host w ≡ (ok addrs, w')
      → OneGives rs network host addrs
  unfolding round_robin
  round_robin-OneGives rand rs network host w w' addrs e =
      rotated (shuffle rand rs w)
        (shuffle-Moved (λ r. Member r rs) rand rs w (All-Member rs rs (λ r m. m))) e
    where
      rotated :
          (p : Option (List (Resolver W)) × W)
          → Moved (λ r. Member r rs) (length rs) p.0
          → in_order rand p.0 network host p.1 ≡ (ok addrs, w')
          → OneGives rs network host addrs
      rotated (none, v) h q = unfold in_order in cc
      rotated (some order, v) h q =
          elim (sequential-OneGives order network host v w' addrs (unfold in_order in q)) [
            | inl (r, m, g) ↦ inl (r, Member-trans r order rs h.0 m, g)
            | inr (empty, no_addr) ↦ inr (length-zero rs (sym h.1 ∙ ap length empty), no_addr)
          ]

  -- With a source of randomness that does not fail, one resolver that never fails is enough.
  pub round_robin-NeverFails :
      (rand : Rand W)
      → RandLawful rand
      → (rs : List (Resolver W)) (r : Resolver W) (network host : Text) → Member r rs
      → NeverFails r network host
      → NeverFails (round_robin rand rs) network host
  round_robin-NeverFails rand lawful rs r network host m n w w' e q =
      let (order, v, p, same) = round_robin-sequential rand lawful rs network host w in
      Perm-Member r p m
        (λ at. sequential-NeverFails order r network host at n v w' e (sym same ∙ q))
