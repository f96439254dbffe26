-- ===== src/Base/Indexed.antt =====
-- Predicates that hold at every index of a list, and the list after a write.
use Prim.Native.Nat.{ℕ, zero, suc}
use mathlib.Core.Path.{◌≡◌, refl, subst}
use mathlib.Core.Logic.{◌≢◌}
use mathlib.Core.List.{List, [], ◌∷◌, map}
use mathlib.Core.Option.{some}
use getresolvd.Base.Lists.{get_elem?, set}

module _ {ℓ κ} {A : Type ℓ} where
  abbrev pub Everywhere : (ℕ → A → Type κ) → List A → Type (ℓ ⊔ κ)
  Everywhere P xs = (i : ℕ) (v : A) → get_elem? xs i ≡ some v → P i v

  pub Everywhere-set :
      (P : ℕ → A → Type κ) (xs : List A) (i : ℕ) (v : A)
      → Everywhere P xs
      → P i v
      → Everywhere P (set xs i v)
  Everywhere-set P [] i v h p j u e = cc
  Everywhere-set P (x ∷ xs) zero v h p zero u e = let same : v ≡ u = cc in subst (P zero) same p
  Everywhere-set P (x ∷ xs) zero v h p (suc j) u e = h (suc j) u e
  Everywhere-set P (x ∷ xs) (suc i) v h p zero u e = h zero u e
  Everywhere-set P (x ∷ xs) (suc i) v h p (suc j) u e =
      Everywhere-set (λ k. P (suc k)) xs i v (λ k. h (suc k)) p j u e

  pub Everywhere-map :
      (P Q : ℕ → A → Type κ) (xs : List A)
      → ((i : ℕ) (v : A) → P i v → Q i v)
      → Everywhere P xs
      → Everywhere Q xs
  Everywhere-map P Q xs f h i v e = f i v (h i v e)

module _ {ℓ} {A : Type ℓ} where
  pub get_elem?-set_self :
      (xs : List A) (i : ℕ) (u v : A) → get_elem? xs i ≡ some u → get_elem? (set xs i v) i ≡ some v
  get_elem?-set_self [] i u v e = cc
  get_elem?-set_self (x ∷ xs) zero u v e = refl
  get_elem?-set_self (x ∷ xs) (suc i) u v e = get_elem?-set_self xs i u v e

  pub get_elem?-set_other :
      (xs : List A) (i j : ℕ) (u v w : A)
      → get_elem? xs i ≡ some u
      → get_elem? xs j ≡ some v
      → u ≢ v
      → get_elem? (set xs j w) i ≡ some u
  get_elem?-set_other [] i j u v w h k n = cc
  get_elem?-set_other (x ∷ xs) zero zero u v w h k n = absurd (n (cc))
  get_elem?-set_other (x ∷ xs) zero (suc j) u v w h k n = h
  get_elem?-set_other (x ∷ xs) (suc i) zero u v w h k n = h
  get_elem?-set_other (x ∷ xs) (suc i) (suc j) u v w h k n = get_elem?-set_other xs i j u v w h k n

  -- A list of equal elements.
  pub get_elem?-map_const {κ} :
      {B : Type κ} (b : B) (xs : List A) (i : ℕ) (v : B)
      → get_elem? (map (λ _. b) xs) i ≡ some v
      → v ≡ b
  get_elem?-map_const b [] i v e = cc
  get_elem?-map_const b (x ∷ xs) zero v e = cc
  get_elem?-map_const b (x ∷ xs) (suc i) v e = get_elem?-map_const b xs i v e
