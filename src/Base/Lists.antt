-- ===== src/Base/Lists.antt =====
-- Lists measured and indexed by native numbers, under the library's names, and a predicate that
-- holds of every element.
use Prim.Native.Nat.{ℕ, zero, suc, ◌+◌, ◌-◌, ◌≤◌, ◌<◌, min}
use mathlib.Core.Path.{◌≡◌, refl, ap, sym, subst, ◌∙◌}
use mathlib.Core.Logic.{◌⊎◌, inl, inr}
use mathlib.Core.Bool.{Bool}
use mathlib.Core.List.Perm
use mathlib.Core.Logic.{∥∥₁_elim, ∥∥₁_map}
use mathlib.Core.HLevel.{⊥_prop}
use mathlib.Core.List.{List, [], ◌∷◌, ◌++◌, map, Perm, Permᴰ}
use mathlib.Core.Option.{Option, none, some}
use native.Mathlib.Omega.{arith}
use getresolvd.Base.Tests.{if◌then◌else◌}

module _ {ℓ} {A : Type ℓ} where
  abbrev pub length : List A → ℕ
  length [] = 0
  length (x ∷ xs) = suc (length xs)

  abbrev pub get_elem? : List A → ℕ → Option A
  get_elem? [] i = none
  get_elem? (x ∷ xs) zero = some x
  get_elem? (x ∷ xs) (suc i) = get_elem? xs i

  -- A write out of bounds changes nothing.
  abbrev pub set : List A → ℕ → A → List A
  set [] i v = []
  set (x ∷ xs) zero v = v ∷ xs
  set (x ∷ xs) (suc i) v = x ∷ set xs i v

  abbrev pub take : ℕ → List A → List A
  take zero xs = []
  take (suc n) [] = []
  take (suc n) (x ∷ xs) = x ∷ take n xs

  abbrev pub drop : ℕ → List A → List A
  drop zero xs = xs
  drop (suc n) [] = []
  drop (suc n) (x ∷ xs) = drop n xs

  -- The elements that pass a test, in their order.
  abbrev pub keep : (A → Bool) → List A → List A
  keep p [] = []
  keep p (x ∷ xs) = let rest = keep p xs in if p x then x ∷ rest else rest

  pub length-append : (xs ys : List A) → length (xs ++ ys) ≡ length xs + length ys
  length-append [] ys = omega arith
  length-append (x ∷ xs) ys = omega (arith, length-append xs ys)

  pub length-set : (xs : List A) (i : ℕ) (v : A) → length (set xs i v) ≡ length xs
  length-set [] i v = refl
  length-set (x ∷ xs) zero v = refl
  length-set (x ∷ xs) (suc i) v = ap suc (length-set xs i v)

  pub get_elem?-of_lt : (xs : List A) (i : ℕ) → i < length xs → (a : A) × (get_elem? xs i ≡ some a)
  get_elem?-of_lt [] i h = elim h [ ]
  get_elem?-of_lt (x ∷ xs) zero h = (x, refl)
  get_elem?-of_lt (x ∷ xs) (suc i) h = get_elem?-of_lt xs i (omega arith)

  pub keep-append : (p : A → Bool) (xs ys : List A) → keep p (xs ++ ys) ≡ keep p xs ++ keep p ys
  keep-append p [] ys = refl
  keep-append p (x ∷ xs) ys = ground (arith, keep-append p xs ys)

-- A predicate by recursion computes to tuples, which the tactics read and build.
abbrev pub All {ℓ κ} : {A : Type ℓ} → (A → Type κ) → List A → Type κ
All P [] = Unit
All P (x ∷ xs) = P x × All P xs

pub All-append {ℓ κ} :
    {A : Type ℓ} (P : A → Type κ) (xs ys : List A) → All P xs → All P ys → All P (xs ++ ys)
All-append P [] ys hx hy = hy
All-append P (x ∷ xs) ys hx hy = (hx.0, All-append P xs ys hx.1 hy)

pub All-map {ℓ κ ν} :
    {A : Type ℓ} (P : A → Type κ) (Q : A → Type ν) (f : (a : A) → P a → Q a) (xs : List A)
    → All P xs
    → All Q xs
All-map P Q f [] h = tt
All-map P Q f (x ∷ xs) h = (f x h.0, All-map P Q f xs h.1)

pub All-map₂ {ℓ κ ν μ} :
    {A : Type ℓ} (P : A → Type κ) (Q : A → Type ν) (R : A → Type μ) (f : (a : A) → P a → Q a → R a)
    (xs : List A)
    → All P xs
    → All Q xs
    → All R xs
All-map₂ P Q R f [] h k = tt
All-map₂ P Q R f (x ∷ xs) h k = (f x h.0 k.0, All-map₂ P Q R f xs h.1 k.1)

-- No value, at any level.
pub data Never {ℓ} : Type ℓ where

-- `a` stands in the list.
abbrev pub Member {ℓ} : {A : Type ℓ} → A → List A → Type ℓ
Member a [] = Never
Member a (x ∷ xs) = (a ≡ x) ⊎ Member a xs

pub Member-All {ℓ κ} :
    {A : Type ℓ} (P : A → Type κ) (a : A) (xs : List A) → All P xs → Member a xs → P a
Member-All P a [] h m = elim m [ ]
Member-All P a (x ∷ xs) h (inl e) = subst P (sym e) h.0
Member-All P a (x ∷ xs) h (inr m) = Member-All P a xs h.1 m

pub take-All {ℓ κ} :
    {A : Type ℓ} (P : A → Type κ) (n : ℕ) (xs : List A) → All P xs → All P (take n xs)
take-All P zero xs h = tt
take-All P (suc n) [] h = tt
take-All P (suc n) (x ∷ xs) h = (h.0, take-All P n xs h.1)

pub drop-All {ℓ κ} :
    {A : Type ℓ} (P : A → Type κ) (n : ℕ) (xs : List A) → All P xs → All P (drop n xs)
drop-All P zero xs h = h
drop-All P (suc n) [] h = tt
drop-All P (suc n) (x ∷ xs) h = drop-All P n xs h.1

pub length-take {ℓ} : {A : Type ℓ} (n : ℕ) (xs : List A) → length (take n xs) ≡ min n (length xs)
length-take zero xs = omega arith
length-take (suc n) [] = omega arith
length-take (suc n) (x ∷ xs) = omega (arith, length-take n xs)

pub length-drop {ℓ} : {A : Type ℓ} (n : ℕ) (xs : List A) → length (drop n xs) ≡ length xs - n
length-drop zero xs = omega arith
length-drop (suc n) [] = omega arith
length-drop (suc n) (x ∷ xs) = omega (arith, length-drop n xs)

pub take_all {ℓ} : {A : Type ℓ} (n : ℕ) (xs : List A) → length xs ≤ n → take n xs ≡ xs
take_all zero [] h = refl
take_all zero (x ∷ xs) h = absurd (omega arith)
take_all (suc n) [] h = refl
take_all (suc n) (x ∷ xs) h = ap (◌∷◌ x) (take_all n xs (omega arith))

pub Member-append_left {ℓ} :
    {A : Type ℓ} (a : A) (xs ys : List A) → Member a xs → Member a (xs ++ ys)
Member-append_left a [] ys h = elim h [ ]
Member-append_left a (x ∷ xs) ys (inl e) = inl e
Member-append_left a (x ∷ xs) ys (inr m) = inr (Member-append_left a xs ys m)

pub Member-concat {ℓ} : {A : Type ℓ} (a : A) (xs : List A) → Member a (xs ++ a ∷ [])
Member-concat a [] = inl refl
Member-concat a (x ∷ xs) = inr (Member-concat a xs)

pub All-get_elem? {ℓ κ} :
    {A : Type ℓ} (P : A → Type κ) (xs : List A) (i : ℕ) (a : A)
    → All P xs
    → get_elem? xs i ≡ some a
    → P a
All-get_elem? P [] i a h e = cc
All-get_elem? P (x ∷ xs) zero a h e = let same : x ≡ a = cc in subst P same h.0
All-get_elem? P (x ∷ xs) (suc i) a h e = All-get_elem? P xs i a h.1 e

pub Member-middle {ℓ} : {A : Type ℓ} (a : A) (xs ys : List A) → Member a (xs ++ a ∷ ys)
Member-middle a [] ys = inl refl
Member-middle a (x ∷ xs) ys = inr (Member-middle a xs ys)

pub All-Member {ℓ} :
    {A : Type ℓ} (xs ys : List A)
    → ((a : A) → Member a xs → Member a ys)
    → All (λ a. Member a ys) xs
All-Member [] ys f = tt
All-Member (x ∷ xs) ys f = (f x (inl refl), All-Member xs ys (λ a m. f a (inr m)))

pub Member-trans {ℓ} :
    {A : Type ℓ} (a : A) (xs ys : List A) → All (λ b. Member b ys) xs → Member a xs → Member a ys
Member-trans a [] ys h m = elim m [ ]
Member-trans a (x ∷ xs) ys h (inl e) = subst (λ b. Member b ys) (sym e) h.0
Member-trans a (x ∷ xs) ys h (inr m) = Member-trans a xs ys h.1 m

moved-Member {ℓ} : {A : Type ℓ} {xs ys : List A} → Permᴰ xs ys → (a : A) → Member a xs → Member a ys
moved-Member Permᴰ.nil a m = m
moved-Member (Permᴰ.cons e p) a (inl q) = inl (q ∙ e)
moved-Member (Permᴰ.cons e p) a (inr m) = inr (moved-Member p a m)
moved-Member (Permᴰ.swap e f) a (inl q) = inr (inl (q ∙ e))
moved-Member (Permᴰ.swap e f) a (inr (inl q)) = inl (q ∙ f)
moved-Member (Permᴰ.swap e f) a (inr (inr m)) = inr (inr m)
moved-Member (Permᴰ.trans p q) a m = moved-Member q a (moved-Member p a m)

-- What an element of a list refutes is refuted by a rearrangement that holds it.
pub Perm-Member {ℓ} :
    {A : Type ℓ} {xs ys : List A} (a : A) → Perm xs ys → Member a ys → ¬ Member a xs → ⊥
Perm-Member a p m n = ∥∥₁_elim (Perm.symm p) ⊥_prop (λ d. n (moved-Member d a m))

pub Member-map {ℓ κ} :
    {A : Type ℓ} {B : Type κ} (f : A → B) (a : A) (xs : List A)
    → Member a xs
    → Member (f a) (map f xs)
Member-map f a [] m = elim m [ ]
Member-map f a (x ∷ xs) (inl e) = inl (ap f e)
Member-map f a (x ∷ xs) (inr m) = inr (Member-map f a xs m)

pub Perm-Member_in {ℓ} :
    {A : Type ℓ} {xs ys : List A} (a : A) → Perm xs ys → Member a xs → ∥ Member a ys ∥₁
Perm-Member_in a p m = ∥∥₁_map p (λ d. moved-Member d a m)

-- What holds of the members holds of all.
pub All-members {ℓ κ} :
    {A : Type ℓ} (P : A → Type κ) (xs : List A) → ((a : A) → Member a xs → P a) → All P xs
All-members P [] f = tt
All-members P (x ∷ xs) f = (f x (inl refl), All-members P xs (λ a m. f a (inr m)))
