-- ===== src/Shuffle/Laws.antt =====
-- `Shuffle` never indexes out of range, and returns a rearrangement.
use mathlib.Core.List.Perm
use getresolvd.Base.{
  ℕ, zero, suc, ◌+◌, ◌-◌, ◌<◌, List, [], ◌∷◌, ◌≡◌, refl, ap, ◌∙◌, arith, Option, none, some, length,
  get_elem?, set, length-set, get_elem?-of_lt, Perm,
}
use getresolvd.Shuffle.{Rand, RandLawful, swap, round, shuffle_loop, shuffle}

module _ {ℓ} {A : Type ℓ} where
  -- Writing at an index trades the old element for the new one.
  set-perm :
      (xs : List A) (i : ℕ) (a v : A) → get_elem? xs i ≡ some a → Perm (a ∷ set xs i v) (v ∷ xs)
  set-perm [] i a v h = cc
  set-perm (x ∷ xs) zero a v h = let e : x ≡ a = cc in rw e (Perm.swap v a xs)
  set-perm (x ∷ xs) (suc i) a v h =
      Perm.trans (Perm.swap x a (set xs i v))
        (Perm.trans (Perm.cons x (set-perm xs i a v h)) (Perm.swap v x xs))

  get_elem?-set :
      (xs : List A) (i j : ℕ) (a b : A)
      → get_elem? xs i ≡ some a
      → get_elem? xs j ≡ some b
      → get_elem? (set xs i b) j ≡ some b
  get_elem?-set [] i j a b h k = cc
  get_elem?-set (x ∷ xs) zero zero a b h k = refl
  get_elem?-set (x ∷ xs) zero (suc j) a b h k = k
  get_elem?-set (x ∷ xs) (suc i) zero a b h k = k
  get_elem?-set (x ∷ xs) (suc i) (suc j) a b h k = get_elem?-set xs i j a b h k

  -- Within the list, the swap succeeds and only rearranges.
  swap_lem :
      (s : List A) (i j : ℕ)
      → i < length s
      → j < length s
      → (t : List A) × (swap s i j ≡ some t) × Perm t s × (length t ≡ length s)
  unfolding swap
  swap_lem s i j hi hj =
      let (a, ea) = get_elem?-of_lt s i hi in
      let (b, eb) = get_elem?-of_lt s j hj in
      (
        set (set s i b) j a,
        rw (ea, eb),
        Perm.cons_inv (
            Perm.trans (set-perm (set s i b) j b a (get_elem?-set s i j a b ea eb))
              (set-perm s i a b ea)),
        length-set (set s i b) j a ∙ length-set s i b,
      )

  round-some :
      {W : Type 0} (i : ℕ) (s : List A) (p : Option ℕ × W) (j : ℕ)
      → p.0 ≡ some j
      → round i s p ≡ (swap s i j, p.1)
  unfolding round
  round-some i s (none, w) j e = cc
  round-some i s (some k, w) j e = let e' : k ≡ j = cc in rw e'

  module _ {W : Type 0} (r : Rand W) (lawful : RandLawful r) where
    shuffle_loop-perm :
        (i : ℕ) (s : List A) (w : W)
        → i < suc (length s - 1)
        → (t : List A) × ((shuffle_loop r i (some s, w)).0 ≡ some t) × Perm t s
    unfolding shuffle_loop
    shuffle_loop-perm zero s w h = (s, refl, Perm.refl s)
    shuffle_loop-perm (suc i) s w h =
        let (j, drawn, small) = lawful.draw (suc i + 1) w (omega arith) in
        let (t, swapped, p, same) = swap_lem s (suc i) j (omega arith) (omega arith) in
        let (u, e, q) = shuffle_loop-perm i t (r.int (suc i + 1) w).1 (omega arith) in
        let same_round = round-some (suc i) s (r.int (suc i + 1) w) j drawn ∙ rw swapped in
        (u, ap (λ q. (shuffle_loop r i q).0) same_round ∙ e, Perm.trans q p)

    -- `Shuffle` returns a rearrangement of its list, with no panic, if the source of randomness
    -- does not fail.
    pub shuffle-perm : (s : List A) (w : W) → (t : List A) × ((shuffle r s w).0 ≡ some t) × Perm t s
    unfolding shuffle
    shuffle-perm s w = shuffle_loop-perm (length s - 1) s w (omega arith)
