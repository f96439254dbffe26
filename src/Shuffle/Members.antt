-- ===== src/Shuffle/Members.antt =====
-- Whatever the source of randomness does, `Shuffle` only moves elements.
use getresolvd.Base.{
  ℕ, zero, suc, ◌+◌, ◌-◌, List, [], ◌∷◌, ◌≡◌, refl, ◌∙◌, subst, Option, none, some, length,
  get_elem?, set, length-set, All, All-get_elem?,
}
use getresolvd.Shuffle.{Rand, swap_found, swap, round, shuffle_loop, shuffle}

module _ {ℓ κ} {A : Type ℓ} (P : A → Type κ) where
  All-set : (xs : List A) (i : ℕ) (v : A) → All P xs → P v → All P (set xs i v)
  All-set [] i v h p = tt
  All-set (x ∷ xs) zero v h p = (p, h.1)
  All-set (x ∷ xs) (suc i) v h p = (h.0, All-set xs i v h.1 p)

  -- As many elements, which all satisfy `P`, unless there was a panic.
  abbrev pub Moved : ℕ → Option (List A) → Type κ
  Moved n none = Unit
  Moved n (some t) = All P t × (length t ≡ n)

  swap-Moved : (s : List A) (i j : ℕ) → All P s → Moved (length s) (swap s i j)
  unfolding swap swap_found
  swap-Moved s i j h = by_elements (get_elem? s i) (get_elem? s j) refl refl
    where
      by_elements :
          (a b : Option A)
          → get_elem? s i ≡ a
          → get_elem? s j ≡ b
          → Moved (length s) (swap_found s i j a b)
      by_elements (some a) (some b) e f = (
        All-set (set s i b) j a (All-set s i b h (All-get_elem? P s j b h f))
            (All-get_elem? P s i a h e),
        length-set (set s i b) j a ∙ length-set s i b,
      )
      by_elements (some a) none e f = tt
      by_elements none b e f = tt

  module _ {W : Type 0} (r : Rand W) where
    shuffle_loop-Moved :
        (i n : ℕ) (p : Option (List A) × W) → Moved n p.0 → Moved n (shuffle_loop r i p).0
    unfolding shuffle_loop
    shuffle_loop-Moved zero n p h = h
    shuffle_loop-Moved (suc i) n (none, w) h = tt
    shuffle_loop-Moved (suc i) n (some s, w) h =
        shuffle_loop-Moved i n (round (suc i) s (r.int (suc i + 1) w))
          (by_draw (r.int (suc i + 1) w))
      where
        by_draw : (p : Option ℕ × W) → Moved n (round (suc i) s p).0
        by_draw (none, v) = unfold round in tt
        by_draw (some j, v) =
            unfold round in subst (λ m. Moved m (swap s (suc i) j)) h.1 (swap-Moved s (suc i) j h.0)

    pub shuffle-Moved : (s : List A) (w : W) → All P s → Moved (length s) (shuffle r s w).0
    unfolding shuffle
    shuffle-Moved s w h = shuffle_loop-Moved (length s - 1) (length s) (some s, w) (h, refl)
