-- ===== src/Shuffle.antt =====
-- internal/util/shuffle.go: a Fisher-Yates shuffle by crypto/rand.
pub mod Laws
pub mod Members
use getresolvd.Base.{
  ℕ, zero, suc, ◌+◌, ◌-◌, ◌<◌, ◌≡◌, List, Option, none, some, length, get_elem?, set,
}

-- `rand.Int(rand.Reader, n)` of crypto/rand; `none` is its error.
pub record Rand (W : Type 0) : Type 0 where
  pub int : ℕ → W → Option ℕ × W

-- What crypto/rand documents, for a source of randomness that does not fail.
pub record RandLawful {W : Type 0} (r : Rand W) : Type 0 where
  pub draw : (n : ℕ) (w : W) → 0 < n → (j : ℕ) × ((r.int n w).0 ≡ some j) × (j < n)

module _ {ℓ} {A : Type ℓ} where
  swap_found : List A → ℕ → ℕ → Option A → Option A → Option (List A)
  swap_found s i j (some a) (some b) = some (set (set s i b) j a)
  swap_found s i j _ _ = none

  -- `s[i], s[j] = s[j], s[i]`; `none` is the panic on an index out of range.
  unfoldable pub swap : List A → ℕ → ℕ → Option (List A)
  unfolding swap_found
  swap s i j = swap_found s i j (get_elem? s i) (get_elem? s j)

  -- The body of the loop; `none` is a panic.
  round : {W : Type 0} → ℕ → List A → Option ℕ × W → Option (List A) × W
  round i s (none, w) = (none, w)
  round i s (some j, w) = (swap s i j, w)

  module _ {W : Type 0} (r : Rand W) where
    -- The loop, from index `i` down to 1.
    shuffle_loop : ℕ → Option (List A) × W → Option (List A) × W
    shuffle_loop zero s = s
    shuffle_loop (suc i) (none, w) = (none, w)
    shuffle_loop (suc i) (some s, w) = shuffle_loop i (round (suc i) s (r.int (suc i + 1) w))

    unfoldable pub shuffle : List A → W → Option (List A) × W
    unfolding shuffle_loop round swap
    shuffle s w = shuffle_loop (length s - 1) (some s, w)
