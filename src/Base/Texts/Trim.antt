-- ===== src/Base/Texts/Trim.antt =====
-- `strings.TrimSpace` leaves a line of words alone.
use Prim.Native.Nat.{ℕ}
use mathlib.Core.Path.{◌≡◌, refl, sym}
use mathlib.Core.Bool.{true, false, not}
use mathlib.Core.List.{List, [], ◌∷◌, ◌++◌, reverse, reverse-append, reverse-cons, reverse-reverse}
use native.Mathlib.Omega.{arith}
use getresolvd.Base.Tests.{&&_split}
use getresolvd.Base.Lists.{All}
use getresolvd.Base.Texts.{Text, is_space, drop_spaces, trim_space, join_text, codes}
use getresolvd.Base.Texts.Words.{no_space, IsWord, no_space-append}

-- The text starts with a character that is no space.
StartsPlain : Text → Type 0
StartsPlain s = (c : ℕ) × (t : Text) × (s ≡ c ∷ t) × (is_space c ≡ false)

drop_spaces-plain : (s : Text) → StartsPlain s → drop_spaces s ≡ s
unfolding StartsPlain
drop_spaces-plain s (c, t, e, h) = rw (e, h)

StartsPlain-append : (s t : Text) → StartsPlain s → StartsPlain (s ++ t)
unfolding StartsPlain
StartsPlain-append s t (c, u, e, h) = (c, u ++ t, rw e, h)

no_space-reverse : (s : Text) → no_space s ≡ true → no_space (reverse s) ≡ true
no_space-reverse [] h = refl
no_space-reverse (c ∷ s) h =
    let (first, rest) = &&_split (not (is_space c)) (no_space s) h in
    rw (reverse-cons c s)
      (no_space-append (reverse s) (c ∷ []) (no_space-reverse s rest) (rw first))

no_space-StartsPlain : (s w : Text) → no_space s ≡ true → IsWord w → reverse s ≡ w → StartsPlain s
unfolding StartsPlain
no_space-StartsPlain [] w h word e = absurd (word.0 (sym e))
no_space-StartsPlain (c ∷ s) w h word e =
    let (first, rest) = &&_split (not (is_space c)) (no_space s) h in (c, s, refl, ground arith)

word-StartsPlain : (w : Text) → IsWord w → StartsPlain w
unfolding StartsPlain
word-StartsPlain [] h = absurd (h.0 refl)
word-StartsPlain (c ∷ w) h =
    let (first, rest) = &&_split (not (is_space c)) (no_space w) h.1 in (c, w, refl, ground arith)

reverse-StartsPlain : (w : Text) → IsWord w → StartsPlain (reverse w)
reverse-StartsPlain w h =
    no_space-StartsPlain (reverse w) w (no_space-reverse w h.1) h (reverse-reverse w)

join_text-StartsPlain :
    (w : Text) (ws : List Text) → All IsWord (w ∷ ws) → StartsPlain (join_text (w ∷ ws) (codes " "))
join_text-StartsPlain w [] h = word-StartsPlain w h.0
join_text-StartsPlain w (v ∷ ws) h = StartsPlain-append w _ (word-StartsPlain w h.0)

reverse-join_text-StartsPlain :
    (w : Text) (ws : List Text)
    → All IsWord (w ∷ ws)
    → StartsPlain (reverse (join_text (w ∷ ws) (codes " ")))
reverse-join_text-StartsPlain w [] h = reverse-StartsPlain w h.0
reverse-join_text-StartsPlain w (v ∷ ws) h =
    let rest = join_text (v ∷ ws) (codes " ") in
    rw (reverse-append w (codes " " ++ rest), reverse-append (codes " ") rest)
      (StartsPlain-append (reverse rest ++ reverse (codes " ")) (reverse w) (
        StartsPlain-append (reverse rest) (reverse (codes " "))
          (reverse-join_text-StartsPlain v ws h.1)))

-- Words joined by spaces have no space to trim.
pub trim_space-join_text :
    (w : Text) (ws : List Text)
    → All IsWord (w ∷ ws)
    → trim_space (join_text (w ∷ ws) (codes " ")) ≡ join_text (w ∷ ws) (codes " ")
unfolding trim_space
trim_space-join_text w ws h =
    rw
      (
        drop_spaces-plain _ (join_text-StartsPlain w ws h),
        drop_spaces-plain _ (reverse-join_text-StartsPlain w ws h),
      )
      (reverse-reverse (join_text (w ∷ ws) (codes " ")))
