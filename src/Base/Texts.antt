-- ===== src/Base/Texts.antt =====
-- Texts: Go strings as lists of code points, with what the code uses of package strings.
pub mod Words
pub mod Trim
use Prim.Native.Char.{code}
use Prim.Native.Nat.{ℕ, ◌+◌}
use Prim.Native.String.{String}
use mathlib.Core.Path.{◌≡◌, refl}
use mathlib.Core.Logic.{◌↔◌}
use mathlib.Core.Bool.{Bool, true, false, ◌&&◌, ◌||◌}
use mathlib.Core.List.{List, [], ◌∷◌, ◌++◌, reverse}
use native.Mathlib.Omega.{arith}
use getresolvd.Base.Tests.{◌==◌, leb, if◌then◌else◌}

abbrev pub Text : Type 0
Text = List ℕ

abbrev pub codes : String → Text
codes String.[] = []
codes (String.◌∷◌ c s) = code c ∷ codes s

-- `==` on strings.
abbrev pub text_eq : Text → Text → Bool
text_eq [] [] = true
text_eq (x ∷ xs) (y ∷ ys) = x == y && text_eq xs ys
text_eq _ _ = false

pub text_eq_iff : (s t : Text) → (text_eq s t ≡ true) ↔ (s ≡ t)
text_eq_iff (x ∷ s) (y ∷ t) = ground (arith, text_eq_iff s t)
text_eq_iff _ _ = ground arith

pub text_eq_refl : (s : Text) → text_eq s s ≡ true
text_eq_refl s = (text_eq_iff s s).1 refl

-- `strings.HasPrefix(s, prefix)`, prefix first.
abbrev pub has_prefix : Text → Text → Bool
has_prefix [] s = true
has_prefix (p ∷ ps) [] = false
has_prefix (p ∷ ps) (c ∷ cs) = p == c && has_prefix ps cs

-- `strings.HasSuffix(s, ".")`.
abbrev pub ends_with_dot : Text → Bool
ends_with_dot [] = false
ends_with_dot (c ∷ []) = c == b'.'
ends_with_dot (c ∷ d ∷ s) = ends_with_dot (d ∷ s)

-- `strings.Count(s, ".")`.
abbrev pub count_dots : Text → ℕ
count_dots [] = 0
count_dots (c ∷ s) = (if c == b'.' then 1 else 0) + count_dots s

-- `unicode.IsSpace`.
abbrev pub is_space : ℕ → Bool
is_space c =
    (leb 9 c && leb c 13)
    || c == 32
    || c == 0x85
    || c == 0xa0
    || c == 0x1680
    || (leb 0x2000 c && leb c 0x200a)
    || c == 0x2028
    || c == 0x2029
    || c == 0x202f
    || c == 0x205f
    || c == 0x3000

-- At a space the word in progress is done, unless it is empty.
end_word : List Text → Text → List Text
end_word done [] = done
end_word done (w ∷ word) = reverse (w ∷ word) ∷ done

-- The words read so far, and the word in progress, both in reverse.
fields_onto : List Text → Text → Text → List Text
fields_onto done word [] = reverse (end_word done word)
fields_onto done word (c ∷ s) =
    fields_onto (if is_space c then end_word done word else done)
      (if is_space c then [] else c ∷ word) s

-- `strings.Fields`.
unfoldable pub fields : Text → List Text
unfolding fields_onto end_word
fields s = fields_onto [] [] s

abbrev drop_spaces : Text → Text
drop_spaces [] = []
drop_spaces (c ∷ s) = let rest = drop_spaces s in if is_space c then rest else c ∷ s

-- `strings.TrimSpace`.
unfoldable pub trim_space : Text → Text
trim_space s = reverse (drop_spaces (reverse (drop_spaces s)))

-- `strings.Join(parts, sep)`, parts first.
abbrev pub join_text : List Text → Text → Text
join_text [] sep = []
join_text (p ∷ []) sep = p
join_text (p ∷ q ∷ ps) sep = p ++ (sep ++ join_text (q ∷ ps) sep)
