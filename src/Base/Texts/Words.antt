-- ===== src/Base/Texts/Words.antt =====
-- `strings.Fields` undoes `strings.Join` with a space, for words without spaces.
use mathlib.Core.Path.{◌≡◌, refl, sym, ap, ◌∙◌}
use mathlib.Core.Logic.{◌≢◌}
use mathlib.Core.Bool.{Bool, true, false, not, ◌&&◌}
use mathlib.Core.List.{
  List, [], ◌∷◌, ◌++◌, reverse, append-nil, append_assoc, reverse-cons, reverse-reverse,
}
use native.Mathlib.Omega.{arith}
use getresolvd.Base.Tests.{&&_split}
use getresolvd.Base.Lists.{All}
use getresolvd.Base.Texts.{Text, is_space, fields, fields_onto, end_word, join_text, codes}

abbrev pub no_space : Text → Bool
no_space [] = true
no_space (c ∷ s) = not (is_space c) && no_space s

-- A text that `strings.Fields` may give.
abbrev pub IsWord : Text → Type 0
IsWord w = (w ≢ []) × (no_space w ≡ true)

pub no_space-append :
    (s t : Text) → no_space s ≡ true → no_space t ≡ true → no_space (s ++ t) ≡ true
no_space-append [] t h k = k
no_space-append (c ∷ s) t h k =
    let (first, rest) = &&_split (not (is_space c)) (no_space s) h in
    rw (first, no_space-append s t rest k)

fields_onto-word :
    (done : List Text) (word w rest : Text)
    → no_space w ≡ true
    → fields_onto done word (w ++ rest) ≡ fields_onto done (reverse w ++ word) rest
unfolding fields_onto
fields_onto-word done word [] rest h = refl
fields_onto-word done word (c ∷ w) rest h =
    let (plain, more) = &&_split (not (is_space c)) (no_space w) h in
    let same : is_space c ≡ false = ground arith in
    rw (same, fields_onto, reverse-cons c w, append_assoc (reverse w) (c ∷ []) word)
      (fields_onto-word done (c ∷ word) w rest more)

end_word-reverse :
    (done : List Text) (w : Text) → w ≢ [] → end_word done (reverse w ++ []) ≡ w ∷ done
unfolding end_word
end_word-reverse done w n = rw append-nil (at_end (reverse w) (reverse-reverse w))
  where
    at_end : (r : Text) → reverse r ≡ w → end_word done r ≡ w ∷ done
    at_end [] e = absurd (n (sym e))
    at_end (c ∷ r) e = ap (λ v. v ∷ done) e

fields_onto-join_text :
    (done ws : List Text)
    → All IsWord ws
    → fields_onto done [] (join_text ws (codes " ")) ≡ reverse done ++ ws
unfolding fields_onto end_word
fields_onto-join_text done [] h = sym (append-nil (reverse done))
fields_onto-join_text done (w ∷ []) h =
    ap (fields_onto done []) (sym (append-nil w))
    ∙ (fields_onto-word done [] w [] h.0.1
        ∙ (ap reverse (end_word-reverse done w h.0.0) ∙ reverse-cons w done))
fields_onto-join_text done (w ∷ v ∷ ws) h =
    let rest = join_text (v ∷ ws) (codes " ") in
    fields_onto-word done [] w (codes " " ++ rest) h.0.1
    ∙ (ap (λ d. fields_onto d [] rest) (end_word-reverse done w h.0.0)
        ∙ (fields_onto-join_text (w ∷ done) (v ∷ ws) h.1
            ∙ rw (reverse-cons w done, append_assoc (reverse done) (w ∷ []) (v ∷ ws))))

-- Words without spaces, joined by spaces, are the fields of the text.
pub fields-join_text : (ws : List Text) → All IsWord ws → fields (join_text ws (codes " ")) ≡ ws
unfolding fields
fields-join_text ws h = fields_onto-join_text [] ws h
