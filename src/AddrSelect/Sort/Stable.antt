-- ===== src/AddrSelect/Sort/Stable.antt =====
-- The insertion sort of `sort.Stable`: a rearrangement, stable for every test, and in order where
-- the test is a strict weak order.
use mathlib.Core.List.{reverse, append_assoc, append-nil, reverse-append, perm_middle, reverse_perm}
use mathlib.Core.List.Perm
use getresolvd.Base.{
  Bool, true, false, List, [], ◌∷◌, ◌++◌, ◌≡◌, refl, sym, ◌∙◌, arith, inl, inr, Bool-cases, All,
  All-append, All-map₂, keep, keep-append, Perm,
}
use getresolvd.AddrSelect.Sort.{insert_back, insert_each, stable_sort}

pub All-reverse {ℓ κ} : {A : Type ℓ} (P : A → Type κ) (xs : List A) → All P xs → All P (reverse xs)
All-reverse P [] h = tt
All-reverse P (x ∷ xs) h =
    rw (reverse-append (x ∷ []) xs)
      (All-append P (reverse xs) (x ∷ []) (All-reverse P xs h.1) (h.0, tt))

keep-reverse {ℓ} :
    {A : Type ℓ} (p : A → Bool) (xs : List A) → keep p (reverse xs) ≡ reverse (keep p xs)
keep-reverse p [] = refl
keep-reverse p (x ∷ xs) =
    rw (reverse-append (x ∷ []) xs, keep-append p (reverse xs) (x ∷ []), keep-reverse p xs)
      (elim (Bool-cases (p x)) [
        | inl h ↦ rw (h, reverse-append (x ∷ []) (keep p xs))
        | inr h ↦ rw h (append-nil _)
      ])

insert_back-All {ℓ κ} :
    {A : Type ℓ} (before : A → A → Bool) (P : A → Type κ) (x : A) (ys : List A)
    → P x
    → All P ys
    → All P (insert_back before x ys)
unfolding insert_back
insert_back-All before P x [] px h = (px, tt)
insert_back-All before P x (y ∷ ys) px h = elim (Bool-cases (before x y)) [
  | inl e ↦ rw e (h.0, insert_back-All before P x ys px h.1)
  | inr e ↦ rw e (px, h)
]

insert_each-All {ℓ κ} :
    {A : Type ℓ} (before : A → A → Bool) (P : A → Type κ) (xs done : List A)
    → All P xs
    → All P done
    → All P (insert_each before done xs)
unfolding insert_each
insert_each-All before P [] done h k = k
insert_each-All before P (x ∷ xs) done h k =
    insert_each-All before P xs (insert_back before x done) h.1
      (insert_back-All before P x done h.0 k)

pub stable_sort-All {ℓ κ} :
    {A : Type ℓ} (before : A → A → Bool) (P : A → Type κ) (xs : List A)
    → All P xs
    → All P (stable_sort before xs)
unfolding stable_sort
stable_sort-All before P xs h =
    All-reverse P (insert_each before [] xs) (insert_each-All before P xs [] h tt)

module _ {ℓ} {A : Type ℓ} (before : A → A → Bool) where
  insert_back-perm : (x : A) (ys : List A) → Perm (insert_back before x ys) (x ∷ ys)
  unfolding insert_back
  insert_back-perm x [] = Perm.refl (x ∷ [])
  insert_back-perm x (y ∷ ys) = elim (Bool-cases (before x y)) [
    | inl h ↦ rw h (Perm.trans (Perm.cons y (insert_back-perm x ys)) (Perm.swap x y ys))
    | inr h ↦ rw h (Perm.refl (x ∷ y ∷ ys))
  ]

  insert_each-perm : (xs done : List A) → Perm (insert_each before done xs) (xs ++ done)
  unfolding insert_each
  insert_each-perm [] done = Perm.refl done
  insert_each-perm (x ∷ xs) done =
      Perm.trans (insert_each-perm xs (insert_back before x done))
        (Perm.trans (Perm.append_left xs (insert_back-perm x done)) (perm_middle xs done))

  pub stable_sort-perm : (xs : List A) → Perm (stable_sort before xs) xs
  unfolding stable_sort
  stable_sort-perm xs = Perm.trans (reverse_perm _) (rw append-nil at (insert_each-perm xs []))

  -- The test never holds between two elements that `p` accepts.
  abbrev pub IsClass : (A → Bool) → Type ℓ
  IsClass p = (x y : A) → p x ≡ true → p y ≡ true → before x y ≡ false

  module _ (p : A → Bool) (c : IsClass p) where
    keep-insert_back : (x : A) (ys : List A) → keep p (insert_back before x ys) ≡ keep p (x ∷ ys)
    unfolding insert_back
    keep-insert_back x [] = refl
    keep-insert_back x (y ∷ ys) = ground (arith, c x y, keep-insert_back x ys)

    keep-insert_each :
        (xs done : List A)
        → reverse (keep p (insert_each before done xs)) ≡ reverse (keep p done) ++ keep p xs
    unfolding insert_each
    keep-insert_each [] done = sym (append-nil _)
    keep-insert_each (x ∷ xs) done =
        keep-insert_each xs (insert_back before x done)
        ∙ rw (keep-insert_back x done) (keep-next x xs done)
      where
        keep-next :
            (x : A) (xs done : List A)
            → reverse (keep p (x ∷ done)) ++ keep p xs ≡ reverse (keep p done) ++ keep p (x ∷ xs)
        keep-next x xs done = elim (Bool-cases (p x)) [
          | inl h ↦ rw (h, reverse-append (x ∷ []) (keep p done)) (append_assoc _ (x ∷ []) _)
          | inr h ↦ rw h
        ]

    -- The elements of such a class keep their order.
    pub keep-stable_sort : (xs : List A) → keep p (stable_sort before xs) ≡ keep p xs
    unfolding stable_sort
    keep-stable_sort xs = keep-reverse p (insert_each before [] xs) ∙ keep-insert_each xs []

-- No later element is before an earlier one.
abbrev pub IsOrdered {ℓ} : {A : Type ℓ} → (A → A → Bool) → List A → Type 0
IsOrdered before [] = Unit
IsOrdered before (x ∷ xs) = All (λ z. before z x ≡ false) xs × IsOrdered before xs

-- The same, for a list that stands in reverse.
abbrev IsDescending {ℓ} : {A : Type ℓ} → (A → A → Bool) → List A → Type 0
IsDescending before [] = Unit
IsDescending before (y ∷ ys) = All (λ z. before y z ≡ false) ys × IsDescending before ys

module _ {ℓ} {A : Type ℓ} (before : A → A → Bool) where
  IsOrdered-concat :
      (xs : List A) (y : A)
      → IsOrdered before xs
      → All (λ z. before y z ≡ false) xs
      → IsOrdered before (xs ++ y ∷ [])
  IsOrdered-concat [] y o h = (tt, tt)
  IsOrdered-concat (x ∷ xs) y o h =
      (All-append _ xs (y ∷ []) o.0 (h.0, tt), IsOrdered-concat xs y o.1 h.1)

  IsOrdered-reverse : (ys : List A) → IsDescending before ys → IsOrdered before (reverse ys)
  IsOrdered-reverse [] d = tt
  IsOrdered-reverse (y ∷ ys) d =
      rw (reverse-append (y ∷ []) ys)
        (IsOrdered-concat (reverse ys) y (IsOrdered-reverse ys d.1) (All-reverse _ ys d.0))

  -- A strict weak order on the elements that `P` describes.
  module _ {κ} (P : A → Type κ) (asymm : (a b : A) → before a b ≡ true → before b a ≡ false)
      (cotrans : (a b c : A)
        → P a
        → P b
        → P c
        → before a b ≡ false
        → before b c ≡ false
        → before a c ≡ false) where
    insert_back-IsDescending :
        (x : A) (ys : List A)
        → P x
        → All P ys
        → IsDescending before ys
        → IsDescending before (insert_back before x ys)
    unfolding insert_back
    insert_back-IsDescending x [] px ps d = (tt, tt)
    insert_back-IsDescending x (y ∷ ys) px ps d = elim (Bool-cases (before x y)) [
      | inl h ↦ rw h (
        insert_back-All before (λ z. before y z ≡ false) x ys (asymm x y h) d.0,
        insert_back-IsDescending x ys px ps.1 d.1,
      )
      | inr h ↦ rw h ((h, All-map₂ _ _ _ (λ z pz e. cotrans x y z px ps.0 pz h e) ys ps.1 d.0), d)
    ]

    insert_each-IsDescending :
        (xs done : List A)
        → All P xs
        → All P done
        → IsDescending before done
        → IsDescending before (insert_each before done xs)
    unfolding insert_each
    insert_each-IsDescending [] done ps qs d = d
    insert_each-IsDescending (x ∷ xs) done ps qs d =
        insert_each-IsDescending xs (insert_back before x done) ps.1
          (insert_back-All before P x done ps.0 qs) (insert_back-IsDescending x done ps.0 qs d)

    pub stable_sort-IsOrdered : (xs : List A) → All P xs → IsOrdered before (stable_sort before xs)
    unfolding stable_sort
    stable_sort-IsOrdered xs ps =
        IsOrdered-reverse (insert_each before [] xs) (insert_each-IsDescending xs [] ps tt tt)
