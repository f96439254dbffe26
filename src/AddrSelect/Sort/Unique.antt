-- ===== src/AddrSelect/Sort/Unique.antt =====
-- There is one stable sort: whatever algorithm `sort.Stable` uses, its result is the one of the
-- insertion sort.
use getresolvd.Base.{
  Bool, true, false, not, ◌&&◌, List, [], ◌∷◌, ◌≡◌, refl, sym, ap, ◌∙◌, arith, inl, inr, ◌⊎◌, some,
  Bool-cases, if◌then◌else◌, All, Member, Member-All, All-Member, length, map, keep, &&_split, ◌==◌,
}
use getresolvd.Netip.{Addr, is6}
use getresolvd.AddrSelect.Order.{Candidate, less}
use getresolvd.AddrSelect.Order.Laws.{less_laws, less_cotrans}
use getresolvd.AddrSelect.Sort.{stable_sort, candidates, addr_of, sort_by_rfc6724with_srcs}
use getresolvd.AddrSelect.Sort.Stable.{IsOrdered, IsClass, keep-stable_sort, stable_sort-All}
use getresolvd.AddrSelect.Sort.Laws.{
  IsPlain, FamilyTold, candidates-FamilyTold, candidates-IsOrdered, sort_with_srcs-some,
}

module _ {ℓ} {A : Type ℓ} (before : A → A → Bool) where
  -- Neither is before the other.
  abbrev pub same_rank : A → A → Bool
  same_rank x y = not (before x y) && not (before y x)

  -- What `sort.Stable` documents: the elements in ascending order, and equal elements in their
  -- original order.
  pub record IsStableSort (xs out : List A) : Type ℓ where
    pub only : All (λ y. Member y xs) out
    pub ordered : IsOrdered before out
    pub stable : (x : A) → Member x xs → keep (same_rank x) out ≡ keep (same_rank x) xs

  keep-Member :
      (p : A → Bool) (xs : List A) (a : A) (more : List A) → keep p xs ≡ a ∷ more → Member a xs
  keep-Member p [] a more e = cc
  keep-Member p (x ∷ xs) a more e = elim (Bool-cases (p x)) [
    | inl h ↦ let f = rw h at e in inl (cc)
    | inr h ↦ inr (keep-Member p xs a more (rw h at e))
  ]

  module _ (irrefl : (a : A) → before a a ≡ false) where
    keep_self : (a : A) (xs : List A) → keep (same_rank a) (a ∷ xs) ≡ a ∷ keep (same_rank a) xs
    keep_self a xs = rw (irrefl a) refl

    -- An element whose rank starts a list is not before its first element, or is that element.
    first_of_rank :
        (a b : A) (ys more : List A)
        → keep (same_rank a) (b ∷ ys) ≡ a ∷ more
        → IsOrdered before (b ∷ ys)
        → (before a b ≡ false) ⊎ (b ≡ a)
    first_of_rank a b ys more e o = elim (Bool-cases (same_rank a b)) [
      | inl h ↦ let f = rw h at e in inr (cc)
      | inr h ↦ inl (
          Member-All (λ z. before z b ≡ false) a ys o.0
            (keep-Member (same_rank a) ys a more (rw h at e)))
    ]

    equal_first :
        (a b : A) (xs ys : List A)
        → IsOrdered before (a ∷ xs)
        → IsOrdered before (b ∷ ys)
        → keep (same_rank a) (a ∷ xs) ≡ keep (same_rank a) (b ∷ ys)
        → keep (same_rank b) (a ∷ xs) ≡ keep (same_rank b) (b ∷ ys)
        → b ≡ a
    equal_first a b xs ys o q e f =
        elim (first_of_rank a b ys (keep (same_rank a) xs) (sym e ∙ keep_self a xs) q) [
          | inr same ↦ same
          | inl ab ↦ elim (first_of_rank b a xs (keep (same_rank b) ys) (f ∙ keep_self b ys) o) [
            | inr same ↦ sym same
            | inl ba ↦
                let rank : same_rank a b ≡ true = rw (ab, ba) refl in
                let g = sym e ∙ keep_self a xs in let h = rw rank at g in cc
          ]
        ]

    keep-tail :
        (p : A → Bool) (a : A) (xs ys : List A)
        → keep p (a ∷ xs) ≡ keep p (a ∷ ys)
        → keep p xs ≡ keep p ys
    keep-tail p a xs ys e = elim (Bool-cases (p a)) [
      | inl h ↦ let f = rw h at e in cc
      | inr h ↦ rw h at e
    ]

    module _ {κ} (P : A → Type κ) where
      ordered_unique :
          (xs ys : List A)
          → All P xs
          → All P ys
          → IsOrdered before xs
          → IsOrdered before ys
          → ((x : A) → P x → keep (same_rank x) xs ≡ keep (same_rank x) ys)
          → xs ≡ ys
      ordered_unique [] [] h k o q e = refl
      ordered_unique [] (b ∷ ys) h k o q e = let f = e b k.0 ∙ keep_self b ys in cc
      ordered_unique (a ∷ xs) [] h k o q e = let f = sym (keep_self a xs) ∙ e a h.0 in cc
      ordered_unique (a ∷ xs) (b ∷ ys) h k o q e =
          let same = equal_first a b xs ys o q (e a h.0) (e b k.0) in
          ap (λ l. a ∷ l)
            (ordered_unique xs ys h.1 k.1 o.1 q.1 (λ x px.
              keep-tail (same_rank x) a xs ys
                (e x px ∙ ap (λ c. keep (same_rank x) (c ∷ ys)) same)))
          ∙ ap (λ c. c ∷ ys) (sym same)

    -- Two stable sorts of a list are one list.
    stable_sorts_equal :
        (xs one other : List A) → IsStableSort xs one → IsStableSort xs other → one ≡ other
    stable_sorts_equal xs one other h k =
        ordered_unique (λ y. Member y xs) one other h.only k.only h.ordered k.ordered
          (λ x m. h.stable x m ∙ sym (k.stable x m))

-- Whether the precedence of a destination tells its family.
abbrev told : Candidate → Bool
told c = if is6 c.addr then not (c.addr_attr.precedence == 35) else c.addr_attr.precedence == 35

told_lem : (c : Candidate) → FamilyTold c → told c ≡ true
told_lem c h = ground arith

FamilyTold-told : (c : Candidate) → told c ≡ true → FamilyTold c
FamilyTold-told c h = ground arith

keep-told :
    (p : Candidate → Bool) (cs : List Candidate)
    → All FamilyTold cs
    → keep (λ c. told c && p c) cs ≡ keep p cs
keep-told p [] h = refl
keep-told p (c ∷ cs) h = rw (told_lem c h.0, keep-told p cs h.1)

both_not : (a b : Bool) → (not a && not b) ≡ true → (a ≡ false) × (b ≡ false)
both_not a b h = ground arith

less_irrefl : (a : Candidate) → less a a ≡ false
less_irrefl a = elim (Bool-cases (less a a)) [ inl h ↦ (less_laws a a a).1 h | inr h ↦ h ]

rank-IsClass : (c : Candidate) → FamilyTold c → IsClass less (λ d. told d && same_rank less c d)
rank-IsClass c pc x y h k =
    let (tx, rx) = &&_split (told x) (same_rank less c x) h in
    let (ty, ry) = &&_split (told y) (same_rank less c y) k in
    let px = FamilyTold-told x tx in
    let py = FamilyTold-told y ty in
    less_cotrans x c y (λ q. px ∙ rw q (sym pc)) (λ q. pc ∙ rw q (sym py))
      (both_not (less c x) (less x c) rx).1 (both_not (less c y) (less y c) ry).0

pub stable_sort-IsStableSort :
    (cs : List Candidate)
    → All FamilyTold cs
    → IsOrdered less (stable_sort less cs)
    → IsStableSort less cs (stable_sort less cs)
stable_sort-IsStableSort cs h o = record {
  only = stable_sort-All less (λ c. Member c cs) cs (All-Member cs cs (λ c m. m));
  ordered = o;
  stable = λ c m.
      sym
        (keep-told (same_rank less c) (stable_sort less cs) (stable_sort-All less FamilyTold cs h))
      ∙ (keep-stable_sort less (λ d. told d && same_rank less c d)
            (rank-IsClass c (Member-All FamilyTold c cs h m)) cs
          ∙ keep-told (same_rank less c) cs h);
}

-- For valid addresses, none of them IPv4-mapped, and as many sources: any list that is a stable sort
-- of the candidates by `Less`, as `sort.Stable` documents it, gives the result. So the model's
-- insertion sort stands for every algorithm of `sort.Stable`, at every length.
pub sort_with_srcs_unique :
    (addrs srcs : List Addr) (out : List Candidate)
    → length addrs ≡ length srcs
    → All IsPlain addrs
    → IsStableSort less (candidates addrs srcs) out
    → sort_by_rfc6724with_srcs addrs srcs ≡ some (map addr_of out)
sort_with_srcs_unique addrs srcs out e h s =
    let cs = candidates addrs srcs in
    let model =
      stable_sort-IsStableSort cs (candidates-FamilyTold addrs srcs h)
        (candidates-IsOrdered addrs srcs h) in
    sort_with_srcs-some addrs srcs e
    ∙ ap (λ l. some (map addr_of l))
        (stable_sorts_equal less (λ a. less_irrefl a) cs (stable_sort less cs) out model s)
