-- ===== src/AddrSelect/Sort/Reachable.antt =====
-- Destinations that no source address reaches.
use getresolvd.Base.{
  Bool, true, false, not, List, [], ◌∷◌, ◌++◌, ◌≡◌, refl, ap, ◌∙◌, arith, inl, inr, some,
  Bool-cases, length, All, All-map, map, keep, Perm, subst,
}
use getresolvd.Netip.{Addr, is_valid}
use getresolvd.AddrSelect.Order.{Candidate, less}
use getresolvd.AddrSelect.Sort.{stable_sort, candidates, addr_of, sort_by_rfc6724with_srcs}
use getresolvd.AddrSelect.Sort.Stable.{IsOrdered, IsClass, keep-stable_sort, stable_sort-perm}
use getresolvd.AddrSelect.Sort.Laws.{IsPlain, candidates-IsOrdered, sort_with_srcs-some}

-- The destination has a source address.
abbrev pub is_reachable : Candidate → Bool
is_reachable c = is_valid c.src

abbrev pub is_unreachable : Candidate → Bool
is_unreachable c = not (is_valid c.src)

less_unreachable :
    (a b : Candidate) → less a b ≡ false → is_reachable b ≡ false → is_reachable a ≡ false
unfolding less
less_unreachable a b h k = ground arith

keep-All {ℓ} : {A : Type ℓ} (p : A → Bool) (xs : List A) → All (λ x. p x ≡ true) xs → keep p xs ≡ xs
keep-All p [] h = refl
keep-All p (x ∷ xs) h = rw (h.0, keep-All p xs h.1)

keep_none {ℓ} :
    {A : Type ℓ} (p : A → Bool) (xs : List A) → All (λ x. p x ≡ false) xs → keep p xs ≡ []
keep_none p [] h = refl
keep_none p (x ∷ xs) h = rw (h.0, keep_none p xs h.1)

All-keep {ℓ} : {A : Type ℓ} (p : A → Bool) (xs : List A) → All (λ x. p x ≡ true) (keep p xs)
All-keep p [] = tt
All-keep p (x ∷ xs) = elim (Bool-cases (p x)) [
  | inl h ↦ rw h (h, All-keep p xs)
  | inr h ↦ rw h (All-keep p xs)
]

-- An ordered list has the reachable destinations in front.
IsOrdered-reachable :
    (cs : List Candidate) → IsOrdered less cs → cs ≡ keep is_reachable cs ++ keep is_unreachable cs
IsOrdered-reachable [] o = refl
IsOrdered-reachable (c ∷ cs) o = elim (Bool-cases (is_reachable c)) [
  | inl h ↦ rw h (ap (◌∷◌ c) (IsOrdered-reachable cs o.1))
  | inr h ↦
      let rest =
        All-map (λ z. less z c ≡ false) (λ z. is_reachable z ≡ false)
          (λ z below. less_unreachable z c below h) cs o.0 in
      let none_front = keep_none is_reachable cs rest in
      let all_back = keep-All is_unreachable cs (
        All-map (λ z. is_reachable z ≡ false) (λ z. is_unreachable z ≡ true) (λ z k. rw k) cs
          rest) in
      rw (h, none_front, all_back)
]

unreachable-IsClass : IsClass less is_unreachable
unfolding less
unreachable-IsClass x y h k = ground arith

-- For valid addresses, none of them IPv4-mapped, and as many sources: in the result all destinations
-- with a source stand before all destinations without one, and the latter keep their order.
pub sort_with_srcs_reachable :
    (addrs srcs : List Addr)
    → length addrs ≡ length srcs
    → All IsPlain addrs
    → (front : List Candidate) × (sort_by_rfc6724with_srcs addrs srcs
        ≡ some (map addr_of (front ++ keep is_unreachable (candidates addrs srcs))))
      × All (λ c. is_reachable c ≡ true) front
      × Perm (front ++ keep is_unreachable (candidates addrs srcs)) (candidates addrs srcs)
sort_with_srcs_reachable addrs srcs e h =
    let cs = stable_sort less (candidates addrs srcs) in
    let split : cs ≡ keep is_reachable cs ++ keep is_unreachable (candidates addrs srcs) =
      IsOrdered-reachable cs (candidates-IsOrdered addrs srcs h)
      ∙ ap (◌++◌ (keep is_reachable cs))
          (keep-stable_sort less is_unreachable unreachable-IsClass (candidates addrs srcs)) in
    (
      keep is_reachable cs,
      sort_with_srcs-some addrs srcs e ∙ ap (λ l. some (map addr_of l)) split,
      All-keep is_reachable cs,
      subst (λ l. Perm l (candidates addrs srcs)) split
          (stable_sort-perm less (candidates addrs srcs)),
    )
