-- ===== src/AddrSelect/Order/Laws.antt =====
-- `Less` is a strict order, and a weak one where no address is an IPv4-mapped one.
use getresolvd.Base.{true, false, ◌≡◌, arith}
use getresolvd.Netip.{is6}
use getresolvd.AddrSelect.Order.{Candidate, longest_prefix, less}
use getresolvd.AddrSelect.Order.Lex.{
  step_trans_down, step_cotrans_down, step_trans, step_cotrans, step_asymm, later_rules, less-steps,
  unusable, scope_differs, label_differs,
}

longest_prefix_trans :
    (a b c : Candidate)
    → longest_prefix a b ≡ true
    → longest_prefix b c ≡ true
    → longest_prefix a c ≡ true
unfolding longest_prefix
longest_prefix_trans a b c h k = ground arith

longest_prefix_asymm : (a b : Candidate) → longest_prefix a b ≡ true → longest_prefix b a ≡ false
unfolding longest_prefix
longest_prefix_asymm a b h = ground arith

longest_prefix_cotrans :
    (a b c : Candidate)
    → is6 a.addr ≡ is6 b.addr
    → is6 b.addr ≡ is6 c.addr
    → longest_prefix a b ≡ false
    → longest_prefix b c ≡ false
    → longest_prefix a c ≡ false
unfolding longest_prefix
longest_prefix_cotrans a b c e f h k = ground arith

later_rules_trans :
    (a b c : Candidate) → later_rules a b ≡ true → later_rules b c ≡ true → later_rules a c ≡ true
unfolding later_rules
later_rules_trans a b c h k =
    step_trans (scope_differs a) (scope_differs b) (scope_differs c) h k (λ _ _ h k.
      step_trans (label_differs a) (label_differs b) (label_differs c) h k (λ _ _ h k.
        step_trans_down a.addr_attr.precedence b.addr_attr.precedence c.addr_attr.precedence h k
          (λ _ _ h k.
            step_trans a.addr_attr.scope b.addr_attr.scope c.addr_attr.scope h k
              (λ _ _ h k. longest_prefix_trans a b c h k))))

later_rules_asymm : (a b : Candidate) → later_rules a b ≡ true → later_rules b a ≡ false
unfolding later_rules
later_rules_asymm a b h = step_asymm (scope_differs a) (scope_differs b) h (λ _ h.
    step_asymm (label_differs a) (label_differs b) h (λ _ h.
      step_asymm b.addr_attr.precedence a.addr_attr.precedence h (λ _ h.
        step_asymm a.addr_attr.scope b.addr_attr.scope h (λ _ h. longest_prefix_asymm a b h))))

-- Equal precedence means one family.
abbrev pub SameFamily : Candidate → Candidate → Type 0
SameFamily a b = a.addr_attr.precedence ≡ b.addr_attr.precedence → is6 a.addr ≡ is6 b.addr

later_rules_cotrans :
    (a b c : Candidate)
    → SameFamily a b
    → SameFamily b c
    → later_rules a b ≡ false
    → later_rules b c ≡ false
    → later_rules a c ≡ false
unfolding later_rules
later_rules_cotrans a b c ab bc h k =
    step_cotrans (scope_differs a) (scope_differs b) (scope_differs c) h k (λ _ _ h k.
      step_cotrans (label_differs a) (label_differs b) (label_differs c) h k (λ _ _ h k.
        step_cotrans_down a.addr_attr.precedence b.addr_attr.precedence c.addr_attr.precedence h k
          (λ e f h k.
            step_cotrans a.addr_attr.scope b.addr_attr.scope c.addr_attr.scope h k
              (λ _ _ h k. longest_prefix_cotrans a b c (ab e) (bc f) h k))))

-- Transitivity and asymmetry.
pub less_laws :
    (a b c : Candidate)
    → (less a b ≡ true → less b c ≡ true → less a c ≡ true) × (less a b ≡ true → less b a ≡ false)
less_laws a b c =
    rw (less-steps a b, less-steps b c, less-steps a c, less-steps b a)
      (
        λ h k.
            step_trans (unusable a) (unusable b) (unusable c) h k
              (λ e f h k. ground (arith, later_rules_trans a b c)),
        λ h. step_asymm (unusable a) (unusable b) h (λ e h. ground (arith, later_rules_asymm a b)),
      )

-- If one destination is less than a second and that less than a third, then the first is less than
-- the third, and the second is not less than the first.
pub less-strict_order :
    (a b c : Candidate) → less a b ≡ true → less b c ≡ true → (less a c ≡ true) × (less b a ≡ false)
less-strict_order a b c h k = ((less_laws a b c).0 h k, (less_laws a b a).1 h)

-- If equal precedence means one family, for a first and a second destination and for the second and
-- a third, and `Less` fails of both pairs, then it fails of the first and the third.
pub less_cotrans :
    (a b c : Candidate)
    → SameFamily a b
    → SameFamily b c
    → less a b ≡ false
    → less b c ≡ false
    → less a c ≡ false
less_cotrans a b c ab bc =
    rw (less-steps a b, less-steps b c, less-steps a c)
      λ h k.
        step_cotrans (unusable a) (unusable b) (unusable c) h k
          (λ e f h k. ground (arith, later_rules_cotrans a b c ab bc))
