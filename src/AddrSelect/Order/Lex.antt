-- ===== src/AddrSelect/Order/Lex.antt =====
-- `Less` as a lexicographic comparison: each rule compares two ranks, and the smaller one wins.
use getresolvd.Base.{ℕ, Bool, true, false, ◌&&◌, ◌≡◌, arith, ltb, ◌==◌, if◌then◌else◌}
use getresolvd.Netip.{is_valid}
use getresolvd.AddrSelect.Order.{Candidate, longest_prefix, less}

-- One rule, with what the later rules say.
pub step : ℕ → ℕ → Bool → Bool
step x y later = if ltb x y then true else if ltb y x then false else later

module _ (x y z : ℕ) {p q r : Bool} where
  pub step_trans :
      step x y p ≡ true
      → step y z q ≡ true
      → (x ≡ y → y ≡ z → p ≡ true → q ≡ true → r ≡ true)
      → step x z r ≡ true
  unfolding step
  step_trans h k f = ground arith

  -- Two pairs that are not ordered make a third one.
  pub step_cotrans :
      step x y p ≡ false
      → step y z q ≡ false
      → (x ≡ y → y ≡ z → p ≡ false → q ≡ false → r ≡ false)
      → step x z r ≡ false
  unfolding step
  step_cotrans h k f = ground arith

-- The same, where the greater number wins.
module _ (x y z : ℕ) {p q r : Bool} where
  pub step_trans_down :
      step y x p ≡ true
      → step z y q ≡ true
      → (x ≡ y → y ≡ z → p ≡ true → q ≡ true → r ≡ true)
      → step z x r ≡ true
  unfolding step
  step_trans_down h k f = ground arith

  pub step_cotrans_down :
      step y x p ≡ false
      → step z y q ≡ false
      → (x ≡ y → y ≡ z → p ≡ false → q ≡ false → r ≡ false)
      → step z x r ≡ false
  unfolding step
  step_cotrans_down h k f = ground arith

pub step_asymm :
    (x y : ℕ) {p q : Bool} → step x y p ≡ true → (x ≡ y → p ≡ true → q ≡ false) → step y x q ≡ false
unfolding step
step_asymm x y h f = ground arith

abbrev mark : Bool → ℕ
mark true = 0
mark false = 1

-- Rule 1, rule 2 and rule 5: 0 for what is preferred.
abbrev pub unusable : Candidate → ℕ
unusable c = mark (is_valid c.src)

abbrev pub scope_differs : Candidate → ℕ
scope_differs c = mark (c.addr_attr.scope == c.src_attr.scope)

abbrev pub label_differs : Candidate → ℕ
label_differs c = mark (c.src_attr.label == c.addr_attr.label)

-- Rules 2 to 9, for two usable destinations.
unfoldable pub later_rules : Candidate → Candidate → Bool
later_rules a b = step (scope_differs a) (scope_differs b) (
    step (label_differs a) (label_differs b) (
      step b.addr_attr.precedence a.addr_attr.precedence
        (step a.addr_attr.scope b.addr_attr.scope (longest_prefix a b))))

pub less-steps :
    (a b : Candidate)
    → less a b ≡ step (unusable a) (unusable b) (is_valid a.src && later_rules a b)
unfolding less later_rules step
less-steps a b = ground arith
