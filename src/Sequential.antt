-- ===== src/Sequential.antt =====
-- sequential.go: each resolver in order, until one succeeds.
pub mod Laws
pub mod Answers
use getresolvd.Base.{List, [], ◌∷◌, ◌++◌}
use getresolvd.Errors.{Error}
use getresolvd.Resolver.{Resolver, join_result, or_else}

module _ {W : Type 0} where
  -- The loop over the resolvers, with the errors so far.
  unfoldable pub sequential_loop : List (Resolver W) → List Error → Resolver W
  sequential_loop [] errs network host w = (join_result errs, w)
  sequential_loop (r ∷ rs) errs network host w =
      or_else (r network host w) λ e w'. sequential_loop rs (errs ++ e ∷ []) network host w'

  -- `Sequential(resolvers...).LookupNetIP`.
  unfoldable pub sequential : List (Resolver W) → Resolver W
  unfolding sequential_loop
  sequential rs = sequential_loop rs []
