-- ===== src/RoundRobin.antt =====
-- round_robin.go: the resolvers in a random order, one after the other.
pub mod Laws
pub mod Answers
use getresolvd.Base.{List, Option, none, some}
use getresolvd.Errors.{panic}
use getresolvd.Resolver.{Resolver}
use getresolvd.Sequential.{sequential}
use getresolvd.Shuffle.{Rand, shuffle}

module _ {W : Type 0} (rand : Rand W) where
  -- `Sequential(rotatedResolvers...)` on what `Shuffle` returned.
  in_order : Option (List (Resolver W)) → Resolver W
  in_order (some rotated) network host w = sequential rotated network host w
  in_order none network host w = (panic, w)

  -- `RoundRobin(resolvers...).LookupNetIP`: the copy keeps the list of the resolver as it is.
  unfoldable pub round_robin : List (Resolver W) → Resolver W
  unfolding in_order
  round_robin rs network host w =
      let (rotated, w') = shuffle rand rs w in in_order rotated network host w'
