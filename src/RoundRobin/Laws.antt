-- ===== src/RoundRobin/Laws.antt =====
-- Every lookup of `RoundRobin` is a lookup of `Sequential` over a rearrangement.
use getresolvd.Base.{List, ◌≡◌, Text, Perm}
use getresolvd.Resolver.{Resolver}
use getresolvd.Sequential.{sequential}
use getresolvd.Shuffle.{Rand, RandLawful, shuffle}
use getresolvd.Shuffle.Laws.{shuffle-perm}
use getresolvd.RoundRobin.{in_order, round_robin}

-- If the source of randomness does not fail, a lookup asks the resolvers one after the other, each
-- once, in some order, as `Sequential` does over that order after the draws.
pub round_robin-sequential :
    {W : Type 0} (rand : Rand W)
    → RandLawful rand
    → (rs : List (Resolver W)) (network host : Text) (w : W)
    → (order : List (Resolver W)) × (w' : W) × Perm order rs
      × (round_robin rand rs network host w ≡ sequential order network host w')
unfolding round_robin in_order
round_robin-sequential rand lawful rs network host w =
    let (order, e, p) = shuffle-perm rand lawful rs w in (order, (shuffle rand rs w).1, p, rw e)
