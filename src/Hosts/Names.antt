-- ===== src/Hosts/Names.antt =====
-- The laws of the name map.
use getresolvd.Base.{
  List, [], ◌∷◌, ◌≡◌, refl, arith, none, some, Text, text_eq, text_eq_iff, if◌then◌else◌,
}
use getresolvd.Netip.{Addr}
use getresolvd.Hosts.{NameMap, lookup, insert, erase}

pub lookup-insert :
    (k j : Text) (v : List Addr) (m : NameMap)
    → lookup j (insert k v m) ≡ (if text_eq k j then some v else lookup j m)
unfolding lookup insert
lookup-insert k j v [] = refl
lookup-insert k j v ((i, u) ∷ m) =
    ground (arith, text_eq_iff k j, text_eq_iff i k, text_eq_iff i j, lookup-insert k j v m)

pub lookup-erase :
    (k j : Text) (m : NameMap) → lookup j (erase k m) ≡ (if text_eq k j then none else lookup j m)
unfolding lookup erase
lookup-erase k j [] = ground arith
lookup-erase k j ((i, u) ∷ m) =
    ground (arith, text_eq_iff k j, text_eq_iff i k, text_eq_iff i j, lookup-erase k j m)
