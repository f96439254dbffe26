-- ===== src/AddrSelect/Order.antt =====
-- `byRFC6724` and its `Less` (internal/addrselect/addrselect.go).
pub mod Lex
pub mod Laws
use getresolvd.Base.{ℕ, Bool, true, false, not, ◌&&◌, ltb, ◌==◌, if◌then◌else◌}
use getresolvd.Netip.{Addr, is_valid, is6}
use getresolvd.AddrSelect.Policy.{IpAttr}
use getresolvd.AddrSelect.CommonPrefix.{common_prefix_len}

-- One index of the four slices of `byRFC6724`, which `Swap` moves together.
pub record Candidate : Type 0 where
  pub addr : Addr
  pub addr_attr : IpAttr
  pub src : Addr
  pub src_attr : IpAttr

-- Rule 9 and what follows it.
unfoldable pub longest_prefix : Candidate → Candidate → Bool
longest_prefix da db =
    if is6 da.addr && is6 db.addr
    then (let common_a = common_prefix_len da.src da.addr in
        let common_b = common_prefix_len db.src db.addr in
        if ltb common_b common_a then true else if ltb common_a common_b then false else false)
    else false

unfoldable pub less : Candidate → Candidate → Bool
unfolding longest_prefix
less da db =
    if not (is_valid da.src) && not (is_valid db.src)
    then false
    else if not (is_valid db.src)
    then true
    else if not (is_valid da.src)
    then false
    else if da.addr_attr.scope == da.src_attr.scope && not (db.addr_attr.scope == db.src_attr.scope)
    then true
    else if not (da.addr_attr.scope == da.src_attr.scope) && db.addr_attr.scope == db.src_attr.scope
    then false
    else if da.src_attr.label == da.addr_attr.label && not (db.src_attr.label == db.addr_attr.label)
    then true
    else if not (da.src_attr.label == da.addr_attr.label) && db.src_attr.label == db.addr_attr.label
    then false
    else if ltb db.addr_attr.precedence da.addr_attr.precedence
    then true
    else if ltb da.addr_attr.precedence db.addr_attr.precedence
    then false
    else if ltb da.addr_attr.scope db.addr_attr.scope
    then true
    else if ltb db.addr_attr.scope da.addr_attr.scope
    then false
    else longest_prefix da db
