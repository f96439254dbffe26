-- ===== src/Dns/Group/Contents.antt =====
-- The addresses in the replies of a group.
use mathlib.Core.List.Perm
use mathlib.Core.List.{append-nil, append_assoc, perm_append_comm}
use getresolvd.Base.{
  ℕ, zero, suc, List, [], ◌∷◌, ◌++◌, ◌≡◌, sym, ap, ◌∙◌, some, get_elem?, set, length, Perm, take,
  ltb, Bool-cases, inl, inr,
}
use getresolvd.Netip.{Addr, ipv4, addr_from16}
use getresolvd.Errors.{Error, ok}
use getresolvd.Dns.Query.{Msg, Rr, rr_a, rr_aaaa, rr_other}
use getresolvd.Dns.Lookup.{append_answers, to4, to16}
use getresolvd.Dns.Group.{Query, asking, answered, failed}

-- The addresses of the A and AAAA records, in their order.
abbrev pub record_addrs : List Rr → List Addr
record_addrs [] = []
record_addrs (rr_a b ∷ rrs) = ipv4 (take 4 (to4 b)) ∷ record_addrs rrs
record_addrs (rr_aaaa b ∷ rrs) = addr_from16 (take 16 (to16 b)) ∷ record_addrs rrs
record_addrs (rr_other ∷ rrs) = record_addrs rrs

-- The loop over the records appends their addresses, unless it panics.
pub append_answers-record_addrs :
    (addrs out : List Addr) (rrs : List Rr)
    → append_answers addrs rrs ≡ ok out
    → out ≡ addrs ++ record_addrs rrs
unfolding append_answers
append_answers-record_addrs addrs out [] e = let same : addrs ≡ out = cc in rw append-nil (sym same)
append_answers-record_addrs addrs out (rr_a b ∷ rrs) e =
    elim (Bool-cases (ltb (length (to4 b)) 4)) [
      | inl short ↦ cc (rw short at e)
      | inr long ↦
          append_answers-record_addrs (addrs ++ ipv4 (take 4 (to4 b)) ∷ []) out rrs (rw long at e)
          ∙ append_assoc addrs _ _
    ]
append_answers-record_addrs addrs out (rr_aaaa b ∷ rrs) e =
    elim (Bool-cases (ltb (length (to16 b)) 16)) [
      | inl short ↦ cc (rw short at e)
      | inr long ↦
          append_answers-record_addrs (addrs ++ addr_from16 (take 16 (to16 b)) ∷ []) out rrs
            (rw long at e)
          ∙ append_assoc addrs _ _
    ]
append_answers-record_addrs addrs out (rr_other ∷ rrs) e =
    append_answers-record_addrs addrs out rrs e

-- The addresses of the replies, in the order of the queries.
abbrev pub contents : List Query → List Addr
contents [] = []
contents (asking ∷ qs) = contents qs
contents (answered m ∷ qs) = record_addrs m.answer ++ contents qs
contents (failed e ∷ qs) = contents qs

pub contents-answered :
    (qs : List Query) (i : ℕ) (m : Msg)
    → get_elem? qs i ≡ some asking
    → Perm (contents qs ++ record_addrs m.answer) (contents (set qs i (answered m)))
contents-answered [] i m e = cc
contents-answered (q ∷ qs) zero m e =
    let same : q ≡ asking = cc in rw same (perm_append_comm (contents qs) (record_addrs m.answer))
contents-answered (asking ∷ qs) (suc i) m e = contents-answered qs i m e
contents-answered (failed x ∷ qs) (suc i) m e = contents-answered qs i m e
contents-answered (answered n ∷ qs) (suc i) m e =
    rw (append_assoc (record_addrs n.answer) (contents qs) (record_addrs m.answer))
      (Perm.append_left (record_addrs n.answer) (contents-answered qs i m e))

pub contents-failed :
    (qs : List Query) (i : ℕ) (x : Error)
    → get_elem? qs i ≡ some asking
    → contents (set qs i (failed x)) ≡ contents qs
contents-failed [] i x e = cc
contents-failed (q ∷ qs) zero x e = let same : q ≡ asking = cc in rw same
contents-failed (asking ∷ qs) (suc i) x e = contents-failed qs i x e
contents-failed (failed y ∷ qs) (suc i) x e = contents-failed qs i x e
contents-failed (answered n ∷ qs) (suc i) x e =
    ap (◌++◌ (record_addrs n.answer)) (contents-failed qs i x e)
