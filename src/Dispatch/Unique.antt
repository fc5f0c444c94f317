-- ===== src/Dispatch/Unique.antt =====
-- The operations of a service are collected once each.
use soap_server.Prelude.{
  ◌≡◌, refl, arith, Bytes, false, not, ◌&&◌, Bool-cases, inl, inr, Option, List, [], ◌∷◌, contains,
  str_eq, str_beq_iff,
}
use soap_server.Wsdl.Resolved.{ResolvedWsdl}
use soap_server.Dispatch.Operations.{BoundOp, unique_from, all_binding_ops, collect_ops_for_service}
use soap_server.Dispatch.Outcomes.{names_op}

abbrev pub HasDistinctNames : List BoundOp → Type 0
HasDistinctNames [] = Unit {0}
HasDistinctNames (op ∷ ops) = (names_op ops op.name ≡ false) × HasDistinctNames ops

names_op-unique_from :
    (seen : List Bytes) (ops : List BoundOp) (name : Bytes)
    → names_op (unique_from seen ops) name ≡ (names_op ops name && not (contains seen name))
unfolding unique_from contains
names_op-unique_from seen [] name = refl
names_op-unique_from seen (op ∷ ops) name = ground (
  arith,
  str_beq_iff op.name name,
  names_op-unique_from seen ops name,
  names_op-unique_from (op.name ∷ seen) ops name,
)

unique_from-HasDistinctNames :
    (seen : List Bytes) (ops : List BoundOp) → HasDistinctNames (unique_from seen ops)
unfolding unique_from contains
unique_from-HasDistinctNames seen [] = tt
unique_from-HasDistinctNames seen (op ∷ ops) = elim (Bool-cases (contains seen op.name)) [
  | inl y ↦ rw (y, unique_from) (unique_from-HasDistinctNames seen ops)
  | inr n ↦
      rw (n, unique_from)
        (
          ground (
            arith,
            str_beq_iff op.name op.name,
            names_op-unique_from (op.name ∷ seen) ops op.name,
          ),
          unique_from-HasDistinctNames (op.name ∷ seen) ops,
        )
]

-- The operations of a service, or of all, are collected without repeating a name, and the
-- names are exactly those in the bindings.
pub collected_once :
    (service : Option Bytes) (r : ResolvedWsdl)
    → HasDistinctNames (collect_ops_for_service service r)
      × ((name : Bytes)
          → names_op (collect_ops_for_service service r) name
            ≡ names_op (all_binding_ops service r.definition) name)
unfolding collect_ops_for_service contains
collected_once service r =
    let all = all_binding_ops service r.definition in
    (unique_from-HasDistinctNames [] all, λ name. ground (arith, names_op-unique_from [] all name))
