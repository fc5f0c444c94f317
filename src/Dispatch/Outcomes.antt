-- ===== src/Dispatch/Outcomes.antt =====
-- When a routing table is built, and that it then routes every operation.
use soap_server.Prelude.{
  ◌≡◌, Bytes, Bool, true, false, ◌||◌, Option, List, [], ◌∷◌, Map, str_eq, ◌==◌, ok,
}
use soap_server.Qname.{qname_eq}
use soap_server.Wsdl.Resolved.{ResolvedWsdl}
use soap_server.Dispatch.Table.{DispatchEntry}
use soap_server.Dispatch.Operations.{BoundOp}
use soap_server.Dispatch.Build.{entry_of}

-- Some operation of the list has the name.
abbrev pub names_op : List BoundOp → Bytes → Bool
names_op [] name = false
names_op (op ∷ ops) name = op.name == name || names_op ops name

module _ {H : Type 0} where
  abbrev pub AllNamed : (Bytes → Bool) → Map Bytes H → Type 0
  AllNamed p [] = Unit
  AllNamed p ((name, h) ∷ handlers) = (p name ≡ true) × AllNamed p handlers

  module _ (r : ResolvedWsdl) (handlers : Map Bytes H) (auth_bypass : List Bytes)
      (default_handler : Option H) where
    -- Every operation has an entry.
    abbrev pub AllMade : List BoundOp → Type 0
    AllMade [] = Unit
    AllMade (op ∷ ops) =
        ((entry : DispatchEntry H) × (entry_of r handlers auth_bypass default_handler op
            ≡ ok entry))
        × AllMade ops
