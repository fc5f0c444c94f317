-- ===== src/Server/Services.antt =====
-- The routes of a server with several services (src/server.rs).
use soap_server.Prelude.{
  Bytes, Bool-cases, ◌≡◌, arith, inl, inr, Option, some, List, [], ◌∷◌, Map, lookup, insert,
  lookup-insert, contains, str_eq, str_beq_iff, ◌==◌, ok, >>=-eq-ok,
}
use soap_server.Wsdl.Resolved.{ResolvedWsdl}
use soap_server.Dispatch.Table.{DispatchTable}
use soap_server.Dispatch.Outcomes.{AllNamed}
use soap_server.Server.Builder.{
  all_service_ops, check_known, service_table, service_tables, build_multi,
}

module _ {H : Type 0} where
  check_known-AllNamed :
      (ops : List Bytes) (handlers : Map Bytes H)
      → check_known ops handlers ≡ ok tt
      → AllNamed (contains ops) handlers
  unfolding check_known
  check_known-AllNamed ops [] h = tt
  check_known-AllNamed ops ((name, x) ∷ handlers) h = elim (Bool-cases (contains ops name)) [
    | inl known ↦ (known, check_known-AllNamed ops handlers (ground arith))
    | inr unknown ↦ absurd (ground arith)
  ]

  module _ (to_lowercase : Bytes → Bytes) (r : ResolvedWsdl) (handlers : Map Bytes H)
      (auth_bypass : List Bytes) (default_handler : Option H) where
    -- Every route has the table of the service that it is named for.
    abbrev pub RoutesAgree : Map Bytes (DispatchTable H) → Map Bytes Bytes → Type 0
    RoutesAgree tables names =
        (path : Bytes) (table : DispatchTable H)
        → lookup path tables ≡ some table
        → (name : Bytes) × (lookup path names ≡ some name)
          × (service_table to_lowercase r handlers auth_bypass default_handler name
              ≡ ok (path, table))

    insert-RoutesAgree :
        (path name : Bytes) (table : DispatchTable H) (tables : Map Bytes (DispatchTable H))
        (names : Map Bytes Bytes)
        → service_table to_lowercase r handlers auth_bypass default_handler name ≡ ok (path, table)
        → RoutesAgree tables names
        → RoutesAgree (insert path table tables) (insert path name names)
    insert-RoutesAgree path name table tables names made all q found h =
        elim (Bool-cases (path == q)) [
          | inl here ↦
              let same_path : path ≡ q = (str_beq_iff path q).0 here in
              let same_table : table ≡ found = ground (arith, lookup-insert path q table tables) in
              (
                name,
                ground (arith, lookup-insert path q name names),
                rw (← same_path, ← same_table) made,
              )
          | inr elsewhere ↦
              let (n, at, made') =
                all q found (ground (arith, lookup-insert path q table tables)) in
              (n, ground (arith, lookup-insert path q name names), made')
        ]

    service_tables-RoutesAgree :
        (services : List Bytes) (tables tables' : Map Bytes (DispatchTable H))
        (names names' : Map Bytes Bytes)
        → RoutesAgree tables names
        → service_tables to_lowercase r handlers auth_bypass default_handler services tables names
          ≡ ok (tables', names')
        → RoutesAgree tables' names'
    unfolding service_tables
    service_tables-RoutesAgree [] tables tables' names names' all h =
        let a : tables ≡ tables' = ground arith in
        let b : names ≡ names' = ground arith in rw (← a, ← b) all
    service_tables-RoutesAgree (name ∷ rest) tables tables' names names' all h =
        let ((path, table), made, h) =
          >>=-eq-ok (service_table to_lowercase r handlers auth_bypass default_handler name) _ h in
        service_tables-RoutesAgree rest (insert path table tables) tables' (insert path name names)
          names' (insert-RoutesAgree path name table tables names made all) h

    -- When the tables of a server with several services are built, every route has the
    -- routing table of the service that the route is named for, and every registered
    -- handler is named after an operation of some service.
    pub routes_agree :
        (services ops : List Bytes) (first : DispatchTable H) (tables : Map Bytes (DispatchTable H))
        (names : Map Bytes Bytes)
        → all_service_ops r.definition services ≡ ok ops
        → build_multi to_lowercase r handlers auth_bypass default_handler services
          ≡ ok (first, tables, names)
        → RoutesAgree tables names × AllNamed (contains ops) handlers
    unfolding build_multi lookup
    routes_agree services ops first tables names o h =
        let (ops', o', h) = >>=-eq-ok (all_service_ops r.definition services) _ h in
        let (_, known, h) = >>=-eq-ok (check_known ops' handlers) _ h in
        let ((tables', names'), made, h) =
          >>=-eq-ok
            (service_tables to_lowercase r handlers auth_bypass default_handler services [] []) _
            h in
        let same_ops : ops' ≡ ops = cc in
        let a : tables' ≡ tables = ground arith in
        let b : names' ≡ names = ground arith in
        (
          rw (← a, ← b)
              (service_tables-RoutesAgree services [] tables' [] names'
                (λ p t e. absurd (ground arith)) made),
          rw (← same_ops) (check_known-AllNamed ops' handlers known),
        )

    -- Of two services with the same route the second has it and the first is not served,
    -- though the tables are built without an error.
    pub route_taken_over :
        (path one two : Bytes) (a b : DispatchTable H)
        → service_table to_lowercase r handlers auth_bypass default_handler one ≡ ok (path, a)
        → service_table to_lowercase r handlers auth_bypass default_handler two ≡ ok (path, b)
        → service_tables to_lowercase r handlers auth_bypass default_handler (one ∷ two ∷ []) [] []
          ≡ ok ((path, b) ∷ [], (path, two) ∷ [])
    unfolding service_tables insert
    route_taken_over path one two a b e f = ground (arith, str_beq_iff path path)
