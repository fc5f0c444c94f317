-- ===== src/Xsd/Ends.antt =====
-- The collection of schemas ends (src/xsd/resolver.rs).
use soap_server.Prelude.{
  ℕ, zero, suc, ◌+◌, ◌≤◌, ◌<◌, ◌≡◌, ◌≢◌, subst, arith, Bytes, true, false, Bool-cases, inl, inr,
  Option, none, some, List, [], ◌∷◌, length, contains, str_eq, Result, ok, Result-cases, >>=-eq-ok,
  ok-eq, fresh, fresh-le-length, fresh-insert_set,
}
use soap_server.Xml.Dom.{Node}
use soap_server.Xsd.Resolve.{FlatTypeMap, SchemaError}
use soap_server.Xsd.Parse.Schema.{SchemaImport, SchemaInclude, RawSchema}
use soap_server.Xsd.Collect.{
  Pending, merge_schema, empty_map, parse_loaded, load_new, load_location, load_import,
  load_imports, load_includes, load_references, collect, collect_all_schemas,
}

-- A loader that has schemas only at some locations.
abbrev pub OnlyAt : (Option Bytes → Bytes → Result SchemaError Bytes) → List Bytes → Type 0
OnlyAt load ls =
    (namespace : Option Bytes) (l xml : Bytes) → load namespace l ≡ ok xml → contains ls l ≡ true

module _ (load : Option Bytes → Bytes → Result SchemaError Bytes) (read : Bytes → Result Bytes Node)
    (ls : List Bytes) (only : OnlyAt load ls) where
  -- The schemas in the queue, and the locations that are not loaded yet.
  abbrev work : Pending → ℕ
  work p = length p.queue + fresh ls p.already_loaded

  load_new-work :
      (namespace : Option Bytes) (location : Bytes) (p : Pending) {next : Pending}
      → contains p.already_loaded location ≡ false
      → load_new load read namespace location p ≡ ok next
      → work next ≤ work p
  load_new-work namespace location p unseen h =
      let (xml, loaded, h') = >>=-eq-ok (load namespace location) _ h in
      let (raw, parsed, h'') = >>=-eq-ok (parse_loaded load read xml) _ h' in
      let less =
        fresh-insert_set ls p.already_loaded location (only namespace location xml loaded) unseen in
      subst (λ (x : Pending). work x ≤ work p) (ok-eq h'') (omega arith)

  load_location-work :
      (namespace : Option Bytes) (location : Bytes) (p : Pending) {next : Pending}
      → load_location load read namespace location p ≡ ok next
      → work next ≤ work p
  unfolding load_location
  load_location-work namespace location p {next} h =
      elim (Bool-cases (contains p.already_loaded location)) [
        | inl seen ↦
            let same : p ≡ next = ground arith in
            subst (λ (x : Pending). work x ≤ work p) same (omega arith)
        | inr unseen ↦
            let h' : load_new load read namespace location p ≡ ok next = ground arith in
            load_new-work namespace location p unseen h'
      ]

  load_import-work :
      (namespace location : Option Bytes) (p : Pending) {next : Pending}
      → load_import load read namespace location p ≡ ok next
      → work next ≤ work p
  load_import-work namespace none p h =
      subst (λ (x : Pending). work x ≤ work p) (ok-eq h) (omega arith)
  load_import-work namespace (some location) p h = load_location-work namespace location p h

  load_imports-work :
      (imports : List SchemaImport) (p : Pending) {next : Pending}
      → load_imports load read imports p ≡ ok next
      → work next ≤ work p
  unfolding load_imports
  load_imports-work [] p h = subst (λ (x : Pending). work x ≤ work p) (ok-eq h) (omega arith)
  load_imports-work (import ∷ imports) p h =
      let (mid, first, rest) =
        >>=-eq-ok (load_import load read import.namespace import.schema_location p) _ h in
      omega (
        arith,
        load_import-work import.namespace import.schema_location p first,
        load_imports-work imports mid rest,
      )

  load_includes-work :
      (includes : List SchemaInclude) (p : Pending) {next : Pending}
      → load_includes load read includes p ≡ ok next
      → work next ≤ work p
  unfolding load_includes
  load_includes-work [] p h = subst (λ (x : Pending). work x ≤ work p) (ok-eq h) (omega arith)
  load_includes-work (include ∷ includes) p h =
      let (mid, first, rest) =
        >>=-eq-ok (load_location load read none include.schema_location p) _ h in
      omega (
        arith,
        load_location-work none include.schema_location p first,
        load_includes-work includes mid rest,
      )

  load_references-work :
      (schema : RawSchema) (p : Pending) {next : Pending}
      → load_references load read schema p ≡ ok next
      → work next ≤ work p
  load_references-work schema p h =
      let (mid, first, rest) = >>=-eq-ok (load_imports load read schema.imports p) _ h in
      omega (
        arith,
        load_imports-work schema.imports p first,
        load_includes-work schema.includes mid rest,
      )

  collect-ne-none :
      (fuel : ℕ) (queue : List RawSchema) (loaded : List Bytes) (flat : FlatTypeMap)
      → length queue + fresh ls loaded < fuel
      → collect load read fuel queue loaded flat ≢ none
  unfolding collect
  collect-ne-none zero queue loaded flat h = absurd (omega arith)
  collect-ne-none (suc fuel) [] loaded flat h = λ p. cc
  collect-ne-none (suc fuel) (schema ∷ queue) loaded flat h =
      let start : Pending = record { queue = queue; already_loaded = loaded } in
      elim (Result-cases (load_references load read schema start)) [
        | inr (e, failed) ↦ rw (failed, collect) (λ p. cc)
        | inl (next, done) ↦
            let less = load_references-work schema start done in
            rw (done, collect)
              (collect-ne-none fuel next.queue next.already_loaded (merge_schema schema flat)
                (omega arith))
      ]

  pub collect_all_schemas-ne-none :
      (fuel : ℕ) (raw : RawSchema) (loaded : List Bytes)
      → length ls + 1 < fuel
      → collect_all_schemas load read fuel raw loaded ≢ none
  unfolding collect_all_schemas
  collect_all_schemas-ne-none fuel raw loaded h =
      let bound = fresh-le-length ls loaded in
      collect-ne-none fuel (raw ∷ []) loaded empty_map (omega arith)
