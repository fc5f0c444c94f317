-- ===== src/Xsd/Cycles.antt =====
-- The resolution of types ends, by its detection of cycles (src/xsd/resolver.rs).
use soap_server.Prelude.{
  ℕ, zero, suc, ◌<◌, ◌≡◌, ◌≢◌, refl, ap, arith, Option, none, some, Option-cases, Bool-cases, inl,
  inr, List, [], ◌∷◌, length, Map, lookup, keys, contains-keys, length-keys, contains, insert_set,
  false, ok, err, fresh, fresh-le-length, fresh-insert_set,
}
use soap_server.Prelude.Run.{>>=-ne-none}
use soap_server.Qname.{QName, qname_eq}
use soap_server.Xsd.Types.{
  XsdType, complex, simple, ComplexType, complex_type, ComplexContent, sequence, all, choice, empty,
  simple_content, complex_extension, complex_restriction, elements, XsdElement, InlineType,
  no_inline, inline, inline_type, TypeRegistry, new, lookup_type,
}
use soap_server.Xsd.Resolve.{
  FlatTypeMap, Progress, Step, lift, resolve_raw, resolve_attributes, resolve_content,
  resolve_complex_type, resolve_named_type,
}
use soap_server.Xsd.Registry.{
  register_simple, complex_qnames, register_resolved, resolve_one, resolve_all, register_attempt,
  register_inline, register_element, register_elements, build_registry,
}
use soap_server.Xsd.Layers.{Layered, elements-ne-none, attributes-ne-none}
use soap_server.Xsd.Restores.{and_then-ne-none, lift-ne-none, Restores, resolve_named_type-Restores}

module _ (flat : FlatTypeMap) (groups_fuel : ℕ) where
  abbrev named : ℕ → QName → Progress → Step ComplexType
  named = resolve_named_type flat groups_fuel

  module _ (depth : ℕ) (layers : Layered flat depth) (deep : depth < groups_fuel) where
    -- Names that the flat map knows and that are not being resolved.
    abbrev left : Progress → ℕ
    left p = fresh (keys flat.types) p.resolving

    module _ (f : QName → Progress → Step ComplexType) (n : ℕ)
        (restores : (name : QName) → Restores (f name))
        (ends : (name : QName) (p : Progress) → left p < n → f name p ≢ none) where
      resolve_content-ne-none :
          (c : ComplexContent) (p : Progress)
          → left p < n
          → resolve_content flat groups_fuel f c p ≢ none
      unfolding resolve_content
      resolve_content-ne-none (complex_extension base child) p h =
          and_then-ne-none (f base p) _ (ends base p h) (λ base_ct p' first.
            let same = ap (λ r. fresh (keys flat.types) r) (restores base p base_ct p' first) in
            and_then-ne-none (resolve_content flat groups_fuel f child p') _
              (resolve_content-ne-none child p' (omega arith)) (λ c' p'' second. λ q. cc))
      resolve_content-ne-none (complex_restriction base child) p h =
          resolve_content-ne-none child p h
      resolve_content-ne-none (sequence els) p h =
          let found = elements-ne-none flat depth layers groups_fuel (elements els) deep in
          ground arith
      resolve_content-ne-none (all els) p h =
          let found = elements-ne-none flat depth layers groups_fuel (elements els) deep in
          ground arith
      resolve_content-ne-none (choice els) p h =
          let found = elements-ne-none flat depth layers groups_fuel (elements els) deep in
          ground arith
      resolve_content-ne-none (simple_content scd) p h = λ q. cc
      resolve_content-ne-none empty p h = λ q. cc

      resolve_complex_type-ne-none :
          (ct : ComplexType) (p : Progress)
          → left p < n
          → resolve_complex_type flat groups_fuel f ct p ≢ none
      unfolding resolve_complex_type
      resolve_complex_type-ne-none (complex_type name c attrs) p h =
          and_then-ne-none (resolve_content flat groups_fuel f c p) _
            (resolve_content-ne-none c p h)
            (λ resolved p' first.
              and_then-ne-none (lift (resolve_attributes flat groups_fuel attrs) p') _
                (lift-ne-none _ p' (attributes-ne-none flat depth layers groups_fuel attrs deep))
                (λ attributes p'' second. λ q. cc))

      resolve_raw-ne-none :
          (name : QName) (ty : Option XsdType) (p : Progress)
          → lookup name flat.types ≡ ty
          → contains p.resolving name ≡ false
          → left p < suc n
          → resolve_raw flat groups_fuel f name ty p ≢ none
      resolve_raw-ne-none name none p found unseen h = λ q. cc
      resolve_raw-ne-none name (some (simple st)) p found unseen h = λ q. cc
      resolve_raw-ne-none name (some (complex raw)) p found unseen h =
          let start : Progress = record p { resolving = insert_set name p.resolving } in
          let known = contains-keys name flat.types (complex raw) found in
          let less = fresh-insert_set (keys flat.types) p.resolving name known unseen in
          and_then-ne-none (resolve_complex_type flat groups_fuel f raw start) _
            (resolve_complex_type-ne-none raw start (omega arith)) (λ ct p' first. λ q. cc)

    resolve_named_type-ne-none :
        (fuel : ℕ) (name : QName) (p : Progress) → left p < fuel → named fuel name p ≢ none
    unfolding resolve_named_type
    resolve_named_type-ne-none zero name p h = absurd (omega arith)
    resolve_named_type-ne-none (suc fuel) name p h = elim (Option-cases (lookup name p.resolved)) [
      | inr (ct, known) ↦ ground arith
      | inl unknown ↦ elim (Bool-cases (contains p.resolving name)) [
        | inl cycle ↦ ground arith
        | inr unseen ↦
            let raw =
              resolve_raw-ne-none (named fuel) fuel
                (resolve_named_type-Restores flat groups_fuel fuel)
                (resolve_named_type-ne-none fuel) name (lookup name flat.types) p refl unseen h in
            ground arith
      ]
    ]

    resolve_one-ne-none :
        (fuel : ℕ) (name : QName) (resolved : Map QName ComplexType)
        → length flat.types < fuel
        → resolve_one fuel groups_fuel flat name resolved ≢ none
    resolve_one-ne-none fuel name resolved h = elim (Option-cases (lookup name resolved)) [
      | inr (ct, known) ↦ ground arith
      | inl unknown ↦
          let start : Progress = record { resolved = resolved; resolving = [] } in
          let few = fresh-le-length (keys flat.types) [] in
          let count = length-keys flat.types in
          let found = resolve_named_type-ne-none fuel name start (omega arith) in
          rw (unknown, resolve_one)
            (>>=-ne-none (named fuel name start) _ found (λ (ct, p) first. λ q. cc))
    ]

    resolve_all-ne-none :
        (fuel : ℕ) (names : List QName) (resolved : Map QName ComplexType)
        → length flat.types < fuel
        → resolve_all fuel groups_fuel flat names resolved ≢ none
    unfolding resolve_all
    resolve_all-ne-none fuel [] resolved h = λ q. cc
    resolve_all-ne-none fuel (name ∷ names) resolved h =
        >>=-ne-none (resolve_one fuel groups_fuel flat name resolved) _
          (resolve_one-ne-none fuel name resolved h)
          (λ next first. resolve_all-ne-none fuel names next h)

    register_attempt-ne-none :
        (fuel : ℕ) (name : QName) (m : Step ComplexType) (r : TypeRegistry)
        → m ≢ none
        → register_attempt fuel groups_fuel flat name m r ≢ none
    register_attempt-ne-none fuel name none r h = absurd (h refl)
    register_attempt-ne-none fuel name (some (err e)) r h = λ q. cc
    register_attempt-ne-none fuel name (some (ok (ct, p))) r h = λ q. cc

    register_inline-ne-none :
        (fuel : ℕ) (name : QName) (ty : InlineType) (r : TypeRegistry)
        → length flat.types < fuel
        → register_inline fuel groups_fuel flat name ty r ≢ none
    register_inline-ne-none fuel name no_inline r h = λ q. cc
    register_inline-ne-none fuel name (inline (simple st)) r h = λ q. cc
    register_inline-ne-none fuel name (inline (complex raw)) r h =
        let start : Progress = record { resolved = []; resolving = [] } in
        let few = fresh-le-length (keys flat.types) [] in
        let count = length-keys flat.types in
        register_attempt-ne-none fuel name
          (resolve_complex_type flat groups_fuel (named fuel) raw start) r
          (resolve_complex_type-ne-none (named fuel) fuel
            (resolve_named_type-Restores flat groups_fuel fuel) (resolve_named_type-ne-none fuel)
            raw start (omega arith))

    register_elements-ne-none :
        (fuel : ℕ) (els : Map QName XsdElement) (r : TypeRegistry)
        → length flat.types < fuel
        → register_elements fuel groups_fuel flat els r ≢ none
    unfolding register_elements
    register_elements-ne-none fuel [] r h = λ q. cc
    register_elements-ne-none fuel ((name, el) ∷ els) r h =
        >>=-ne-none (register_element fuel groups_fuel flat name el r) _
          (elim (Option-cases (lookup_type r name)) [
            | inr (ty, known) ↦ rw (known, register_element) (λ q. cc)
            | inl unknown ↦
                rw (unknown, register_element)
                  (register_inline-ne-none fuel name (inline_type el) r h)
          ])
          (λ next first. register_elements-ne-none fuel els next h)

    -- The registry of a flat map of schemas is built, or an error is returned, whatever
    -- cycles its types have, with types fuel above the number of types, if its groups and
    -- attribute groups are layered to a depth below the groups fuel: each refers only to
    -- names of smaller rank.
    pub build_registry_total :
        (fuel : ℕ) → length flat.types < fuel → build_registry fuel groups_fuel flat ≢ none
    unfolding build_registry
    build_registry_total fuel h =
        >>=-ne-none (resolve_all fuel groups_fuel flat (complex_qnames flat.types) []) _
          (resolve_all-ne-none fuel (complex_qnames flat.types) [] h)
          (λ resolved first.
            register_elements-ne-none fuel flat.elements
              (register_resolved resolved (register_simple flat.types new)) h)
