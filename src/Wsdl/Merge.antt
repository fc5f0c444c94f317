-- ===== src/Wsdl/Merge.antt =====
-- The merge of an imported document into the root (src/wsdl/resolver.rs), against an abstract view:
-- the union of two partial functions in which the first has precedence.
use mathlib.Core.Path.{fun_ext}
use soap_server.Prelude.{
  ◌≡◌, refl, sym, subst, arith, ap, ◌∙◌, Bytes, Option, none, some, List, [], ◌∷◌, Map, lookup,
  or_insert, Eq, str_eq, ◌==◌, if◌then◌else◌, ℕ, zero, suc, Result, ok, contains, Bool-cases, inl,
  inr,
}
use soap_server.Wsdl.Definitions.{WsdlImport, WsdlDefinition, Message, PortType, Binding, Service}
use soap_server.Prelude.Run.{Run, >>=-eq-done, done-fst}
use soap_server.Xml.Dom.{Node}
use soap_server.Wsdl.Resolved.{ResolvedWsdl}
use soap_server.Wsdl.Parse.Names.{WsdlError}
use soap_server.Wsdl.Parse.Document.{parse_wsdl}
use soap_server.Wsdl.Resolve.{
  WsdlLoader, Accumulated, merge_missing, merge_definition, import_document, resolve_import,
  resolve_imports, resolve_schemas, resolve_wsdl_inner, resolve_wsdl,
}

abbrev pub first_of {ℓ} : {A : Type ℓ} → Option A → Option A → Option A
first_of none o = o
first_of (some a) o = some a

-- What a document declares under a name.
abbrev pub Declared : Type 0
Declared = Option Message × Option PortType × Option Binding × Option Service

-- The abstract view of a document: no order of the entries, and none that another one hides.
abbrev pub view : WsdlDefinition → Bytes → Declared
view d k = (lookup k d.messages, lookup k d.port_types, lookup k d.bindings, lookup k d.services)

abbrev first_declared : Declared → Declared → Declared
first_declared (m, p, b, s) (m', p', b', s') =
    (first_of m m', first_of p p', first_of b b', first_of s s')

-- The union of two views, in which the first has precedence.
abbrev pub union : (Bytes → Declared) → (Bytes → Declared) → Bytes → Declared
union a b k = first_declared (a k) (b k)

module _ {ℓ κ} {K : Type ℓ} {V : Type κ} ⦃e : Eq K⦄ where
  lookup-or_insert :
      (key k : K) (value : V) (m : Map K V)
      → lookup k (or_insert key value m)
        ≡ first_of (lookup k m) (if key == k then some value else none)
  unfolding lookup or_insert
  lookup-or_insert key k value [] = refl
  lookup-or_insert key k value ((j, w) ∷ m) =
      ground
        (arith, e.beq_iff j key, e.beq_iff j k, e.beq_iff key k, lookup-or_insert key k value m)

  pub lookup-merge_missing :
      (k : K) (more m : Map K V)
      → lookup k (merge_missing more m) ≡ first_of (lookup k m) (lookup k more)
  unfolding lookup merge_missing
  lookup-merge_missing k [] m = ground arith
  lookup-merge_missing k ((j, w) ∷ more) m =
      ground (arith, lookup-merge_missing k more (or_insert j w m), lookup-or_insert j k w m)

-- The view of two documents merged, which maps a name to what is declared under it and forgets
-- the order of entries, is the union of the views of both, in which the root has precedence
-- over the imported document.
pub merge_definition-view :
    (imported root : WsdlDefinition)
    → view (merge_definition imported root) ≡ union (view root) (view imported)
unfolding merge_definition
merge_definition-view imported root = fun_ext (λ k. rw (
  lookup-merge_missing k imported.messages root.messages,
  lookup-merge_missing k imported.port_types root.port_types,
  lookup-merge_missing k imported.bindings root.bindings,
  lookup-merge_missing k imported.services root.services,
))

-- Every entry of one map is that of another.
abbrev pub Keeps : {V : Type 0} → Map Bytes V → Map Bytes V → Type 0
Keeps {V} m m' = (k : Bytes) (v : V) → lookup k m ≡ some v → lookup k m' ≡ some v

-- What a document says, another says too; only the entries of maps may be more.
pub record Extends (d d' : WsdlDefinition) : Type 0 where
  pub target_namespace : d'.target_namespace ≡ d.target_namespace
  pub imports : d'.imports ≡ d.imports
  pub types : d'.types ≡ d.types
  pub messages : Keeps d.messages d'.messages
  pub port_types : Keeps d.port_types d'.port_types
  pub bindings : Keeps d.bindings d'.bindings
  pub services : Keeps d.services d'.services

merge_missing-Keeps : {V : Type 0} (more m : Map Bytes V) → Keeps m (merge_missing more m)
merge_missing-Keeps more m k v h = rw (lookup-merge_missing k more m, h)

merge_definition-Extends :
    (imported root : WsdlDefinition) → Extends root (merge_definition imported root)
unfolding merge_definition
merge_definition-Extends imported root = record {
  target_namespace = refl;
  imports = refl;
  types = refl;
  messages = merge_missing-Keeps imported.messages root.messages;
  port_types = merge_missing-Keeps imported.port_types root.port_types;
  bindings = merge_missing-Keeps imported.bindings root.bindings;
  services = merge_missing-Keeps imported.services root.services;
}

Extends-refl : (d : WsdlDefinition) → Extends d d
Extends-refl d = record {
  target_namespace = refl;
  imports = refl;
  types = refl;
  messages = λ k v h. h;
  port_types = λ k v h. h;
  bindings = λ k v h. h;
  services = λ k v h. h;
}

Extends-trans : {a b c : WsdlDefinition} → Extends a b → Extends b c → Extends a c
Extends-trans p q = record {
  target_namespace = q.target_namespace ∙ p.target_namespace;
  imports = q.imports ∙ p.imports;
  types = q.types ∙ p.types;
  messages = λ k v h. q.messages k v (p.messages k v h);
  port_types = λ k v h. q.port_types k v (p.port_types k v h);
  bindings = λ k v h. q.bindings k v (p.bindings k v h);
  services = λ k v h. q.services k v (p.services k v h);
}

module _ (load : WsdlLoader)
    (inner : Bytes → Accumulated → Run WsdlError (ResolvedWsdl × Accumulated)) where
  resolve_import-Extends :
      (location : Option Bytes) (root : WsdlDefinition) (acc : Accumulated) {d : WsdlDefinition}
      {next : Accumulated}
      → resolve_import load inner location root acc ≡ some (ok (d, next))
      → Extends root d
  unfolding resolve_import
  resolve_import-Extends none root acc h =
      subst (λ x. Extends root x) (ground arith) (Extends-refl root)
  resolve_import-Extends (some location) root acc {d} {next} h =
      elim (Bool-cases (contains acc.visited location)) [
        | inl seen ↦ subst (λ x. Extends root x) (ground arith) (Extends-refl root)
        | inr unseen ↦
            let h' : import_document load inner location root acc ≡ some (ok (d, next)) =
              ground arith in
            let (imported_bytes, _, h'') = >>=-eq-done (some (load location)) _ h' in
            let ((imported, acc'), _, merged) = >>=-eq-done (inner imported_bytes _) _ h'' in
            subst (λ x. Extends root x) (cc merged)
              (merge_definition-Extends imported.definition root)
      ]

  resolve_imports-Extends :
      (imports : List WsdlImport) (root : WsdlDefinition) (acc : Accumulated) {d : WsdlDefinition}
      {next : Accumulated}
      → resolve_imports load inner imports root acc ≡ some (ok (d, next))
      → Extends root d
  unfolding resolve_imports
  resolve_imports-Extends [] root acc h =
      subst (λ x. Extends root x) (ground arith) (Extends-refl root)
  resolve_imports-Extends (import ∷ imports) root acc h =
      let ((merged, acc'), first, rest) =
        >>=-eq-done (resolve_import load inner import.location root acc) _ h in
      Extends-trans (resolve_import-Extends import.location root acc first)
        (resolve_imports-Extends imports merged acc' rest)

module _ (load : WsdlLoader) (read : Bytes → Result Bytes Node) (utf8_message : Bytes → Bytes)
    (schemas_fuel types_fuel groups_fuel : ℕ) where
  resolve_wsdl_inner-keeps_root :
      (fuel : ℕ) (input : Bytes) (acc : Accumulated) {r : ResolvedWsdl} {next : Accumulated}
      → resolve_wsdl_inner load read utf8_message schemas_fuel types_fuel groups_fuel fuel input acc
        ≡ some (ok (r, next))
      → (d : WsdlDefinition) × (parse_wsdl read utf8_message input ≡ ok d)
        × Extends d r.definition
        × (r.raw_bytes ≡ input)
  unfolding resolve_wsdl_inner
  resolve_wsdl_inner-keeps_root zero input acc h = cc
  resolve_wsdl_inner-keeps_root (suc fuel) input acc {r} h =
      let inner =
        resolve_wsdl_inner load read utf8_message schemas_fuel types_fuel groups_fuel fuel in
      let (d, parsed, h') = >>=-eq-done (some (parse_wsdl read utf8_message input)) _ h in
      let ((root, imported), resolved, h'') =
        >>=-eq-done (resolve_imports load inner d.imports d acc) _ h' in
      let (all, schemas, result) =
        >>=-eq-done
          (resolve_schemas load read utf8_message schemas_fuel types_fuel groups_fuel
            root.types.schemas imported)
          _ h'' in
      let same = sym (done-fst result) in
      (
        d,
        cc parsed,
        subst (λ x. Extends d x) (sym (ap (λ (x : ResolvedWsdl). x.definition) same))
            (resolve_imports-Extends load inner d.imports d acc resolved),
        ap (λ (x : ResolvedWsdl). x.raw_bytes) same,
      )

  -- A document that is resolved also parses; its target namespace, imports and schema texts
  -- and every message, port type, binding and service that it declares are those of the
  -- resolved definition, whatever the imported documents declare under the same names, and
  -- the bytes kept are its own.
  pub resolve_wsdl-keeps_root :
      (fuel : ℕ) (input : Bytes) (visited : List Bytes) {r : ResolvedWsdl}
      → resolve_wsdl load read utf8_message schemas_fuel types_fuel groups_fuel fuel input visited
        ≡ some (ok r)
      → (d : WsdlDefinition) × (parse_wsdl read utf8_message input ≡ ok d)
        × Extends d r.definition
        × (r.raw_bytes ≡ input)
  unfolding resolve_wsdl
  resolve_wsdl-keeps_root fuel input visited {r} h =
      let ((r', acc), resolved, result) = >>=-eq-done _ _ h in
      let same : r' ≡ r = cc result in
      subst
        (λ x.
          (d : WsdlDefinition) × (parse_wsdl read utf8_message input ≡ ok d)
          × Extends d x.definition
          × (x.raw_bytes ≡ input))
        same (resolve_wsdl_inner-keeps_root fuel input _ resolved)
