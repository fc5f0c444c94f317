-- ===== src/Wsdl/Imports.antt =====
-- The resolution of imports ends (src/wsdl/resolver.rs).
use soap_server.Prelude.{
  ℕ, zero, suc, ◌≤◌, ◌<◌, ◌≡◌, ◌≢◌, sym, ◌∙◌, subst, ap, arith, Bytes, true, false, Bool-cases, inl,
  inr, Option, none, some, List, [], ◌∷◌, contains, insert_set, str_eq, Result, ok, fresh, Grows,
  fresh-Grows, insert_set-Grows, fresh-insert_set,
}
use soap_server.Prelude.Run.{Run, >>=-ne-none, >>=-eq-done, done-eq, done-snd}
use soap_server.Xml.Dom.{Node}
use soap_server.Wsdl.Definitions.{WsdlImport, WsdlDefinition}
use soap_server.Wsdl.Resolved.{ResolvedWsdl}
use soap_server.Wsdl.Parse.Names.{WsdlError}
use soap_server.Wsdl.Parse.Document.{parse_wsdl}
use soap_server.Wsdl.Resolve.{
  WsdlLoader, Accumulated, import_document, resolve_import, resolve_imports, parse_inline,
  resolve_partial, resolve_inline, resolve_schemas, resolve_wsdl_inner,
}

abbrev Inner : Type 0
Inner = Bytes → Accumulated → Run WsdlError (ResolvedWsdl × Accumulated)

-- A call that succeeds has visited all that was visited before.
abbrev Remembers : Inner → Type 0
Remembers inner =
    (input : Bytes) (acc : Accumulated) (r : ResolvedWsdl) (next : Accumulated)
    → inner input acc ≡ some (ok (r, next))
    → Grows acc.visited next.visited

module _ (load : WsdlLoader) (inner : Inner) (grows : Remembers inner) where
  import_document-Grows :
      (location : Bytes) (root : WsdlDefinition) (acc : Accumulated) {d : WsdlDefinition}
      {next : Accumulated}
      → import_document load inner location root acc ≡ some (ok (d, next))
      → Grows acc.visited next.visited
  import_document-Grows location root acc h k seen =
      let (content, _, h') = >>=-eq-done (some (load location)) _ h in
      let ((imported, acc'), called, result) = >>=-eq-done (inner content _) _ h' in
      subst (λ (x : Accumulated). contains x.visited k ≡ true) (done-snd result)
        (grows content _ imported acc' called k (insert_set-Grows location acc.visited k seen))

  resolve_import-Grows :
      (location : Option Bytes) (root : WsdlDefinition) (acc : Accumulated) {d : WsdlDefinition}
      {next : Accumulated}
      → resolve_import load inner location root acc ≡ some (ok (d, next))
      → Grows acc.visited next.visited
  unfolding resolve_import
  resolve_import-Grows none root acc {d} {next} h k seen =
      subst (λ (x : Accumulated). contains x.visited k ≡ true) (done-snd h) seen
  resolve_import-Grows (some location) root acc {d} {next} h k seen =
      elim (Bool-cases (contains acc.visited location)) [
        | inl old ↦
            let same : acc ≡ next = ground arith in
            subst (λ (x : Accumulated). contains x.visited k ≡ true) same seen
        | inr unseen ↦
            let h' : import_document load inner location root acc ≡ some (ok (d, next)) =
              ground arith in
            import_document-Grows location root acc h' k seen
      ]

  resolve_imports-Grows :
      (imports : List WsdlImport) (root : WsdlDefinition) (acc : Accumulated) {d : WsdlDefinition}
      {next : Accumulated}
      → resolve_imports load inner imports root acc ≡ some (ok (d, next))
      → Grows acc.visited next.visited
  unfolding resolve_imports
  resolve_imports-Grows [] root acc {d} {next} h k seen =
      subst (λ (x : Accumulated). contains x.visited k ≡ true) (done-snd h) seen
  resolve_imports-Grows (import ∷ imports) root acc h k seen =
      let ((merged, acc'), first, rest) =
        >>=-eq-done (resolve_import load inner import.location root acc) _ h in
      resolve_imports-Grows imports merged acc' rest k
        (resolve_import-Grows import.location root acc first k seen)

-- A loader that has documents only at some locations.
abbrev pub OnlyAt : WsdlLoader → List Bytes → Type 0
OnlyAt load ls = (l content : Bytes) → load l ≡ ok content → contains ls l ≡ true

-- Enough fuel for a call that finds fewer than `n` of the locations unvisited.
abbrev Ends : List Bytes → Inner → ℕ → Type 0
Ends ls inner n =
    (input : Bytes) (acc : Accumulated) → fresh ls acc.visited < n → inner input acc ≢ none

module _ (load : WsdlLoader) (ls : List Bytes) (only : OnlyAt load ls) (inner : Inner)
    (grows : Remembers inner) (n : ℕ) (ends : Ends ls inner n) where
  import_document-ne-none :
      (location : Bytes) (root : WsdlDefinition) (acc : Accumulated)
      → contains acc.visited location ≡ false
      → fresh ls acc.visited ≤ n
      → import_document load inner location root acc ≢ none
  import_document-ne-none location root acc unseen bound =
      >>=-ne-none (some (load location)) _ (λ p. cc)
        (λ content loaded.
          let known = only location content (cc loaded) in
          let less = fresh-insert_set ls acc.visited location known unseen in
          >>=-ne-none (inner content _) _
            (ends content (record acc { visited = insert_set location acc.visited }) (omega arith))
            (λ found called. λ p. cc))

  resolve_import-ne-none :
      (location : Option Bytes) (root : WsdlDefinition) (acc : Accumulated)
      → fresh ls acc.visited ≤ n
      → resolve_import load inner location root acc ≢ none
  unfolding resolve_import
  resolve_import-ne-none none root acc bound = λ p. cc
  resolve_import-ne-none (some location) root acc bound =
      elim (Bool-cases (contains acc.visited location)) [
        | inl seen ↦ rw seen (λ p. cc)
        | inr unseen ↦ rw unseen (import_document-ne-none location root acc unseen bound)
      ]

  resolve_imports-ne-none :
      (imports : List WsdlImport) (root : WsdlDefinition) (acc : Accumulated)
      → fresh ls acc.visited ≤ n
      → resolve_imports load inner imports root acc ≢ none
  unfolding resolve_imports
  resolve_imports-ne-none [] root acc bound = λ p. cc
  resolve_imports-ne-none (import ∷ imports) root acc bound =
      >>=-ne-none (resolve_import load inner import.location root acc) _
        (resolve_import-ne-none import.location root acc bound)
        (λ (merged, next) first.
          let fewer =
            fresh-Grows ls acc.visited next.visited
              (resolve_import-Grows load inner grows import.location root acc first) in
          resolve_imports-ne-none imports merged next (omega arith))

module _ (load : WsdlLoader) (read : Bytes → Result Bytes Node) (utf8_message : Bytes → Bytes)
    (schemas_fuel types_fuel groups_fuel : ℕ) where
  abbrev inline : Bytes → Accumulated → Run WsdlError Accumulated
  inline = resolve_inline load read utf8_message schemas_fuel types_fuel groups_fuel

  resolve_inline-visited :
      (text : Bytes) (acc : Accumulated) {next : Accumulated}
      → inline text acc ≡ some (ok next)
      → next.visited ≡ acc.visited
  unfolding resolve_inline
  resolve_inline-visited text acc h =
      let (raw, _, h') = >>=-eq-done (parse_inline read text) _ h in
      let (found, _, result) =
        >>=-eq-done
          (resolve_partial load read utf8_message schemas_fuel types_fuel groups_fuel raw
            acc.already_loaded_schemas)
          _ h' in
      sym (ap (λ (x : Accumulated). x.visited) (done-eq result))

  resolve_schemas-visited :
      (texts : List Bytes) (acc : Accumulated) {next : Accumulated}
      → resolve_schemas load read utf8_message schemas_fuel types_fuel groups_fuel texts acc
        ≡ some (ok next)
      → next.visited ≡ acc.visited
  unfolding resolve_schemas
  resolve_schemas-visited [] acc h = sym (ap (λ (x : Accumulated). x.visited) (done-eq h))
  resolve_schemas-visited (text ∷ texts) acc h =
      let (mid, first, rest) = >>=-eq-done (inline text acc) _ h in
      resolve_schemas-visited texts mid rest ∙ resolve_inline-visited text acc first

  module _ (inline_ends : (text : Bytes) (acc : Accumulated) → inline text acc ≢ none) where
    resolve_schemas-ne-none :
        (texts : List Bytes) (acc : Accumulated)
        → resolve_schemas load read utf8_message schemas_fuel types_fuel groups_fuel texts acc
          ≢ none
    unfolding resolve_schemas
    resolve_schemas-ne-none [] acc = λ p. cc
    resolve_schemas-ne-none (text ∷ texts) acc =
        >>=-ne-none (inline text acc) _ (inline_ends text acc)
          (λ next first. resolve_schemas-ne-none texts next)

  abbrev inner_at : ℕ → Inner
  inner_at = resolve_wsdl_inner load read utf8_message schemas_fuel types_fuel groups_fuel

  resolve_wsdl_inner-Remembers : (fuel : ℕ) → Remembers (inner_at fuel)
  unfolding resolve_wsdl_inner
  resolve_wsdl_inner-Remembers zero input acc r next h k seen = absurd (cc h)
  resolve_wsdl_inner-Remembers (suc fuel) input acc r next h k seen =
      let (d, _, h') = >>=-eq-done (some (parse_wsdl read utf8_message input)) _ h in
      let ((root, imported), resolved, h'') =
        >>=-eq-done (resolve_imports load (inner_at fuel) d.imports d acc) _ h' in
      let (all, schemas, result) =
        >>=-eq-done
          (resolve_schemas load read utf8_message schemas_fuel types_fuel groups_fuel
            root.types.schemas imported)
          _ h'' in
      subst (λ (x : Accumulated). contains x.visited k ≡ true) (done-snd result)
        (subst (λ v. contains v k ≡ true)
          (sym (resolve_schemas-visited root.types.schemas imported schemas))
          (resolve_imports-Grows load (inner_at fuel) (resolve_wsdl_inner-Remembers fuel) d.imports
            d acc resolved k seen))

  module _ (ls : List Bytes) (only : OnlyAt load ls)
      (inline_ends : (text : Bytes) (acc : Accumulated) → inline text acc ≢ none) where
    pub resolve_wsdl_inner-Ends : (fuel : ℕ) → Ends ls (inner_at fuel) fuel
    unfolding resolve_wsdl_inner
    resolve_wsdl_inner-Ends zero input acc h = absurd (omega arith)
    resolve_wsdl_inner-Ends (suc fuel) input acc h =
        let imports_end =
          resolve_imports-ne-none load ls only (inner_at fuel) (resolve_wsdl_inner-Remembers fuel)
            fuel (resolve_wsdl_inner-Ends fuel) in
        >>=-ne-none (some (parse_wsdl read utf8_message input)) _ (λ p. cc)
          (λ d parsed.
            >>=-ne-none (resolve_imports load (inner_at fuel) d.imports d acc) _
              (imports_end d.imports d acc (omega arith))
              (λ (root, imported) resolved.
                >>=-ne-none
                  (resolve_schemas load read utf8_message schemas_fuel types_fuel groups_fuel
                    root.types.schemas imported)
                  _ (resolve_schemas-ne-none inline_ends root.types.schemas imported)
                  (λ all schemas. λ p. cc)))
