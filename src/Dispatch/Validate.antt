-- ===== src/Dispatch/Validate.antt =====
-- `validate_request` and its helpers (src/dispatch.rs).
use soap_server.Prelude.{
  ℕ, zero, suc, Bytes, bytes, true, false, Option, none, some, List, [], ◌∷◌, ◌++◌, ltb, insert_set,
  contains, from_utf8, str_eq, if◌then◌else◌, Result, ok, err, map_err, ◌>>=◌,
}
use soap_server.Qname.{QName}
use soap_server.Xml.{Tag, start, empty, end_tag, Stream}
use soap_server.Fault.{Fallible, fail, sender_fault}
use soap_server.Xsd.Types.{
  XsdType, complex, simple, ComplexContent, sequence, all, choice, simple_content,
  complex_extension, complex_restriction, XsdElement, TypeRegistry, lookup_type, elements, fields,
  content,
}

abbrev pub required_name : XsdElement → List Bytes → List Bytes
required_name e rest = elim (ltb 0 (fields e).min_occurs) [
  | false ↦ rest
  | true ↦ elim (fields e).name [ none ↦ rest | some name ↦ name ∷ rest ]
]

abbrev pub required_names : List XsdElement → List Bytes
required_names [] = []
required_names (e ∷ es) = required_name e (required_names es)

unfoldable pub collect_required_from_content : ComplexContent → List Bytes
collect_required_from_content (sequence els) = required_names (elements els)
collect_required_from_content (all els) = required_names (elements els)
collect_required_from_content (choice els) = []
collect_required_from_content (complex_extension base c) = collect_required_from_content c
collect_required_from_content (complex_restriction base c) = collect_required_from_content c
collect_required_from_content ComplexContent.empty = []
collect_required_from_content (simple_content d) = []

unfoldable pub collect_required_element_names : XsdType → List Bytes
unfolding collect_required_from_content
collect_required_element_names (complex ct) = collect_required_from_content (content ct)
collect_required_element_names (simple st) = []

-- The message of a name that is no UTF-8; its text, from `Utf8Error`, is an argument.
module _ (utf8_message : Bytes → Bytes) where
  abbrev local_of : Tag → Result Bytes Bytes
  local_of tag = elim (from_utf8 tag.local_name) [
    | none ↦ err (utf8_message tag.local_name)
    | some name ↦ ok name
  ]

  -- The loop of `parse_child_element_names`; `depth` counts the open elements.
  unfoldable pub children_from : Stream → ℕ → List Bytes → Result Bytes (List Bytes)
  children_from [] depth children = ok children
  children_from (err e ∷ rest) depth children = err e
  children_from (ok item ∷ rest) depth children = elim item.event [
    | start tag ↦ elim depth [
      | zero ↦ children_from rest 1 children
      | suc d ↦ elim d [
        | zero ↦ (do name ← local_of tag; children_from rest 2 (insert_set name children))
        | suc d' ↦ children_from rest (suc (suc (suc d'))) children
      ]
    ]
    | empty tag ↦ elim depth [
      | zero ↦ children_from rest 0 children
      | suc d ↦ elim d [
        | zero ↦ (do name ← local_of tag; children_from rest 1 (insert_set name children))
        | suc d' ↦ children_from rest (suc (suc d')) children
      ]
    ]
    | end_tag name ↦ elim depth [ zero ↦ ok children | suc d ↦ children_from rest d children ]
    | _ ↦ children_from rest depth children
  ]

  unfoldable pub parse_child_element_names : Stream → Result Bytes (List Bytes)
  parse_child_element_names events = children_from events 0 []

  -- The loop over the required names.
  unfoldable pub check_required : List Bytes → List Bytes → Fallible (Unit {0})
  check_required present [] = ok tt
  check_required present (name ∷ names) =
      if contains present name
      then check_required present names
      else fail
          (bytes "Schema validation failed: required element '" ++ name ++ bytes "' is missing")

  abbrev pub check_body : Stream → List Bytes → Fallible (Unit {0})
  check_body body [] = ok tt
  check_body body (name ∷ names) = do
    present ←
        map_err (λ e. sender_fault (bytes "Schema validation failed: malformed XML: " ++ e))
          (parse_child_element_names body)
    check_required present (name ∷ names)

  abbrev pub check_type : Stream → Option XsdType → Fallible (Unit {0})
  check_type body none = ok tt
  check_type body (some ty) = check_body body (collect_required_element_names ty)

  -- The body is given as the events that quick-xml reads from it.
  unfoldable pub validate_request : Stream → TypeRegistry → Option QName → Fallible (Unit {0})
  validate_request body registry none = ok tt
  validate_request body registry (some name) = check_type body (lookup_type registry name)
