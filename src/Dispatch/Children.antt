-- ===== src/Dispatch/Children.antt =====
-- Structural validation against the tree of the body.
use soap_server.Prelude.{
  ℕ, suc, ◌≡◌, refl, ◌∙◌, sym, ◌↔◌, arith, Bytes, Bool, true, false, ◌||◌, Bool-cases, inl, inr,
  Option, none, some, List, [], ◌∷◌, All, contains, insert_set, contains-insert_set, str_eq, ◌==◌,
  from_utf8, ok,
}
use soap_server.Qname.{QName}
use soap_server.Xml.{Stream, end_tag}
use soap_server.Xsd.Types.{XsdType, TypeRegistry, lookup_type}
use soap_server.Envelope.Tree.{
  Name, Node, element, void, chars, section, entity, Nodes, nil, cons, at, events, events_all,
}
use soap_server.Dispatch.Validate.{
  children_from, parse_child_element_names, check_body, check_type, check_required,
  collect_required_element_names, validate_request,
}

-- Every direct child element has a name that is UTF-8; its deeper elements are not looked at.
abbrev pub HasNames : Nodes → Type 0
HasNames nil = Unit {0}
HasNames (cons (element n kids) ns) = (from_utf8 n.local_name ≡ some n.local_name) × HasNames ns
HasNames (cons (void n) ns) = (from_utf8 n.local_name ≡ some n.local_name) × HasNames ns
HasNames (cons _ ns) = HasNames ns

-- Some direct child element has the local name.
abbrev pub has_child : Nodes → Bytes → Bool
has_child nil name = false
has_child (cons (element n kids) ns) name = n.local_name == name || has_child ns name
has_child (cons (void n) ns) name = n.local_name == name || has_child ns name
has_child (cons _ ns) name = has_child ns name

module _ (utf8_message : Bytes → Bytes) where
  mutual
    unfolding events children_from

    skip-events :
        (n : Node) (rest : Stream) (d : ℕ) (seen : List Bytes)
        → children_from utf8_message (events n rest) (suc (suc d)) seen
          ≡ children_from utf8_message rest (suc (suc d)) seen
    skip-events (element n kids) rest d seen =
        skip-events_all kids (ok (at n.namespace (end_tag n.qualified)) ∷ rest) (suc d) seen
    skip-events (void n) rest d seen = refl
    skip-events (chars t) rest d seen = refl
    skip-events (section t) rest d seen = refl
    skip-events (entity t) rest d seen = refl

    skip-events_all :
        (ns : Nodes) (rest : Stream) (d : ℕ) (seen : List Bytes)
        → children_from utf8_message (events_all ns rest) (suc (suc d)) seen
          ≡ children_from utf8_message rest (suc (suc d)) seen
    skip-events_all nil rest d seen = refl
    skip-events_all (cons n ns) rest d seen =
        skip-events n (events_all ns rest) d seen ∙ skip-events_all ns rest d seen

  -- The names collected below the root are those of its child elements.
  children-events :
      (ns : Nodes) (e : Bytes) (m : Option Bytes) (seen : List Bytes)
      → HasNames ns
      → (out : List Bytes) × (children_from utf8_message
            (events_all ns (ok (at m (end_tag e)) ∷ []))
            1
            seen
          ≡ ok out)
        × ((name : Bytes) → contains out name ≡ (has_child ns name || contains seen name))
  unfolding events children_from
  children-events nil e m seen h = (seen, refl, λ name. refl)
  children-events (cons (element n kids) ns) e m seen (u, h) =
      let after =
        ok (at n.namespace (end_tag n.qualified)) ∷ events_all ns (ok (at m (end_tag e)) ∷ []) in
      let skipped = skip-events_all kids after 0 (insert_set n.local_name seen) in
      let (out, read, same) = children-events ns e m (insert_set n.local_name seen) h in
      (
        out,
        ground arith,
        λ name. ground (arith, same name, contains-insert_set n.local_name name seen),
      )
  children-events (cons (void n) ns) e m seen (u, h) =
      let (out, read, same) = children-events ns e m (insert_set n.local_name seen) h in
      (
        out,
        ground arith,
        λ name. ground (arith, same name, contains-insert_set n.local_name name seen),
      )
  children-events (cons (chars t) ns) e m seen h = children-events ns e m seen h
  children-events (cons (section t) ns) e m seen h = children-events ns e m seen h
  children-events (cons (entity t) ns) e m seen h = children-events ns e m seen h

  -- The names found are all present, or the body is refused.
  check_required_iff :
      (present names : List Bytes)
      → (check_required utf8_message present names ≡ ok tt)
        ↔ All (λ name. contains present name ≡ true) names
  unfolding check_required
  check_required_iff present [] = (λ _. tt, λ _. refl)
  check_required_iff present (name ∷ names) = elim (Bool-cases (contains present name)) [
    | inl there ↦ (
      λ h. (there, (check_required_iff present names).0 (ground arith)),
      λ (_, h). (let rest = (check_required_iff present names).1 h in ground arith),
    )
    | inr missing ↦ (λ h. absurd (ground arith), λ (h, _). absurd (ground arith))
  ]

  abbrev pub HasRequired : Option XsdType → Nodes → Type 0
  HasRequired none kids = Unit {0}
  HasRequired (some ty) kids =
      All (λ name. has_child kids name ≡ true) (collect_required_element_names ty)

  All-same :
      (f g : Bytes → Bool)
      → ((name : Bytes) → f name ≡ g name)
      → (names : List Bytes) → All (λ name. f name ≡ true) names ↔ All (λ name. g name ≡ true) names
  All-same f g same [] = (λ _. tt, λ _. tt)
  All-same f g same (name ∷ names) =
      let (to, from) = All-same f g same names in
      (λ (h, hs). (sym (same name) ∙ h, to hs), λ (h, hs). (same name ∙ h, from hs))

  or_none : (b : Bool) (c : Bytes) → (b || contains [] c) ≡ b
  unfolding contains
  or_none b c = ground arith

  check_body_iff :
      (n : Name) (kids : Nodes) (names : List Bytes)
      → HasNames kids
      → (check_body utf8_message (events (element n kids) []) names ≡ ok tt)
        ↔ All (λ name. has_child kids name ≡ true) names
  unfolding parse_child_element_names events children_from
  check_body_iff n kids [] h = (λ _. tt, λ _. refl)
  check_body_iff n kids (name ∷ names) h =
      let (out, read, same) = children-events kids n.qualified n.namespace [] h in
      let all_there = check_required_iff out (name ∷ names) in
      let there =
        All-same (contains out) (has_child kids) (λ c. same c ∙ or_none (has_child kids c) c)
          (name ∷ names) in
      rw read (λ h. there.0 (all_there.0 h), λ h. all_there.1 (there.1 h))

  -- A body given as a tree whose child elements have UTF-8 names is accepted exactly if its
  -- type is unknown or its root has a child element of every required name of the type,
  -- however deep its subtrees.
  pub valid_iff :
      (n : Name) (kids : Nodes) (registry : TypeRegistry) (q : QName)
      → HasNames kids
      → (validate_request utf8_message (events (element n kids) []) registry (some q) ≡ ok tt)
        ↔ HasRequired (lookup_type registry q) kids
  unfolding validate_request
  valid_iff n kids registry q h =
      elim (lookup_type registry q)
        as (λ found.
          (check_type utf8_message (events (element n kids) []) found ≡ ok tt)
          ↔ HasRequired found kids) [
            | none ↦ (λ _. tt, λ _. refl)
            | some ty ↦ check_body_iff n kids (collect_required_element_names ty) h
          ]
