-- ===== src/Wsdl/Ports.antt =====
-- Rewriting the addresses of one service's ports (src/wsdl/resolver.rs).
use soap_server.Prelude.{
  ℕ, suc, ◌≡◌, refl, ◌∙◌, ap, arith, Bytes, bytes, Bool, true, false, Bool-cases, inl, inr, List,
  ◌∷◌, contains, str_eq, ◌==◌, ok,
}
use soap_server.Xml.{Tag, Event, start, empty, end_tag, text, cdata, general_ref, Stream}
use soap_server.Envelope.Tree.{
  Name, to_tag, Node, element, void, chars, section, entity, Nodes, nil, cons, events, events_all,
}
use soap_server.Wsdl.Address.{
  local_of, rewrite_tag, name_of, outside, inside, match_start, match_empty, match_end,
  rewrite_matched,
}

-- The events of a tree, its tags changed by `f`, and after them `rest`.
unfoldable mutual
  pub written : (Tag → Tag) → Node → List Event → List Event
  written f (element n kids) rest =
      start (f (to_tag n)) ∷ written_all f kids (end_tag n.qualified ∷ rest)
  written f (void n) rest = empty (f (to_tag n)) ∷ rest
  written f (chars t) rest = text t ∷ rest
  written f (section t) rest = cdata t ∷ rest
  written f (entity r) rest = general_ref r ∷ rest

  pub written_all : (Tag → Tag) → Nodes → List Event → List Event
  written_all f nil rest = rest
  written_all f (cons n ns) rest = written f n (written_all f ns rest)

abbrev pub is_port : Name → Bool
is_port n = local_of (to_tag n) == bytes "port"

-- No element of the trees is called `port`.
unfoldable mutual
  pub HasNoPort : Node → Type 0
  HasNoPort (element n kids) = (is_port n ≡ false) × HaveNoPort kids
  HasNoPort (void n) = is_port n ≡ false
  HasNoPort _ = Unit {0}

  pub HaveNoPort : Nodes → Type 0
  HaveNoPort nil = Unit {0}
  HaveNoPort (cons n ns) = HasNoPort n × HaveNoPort ns

abbrev pub same : Tag → Tag
same tag = tag

module _ (escape : Bytes → Bytes) (targets : List Bytes) (url : Bytes) where
  mutual
    unfolding HasNoPort events written rewrite_matched match_start match_empty match_end

    inside-events :
        (n : Node) (rest : Stream) (d : ℕ)
        → HasNoPort n
        → rewrite_matched escape targets url (events n rest) (inside (suc d))
          ≡ written
              (rewrite_tag escape url)
              n
              (rewrite_matched escape targets url rest (inside (suc d)))
    inside-events (element n kids) rest d (p, h) =
        let e =
          inside-events_all kids
            (ok (record { namespace = n.namespace; event = end_tag n.qualified }) ∷ rest) (suc d)
            h in
        ground arith
    inside-events (void n) rest d h = ground arith
    inside-events (chars t) rest d h = refl
    inside-events (section t) rest d h = refl
    inside-events (entity r) rest d h = refl

    inside-events_all :
        (ns : Nodes) (rest : Stream) (d : ℕ)
        → HaveNoPort ns
        → rewrite_matched escape targets url (events_all ns rest) (inside (suc d))
          ≡ written_all
              (rewrite_tag escape url)
              ns
              (rewrite_matched escape targets url rest (inside (suc d)))
    inside-events_all nil rest d h = refl
    inside-events_all (cons n ns) rest d (h, hs) =
        inside-events n (events_all ns rest) d h
        ∙ ap (written (rewrite_tag escape url) n) (inside-events_all ns rest d hs)

  mutual
    unfolding HasNoPort events written rewrite_matched match_start match_empty match_end

    outside-events :
        (n : Node) (rest : Stream)
        → HasNoPort n
        → rewrite_matched escape targets url (events n rest) outside
          ≡ written same n (rewrite_matched escape targets url rest outside)
    outside-events (element n kids) rest (p, h) =
        let e =
          outside-events_all kids
            (ok (record { namespace = n.namespace; event = end_tag n.qualified }) ∷ rest) h in
        ground arith
    outside-events (void n) rest h = ground arith
    outside-events (chars t) rest h = refl
    outside-events (section t) rest h = refl
    outside-events (entity r) rest h = refl

    outside-events_all :
        (ns : Nodes) (rest : Stream)
        → HaveNoPort ns
        → rewrite_matched escape targets url (events_all ns rest) outside
          ≡ written_all same ns (rewrite_matched escape targets url rest outside)
    outside-events_all nil rest h = refl
    outside-events_all (cons n ns) rest (h, hs) =
        outside-events n (events_all ns rest) h
        ∙ ap (written same n) (outside-events_all ns rest hs)

  -- What is done to the tags inside a port.
  abbrev pub change : Bool → Tag → Tag
  change true = rewrite_tag escape url
  change false = same

  -- In a port without nested ports, met outside of a matched one, the addresses are
  -- rewritten if the port belongs to the service; otherwise it is written as it was, and in
  -- both cases the rest of the document is processed as before it.
  pub port_rewritten :
      (n : Name) (kids : Nodes) (rest : Stream)
      → is_port n ≡ true
      → HaveNoPort kids
      → rewrite_matched escape targets url (events (element n kids) rest) outside
        ≡ start (to_tag n)
          ∷ written_all
              (change (contains targets (name_of (to_tag n))))
              kids
              (end_tag n.qualified ∷ rewrite_matched escape targets url rest outside)
  unfolding events rewrite_matched match_start match_end
  port_rewritten n kids rest p h =
      let after : Stream =
        ok (record { namespace = n.namespace; event = end_tag n.qualified }) ∷ rest in
      elim (Bool-cases (contains targets (name_of (to_tag n)))) [
        | inl target ↦ let e = inside-events_all kids after 0 h in ground arith
        | inr foreign ↦ let e = outside-events_all kids after h in ground arith
      ]

  -- After a self-closing port of the service, met outside of a matched one, the tag in the
  -- next port is treated as one inside the service: an address is rewritten, although that
  -- port does not belong to the service.
  pub empty_port_leaks :
      (n m a : Name) (rest : Stream)
      → is_port n ≡ true
      → contains targets (name_of (to_tag n)) ≡ true
      → is_port m ≡ true
      → contains targets (name_of (to_tag m)) ≡ false
      → is_port a ≡ false
      → rewrite_matched escape targets url
          (events (void n) (events (element m (cons (void a) nil)) rest))
          outside
        ≡ empty (to_tag n)
          ∷ start (to_tag m)
          ∷ empty (rewrite_tag escape url (to_tag a))
          ∷ end_tag m.qualified
          ∷ rewrite_matched escape targets url rest outside
  unfolding events rewrite_matched match_start match_empty match_end
  empty_port_leaks n m a rest p t p' t' q = ground arith
