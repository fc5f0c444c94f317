-- ===== src/Crossref/Hiding.antt =====
-- What the normaliser hides of a document, and what it lets through (crossref/src/normalize.rs).
use soap_server.Prelude.{
  ◌≡◌, ap, ◌∙◌, Bytes, Bool, true, false, List, ◌∷◌, not, ◌&&◌, ◌||◌, sym, from_utf8_lossy, ok,
}
use soap_server.Xml.{Tag, Event, start, end_tag, text, general_ref, Stream}
use soap_server.Envelope.Tree.{
  Name, to_tag, Nodes, element, void, chars, section, entity, nil, cons, events, events_all, at,
}
use soap_server.Crossref.Masks.{
  MaskRule, local_name, any_matches, push, pop-push, mask_sentinel, map_ok, add_event,
  each_attribute-map-some, silent, map_ok-map_ok,
}
use soap_server.Crossref.Order.{sort_by_key}
use soap_server.Crossref.Normalize.{write_sorted_start, normalize_event, normalize_from, rebuilt}
use soap_server.Crossref.Drop.{
  AttrMaskRule, Masking, unmasked, write_masked_start, mask_content, mask_event, mask_from,
}

-- Nodes that are all character data.
abbrev pub IsContent : Nodes → Type 0
IsContent nil = Unit
IsContent (cons (chars t) ns) = IsContent ns
IsContent (cons (section t) ns) = IsContent ns
IsContent (cons (entity r) ns) = IsContent ns
IsContent (cons n ns) = ⊥

-- Whether there is text or CDATA among the nodes.
abbrev pub has_text : Nodes → Bool
has_text nil = false
has_text (cons (chars t) ns) = true
has_text (cons (section t) ns) = true
has_text (cons n ns) = has_text ns

-- The sentinel in front of what follows, if it is to be written.
abbrev pub sentinel_if : Bool → List Event → List Event
sentinel_if false others = others
sentinel_if true others = text mask_sentinel ∷ others

-- The tags written for an element by the two passes.
unfoldable pub masked_tag : List AttrMaskRule → List Bytes → Name → Tag
unfolding sort_by_key unmasked from_utf8_lossy
masked_tag rules stack n =
    rebuilt (to_tag n)
      (sort_by_key (unmasked rules (push stack (local_name n.qualified)) n.attributes))

unfoldable pub sorted_tag : Name → Tag
unfolding sort_by_key from_utf8_lossy
sorted_tag n = rebuilt (to_tag n) (sort_by_key n.attributes)

module _ (refusal : Tag → Bytes) (text_masks : List MaskRule) (attr_masks : List AttrMaskRule) where
  masked_content :
      (kids : Nodes) (stack : List Bytes) (w : Bool) (rest : Stream)
      → IsContent kids
      → any_matches text_masks stack ≡ true
      → mask_from refusal text_masks attr_masks
          (events_all kids rest)
          (record { stack = stack; sentinel_written = w })
        ≡ map_ok (sentinel_if (not w && has_text kids)) (
            mask_from refusal text_masks attr_masks rest
              (record { stack = stack; sentinel_written = w || has_text kids }))
  unfolding mask_from mask_event mask_content events
  masked_content nil stack true rest c m = sym (silent _)
  masked_content nil stack false rest c m = sym (silent _)
  masked_content (cons (chars t) ns) stack true rest c m =
      rw m (silent _ ∙ masked_content ns stack true rest c m)
  masked_content (cons (chars t) ns) stack false rest c m =
      rw m (ap (map_ok (sentinel_if true)) (masked_content ns stack true rest c m ∙ silent _))
  masked_content (cons (section t) ns) stack true rest c m =
      rw m (silent _ ∙ masked_content ns stack true rest c m)
  masked_content (cons (section t) ns) stack false rest c m =
      rw m (ap (map_ok (sentinel_if true)) (masked_content ns stack true rest c m ∙ silent _))
  masked_content (cons (entity r) ns) stack w rest c m =
      rw m (silent _ ∙ masked_content ns stack w rest c m)
  masked_content (cons (element n ks) ns) stack w rest c m = absurd c
  masked_content (cons (void n) ns) stack w rest c m = absurd c

  -- Of an element at a masked path that holds only text, CDATA and entity references layer 2
  -- writes the tags, with one sentinel between them if it holds text or CDATA and nothing if
  -- not, and goes on behind it with the stack as it was.
  pub masked_element :
      (n : Name) (kids : Nodes) (rest : Stream) (s : Masking)
      → IsContent kids
      → any_matches text_masks (push s.stack (local_name n.qualified)) ≡ true
      → mask_from refusal text_masks attr_masks (events (element n kids) rest) s
        ≡ map_ok
            (λ others.
              start (masked_tag attr_masks s.stack n)
              ∷ sentinel_if (has_text kids) (end_tag n.qualified ∷ others))
            (mask_from refusal text_masks attr_masks rest
              (record { stack = s.stack; sentinel_written = false }))
  unfolding mask_from mask_event write_masked_start events masked_tag
  masked_element n kids rest s c m =
      let stack' = push s.stack (local_name n.qualified) in
      let tail = ok (at n.namespace (end_tag n.qualified)) ∷ rest in
      let after =
        mask_from refusal text_masks attr_masks rest
          (record { stack = s.stack; sentinel_written = false }) in
      rw (each_attribute-map-some (refusal (to_tag n)) n.attributes) (
        ap (map_ok (add_event (start (masked_tag attr_masks s.stack n)))) (
          masked_content kids stack' false tail c m
          ∙ ap (map_ok (sentinel_if (has_text kids)))
              (rw (pop-push s.stack (local_name n.qualified)))
          ∙ map_ok-map_ok _ _ after)
        ∙ map_ok-map_ok _ _ after)

-- The same nodes under `normalize`: a sentinel for every piece of text, and the references.
unfoldable pub leaked : Nodes → List Event → List Event
leaked nil others = others
leaked (cons (entity r) ns) others = general_ref r ∷ leaked ns others
leaked (cons n ns) others = text mask_sentinel ∷ leaked ns others

module _ (refusal : Tag → Bytes) (masks : List MaskRule) where
  leaked_content :
      (kids : Nodes) (stack : List Bytes) (rest : Stream)
      → IsContent kids
      → any_matches masks stack ≡ true
      → normalize_from refusal masks (events_all kids rest) stack
        ≡ map_ok (leaked kids) (normalize_from refusal masks rest stack)
  unfolding normalize_from normalize_event events leaked
  leaked_content nil stack rest c m = sym (silent _)
  leaked_content (cons (chars t) ns) stack rest c m = rw m (
      ap (map_ok (add_event (text mask_sentinel))) (leaked_content ns stack rest c m)
      ∙ map_ok-map_ok _ _ (normalize_from refusal masks rest stack))
  leaked_content (cons (section t) ns) stack rest c m = rw m (
      ap (map_ok (add_event (text mask_sentinel))) (leaked_content ns stack rest c m)
      ∙ map_ok-map_ok _ _ (normalize_from refusal masks rest stack))
  leaked_content (cons (entity r) ns) stack rest c m =
      ap (map_ok (add_event (general_ref r))) (leaked_content ns stack rest c m)
      ∙ map_ok-map_ok _ _ (normalize_from refusal masks rest stack)
  leaked_content (cons (element n ks) ns) stack rest c m = absurd c
  leaked_content (cons (void n) ns) stack rest c m = absurd c

  -- Of the same kind of element at a masked path layer 1 writes a sentinel for each piece of
  -- text or CDATA, and each entity reference as it stands.
  pub normalize_leaks :
      (n : Name) (kids : Nodes) (rest : Stream) (stack : List Bytes)
      → IsContent kids
      → any_matches masks (push stack (local_name n.qualified)) ≡ true
      → normalize_from refusal masks (events (element n kids) rest) stack
        ≡ map_ok
            (λ others. start (sorted_tag n) ∷ leaked kids (end_tag n.qualified ∷ others))
            (normalize_from refusal masks rest stack)
  unfolding normalize_from normalize_event write_sorted_start events sorted_tag
  normalize_leaks n kids rest stack c m =
      let stack' = push stack (local_name n.qualified) in
      let tail = ok (at n.namespace (end_tag n.qualified)) ∷ rest in
      let after = normalize_from refusal masks rest stack in
      rw (each_attribute-map-some (refusal (to_tag n)) n.attributes) (
        ap (map_ok (add_event (start (sorted_tag n)))) (
          leaked_content kids stack' tail c m
          ∙ ap (map_ok (leaked kids)) (rw (pop-push stack (local_name n.qualified)))
          ∙ map_ok-map_ok _ _ after)
        ∙ map_ok-map_ok _ _ after)
