-- ===== src/Envelope/Copy.antt =====
-- The loops of the parser copy a tree as it is printed.
use soap_server.Prelude.{
  ℕ, suc, ◌≡◌, refl, ◌∙◌, ap, Bytes, bytes, Option, List, [], ◌∷◌, ◌++◌, append_assoc, append-nil,
  ok,
}
use soap_server.Xml.{end_tag, Stream}
use soap_server.Envelope.Emit.{Bindings, write_end}
use soap_server.Envelope.Header.{collect_from, write_header_root}
use soap_server.Envelope.Body.{copy_from, skip_from}
use soap_server.Envelope.Tree.{
  to_tag, Node, element, void, chars, section, entity, Nodes, nil, cons, at, events, events_all,
  print, print_all, print_tag, write_tag-to_tag,
}

regroup : (a b c d : Bytes) → ((a ++ b) ++ c) ++ d ≡ a ++ ((b ++ c) ++ d)
regroup a b c d = simp append_assoc

mutual
  unfolding events print copy_from

  copy_from-events :
      (n : Node) (rest : Stream) (d : ℕ) (buf : Bytes)
      → copy_from (events n rest) d buf ≡ copy_from rest d (buf ++ print n)
  copy_from-events (element n kids) rest d buf = rw (write_tag-to_tag n (bytes ">")) (
      copy_from-events_all kids (ok (at n.namespace (end_tag n.qualified)) ∷ rest) (suc d)
        (buf ++ print_tag n (bytes ">"))
      ∙ ap (copy_from rest d) (regroup buf _ _ _))
  copy_from-events (void n) rest d buf = rw (write_tag-to_tag n (bytes "/>"))
  copy_from-events (chars t) rest d buf = refl
  copy_from-events (section t) rest d buf = rw append-nil
  copy_from-events (entity r) rest d buf = refl

  pub copy_from-events_all :
      (ns : Nodes) (rest : Stream) (d : ℕ) (buf : Bytes)
      → copy_from (events_all ns rest) d buf ≡ copy_from rest d (buf ++ print_all ns)
  copy_from-events_all nil rest d buf = rw append-nil
  copy_from-events_all (cons n ns) rest d buf =
      copy_from-events n (events_all ns rest) d buf
      ∙ copy_from-events_all ns rest d (buf ++ print n)
      ∙ ap (copy_from rest d) (append_assoc buf _ _)

mutual
  unfolding events skip_from

  skip_from-events :
      (n : Node) (rest : Stream) (d : ℕ) → skip_from (events n rest) d ≡ skip_from rest d
  skip_from-events (element n kids) rest d =
      skip_from-events_all kids (ok (at n.namespace (end_tag n.qualified)) ∷ rest) (suc d)
  skip_from-events (void n) rest d = refl
  skip_from-events (chars t) rest d = refl
  skip_from-events (section t) rest d = refl
  skip_from-events (entity r) rest d = refl

  pub skip_from-events_all :
      (ns : Nodes) (rest : Stream) (d : ℕ) → skip_from (events_all ns rest) d ≡ skip_from rest d
  skip_from-events_all nil rest d = refl
  skip_from-events_all (cons n ns) rest d =
      skip_from-events n (events_all ns rest) d ∙ skip_from-events_all ns rest d

mutual
  unfolding events print collect_from

  collect_from-events :
      (b : Bindings) (n : Node) (rest : Stream) (d : ℕ) (buf : Bytes) (cs : List Bytes)
      → collect_from b (events n rest) (suc d) buf cs
        ≡ collect_from b rest (suc d) (buf ++ print n) cs
  collect_from-events b (element n kids) rest d buf cs = rw (write_tag-to_tag n (bytes ">")) (
      collect_from-events_all b kids (ok (at n.namespace (end_tag n.qualified)) ∷ rest) (suc d)
        (buf ++ print_tag n (bytes ">")) cs
      ∙ ap (λ t. collect_from b rest (suc d) t cs) (regroup buf _ _ _))
  collect_from-events b (void n) rest d buf cs = rw (write_tag-to_tag n (bytes "/>"))
  collect_from-events b (chars t) rest d buf cs = refl
  collect_from-events b (section t) rest d buf cs = rw append-nil
  collect_from-events b (entity r) rest d buf cs = refl

  collect_from-events_all :
      (b : Bindings) (ns : Nodes) (rest : Stream) (d : ℕ) (buf : Bytes) (cs : List Bytes)
      → collect_from b (events_all ns rest) (suc d) buf cs
        ≡ collect_from b rest (suc d) (buf ++ print_all ns) cs
  collect_from-events_all b nil rest d buf cs = rw append-nil
  collect_from-events_all b (cons n ns) rest d buf cs =
      collect_from-events b n (events_all ns rest) d buf cs
      ∙ collect_from-events_all b ns rest d (buf ++ print n) cs
      ∙ ap (λ t. collect_from b rest (suc d) t cs) (append_assoc buf _ _)

-- What a header child becomes: the root with the inherited declarations, and its content.
abbrev pub header_fragments : Bindings → Nodes → List Bytes
header_fragments b nil = []
header_fragments b (cons (element n kids) ns) =
    (write_header_root b (to_tag n) (bytes ">") ++ print_all kids ++ write_end n.qualified)
    ∷ header_fragments b ns
header_fragments b (cons (void n) ns) =
    write_header_root b (to_tag n) (bytes "/>") ∷ header_fragments b ns
header_fragments b (cons _ ns) = header_fragments b ns

pub collect_from-children :
    (b : Bindings) (ns : Nodes) (e : Bytes) (m : Option Bytes) (rest : Stream) (buf : Bytes)
    (cs : List Bytes)
    → collect_from b (events_all ns (ok (at m (end_tag e)) ∷ rest)) 0 buf cs
      ≡ ok (cs ++ header_fragments b ns, rest)
unfolding events collect_from
collect_from-children b nil e m rest buf cs = rw append-nil
collect_from-children b (cons (element n kids) ns) e m rest buf cs =
    collect_from-events_all b kids
      (ok (at n.namespace (end_tag n.qualified)) ∷ events_all ns (ok (at m (end_tag e)) ∷ rest)) 0
      (write_header_root b (to_tag n) (bytes ">")) cs
    ∙ collect_from-children b ns e m rest [] _
    ∙ ap (λ t. ok (t, rest)) (append_assoc cs _ _)
collect_from-children b (cons (void n) ns) e m rest buf cs =
    collect_from-children b ns e m rest [] _ ∙ ap (λ t. ok (t, rest)) (append_assoc cs _ _)
collect_from-children b (cons (chars t) ns) e m rest buf cs =
    collect_from-children b ns e m rest buf cs
collect_from-children b (cons (section t) ns) e m rest buf cs =
    collect_from-children b ns e m rest buf cs
collect_from-children b (cons (entity t) ns) e m rest buf cs =
    collect_from-children b ns e m rest buf cs
