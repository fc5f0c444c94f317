-- ===== src/Crossref/Pruning.antt =====
-- `drop_subtrees` against a description on trees (crossref/src/normalize.rs).
use soap_server.Prelude.{
  ℕ, suc, ◌≤◌, ◌<◌, ◌≡◌, refl, ap, sym, ◌∙◌, arith, Bytes, Bool, false, Option, none, some, List,
  [], ◌∷◌, length, nat_beq, nat_beq_iff, Bool-cases, inl, inr, if◌then◌else◌, Result, ok,
}
use soap_server.Xml.{Event, start, empty, end_tag, text, cdata, general_ref, Stream}
use soap_server.Envelope.Tree.{
  to_tag, Node, Nodes, element, void, chars, section, entity, nil, cons, events, events_all, at,
}
use soap_server.Crossref.Masks.{
  MaskRule, local_name, any_matches, push, pop-push, map_ok, silent, map_ok-map_ok,
}
use soap_server.Crossref.Drop.{
  Dropping, drop_event, drop_start, drop_empty, drop_end, drop_from, drop_subtrees,
}

abbrev unless : Bool → Node → Option Node
unless at_path n = if at_path then none else some n

abbrev cons_if : Option Node → Nodes → Nodes
cons_if none ns = ns
cons_if (some n) ns = cons n ns

-- A node without the elements at the paths, `none` if it is one; `stack` is the path to it.
unfoldable mutual
  unfolding any_matches local_name

  pub prune : List MaskRule → List Bytes → Node → Option Node
  prune rules stack (element n kids) =
      unless (any_matches rules (push stack (local_name n.qualified)))
        (element n (prune_all rules (push stack (local_name n.qualified)) kids))
  prune rules stack (void n) =
      unless (any_matches rules (push stack (local_name n.qualified))) (void n)
  prune rules stack (chars t) = some (chars t)
  prune rules stack (section t) = some (section t)
  prune rules stack (entity r) = some (entity r)

  pub prune_all : List MaskRule → List Bytes → Nodes → Nodes
  prune_all rules stack nil = nil
  prune_all rules stack (cons n ns) = cons_if (prune rules stack n) (prune_all rules stack ns)

-- The events written for a node, in front of those that follow.
unfoldable mutual
  pub written : Node → List Event → List Event
  written (element n kids) rest = start (to_tag n) ∷ written_all kids (end_tag n.qualified ∷ rest)
  written (void n) rest = empty (to_tag n) ∷ rest
  written (chars t) rest = text t ∷ rest
  written (section t) rest = cdata t ∷ rest
  written (entity r) rest = general_ref r ∷ rest

  pub written_all : Nodes → List Event → List Event
  written_all nil rest = rest
  written_all (cons n ns) rest = written n (written_all ns rest)

abbrev written_if : Option Node → List Event → List Event
written_if none rest = rest
written_if (some n) rest = written n rest

abbrev outside : List Bytes → Dropping
outside stack = record { stack = stack; drop_depth = none }

abbrev inside : List Bytes → ℕ → Dropping
inside stack d = record { stack = stack; drop_depth = some d }

pub length-push :
    (stack : List Bytes) (name : Bytes) → length (push stack name) ≡ suc (length stack)
length-push [] name = refl
length-push (a ∷ stack) name = ap suc (length-push stack name)

differ_beq : (m n : ℕ) → n < m → nat_beq m n ≡ false
differ_beq m n h = ground arith

-- The end tags: below a dropped element, that of one, and elsewhere.
module _ (rules : List MaskRule) (stack : List Bytes) (name : Bytes) (ns : Option Bytes) where
  leave_below :
      (d : ℕ) (q : Bytes) (rest : Stream)
      → d ≤ length stack
      → drop_from rules (ok (at ns (end_tag q)) ∷ rest) (inside (push stack name) d)
        ≡ drop_from rules rest (inside stack d)
  unfolding drop_from drop_event drop_end
  leave_below d q rest h =
      let differ =
        differ_beq (length (push stack name)) d (omega (arith, length-push stack name)) in
      rw (pop-push stack name, differ) (silent _)

  leave_root :
      (q : Bytes) (rest : Stream)
      → drop_from rules
          (ok (at ns (end_tag q)) ∷ rest)
          (inside (push stack name) (length (push stack name)))
        ≡ drop_from rules rest (outside stack)
  unfolding drop_from drop_event drop_end
  leave_root q rest =
      let same = (nat_beq_iff (length (push stack name)) (length (push stack name))).1 refl in
      rw (pop-push stack name, same) (silent _)

  leave :
      (q : Bytes) (rest : Stream)
      → drop_from rules (ok (at ns (end_tag q)) ∷ rest) (outside (push stack name))
        ≡ map_ok (λ others. end_tag q ∷ others) (drop_from rules rest (outside stack))
  unfolding drop_from drop_event drop_end
  leave q rest = rw (pop-push stack name)

-- Below a dropped element nothing is written, and the state is the same behind it.
mutual
  unfolding drop_from drop_event drop_start drop_empty drop_end events

  dropped :
      (rules : List MaskRule) (stack : List Bytes) (d : ℕ) (n : Node) (rest : Stream)
      → d ≤ length stack
      → drop_from rules (events n rest) (inside stack d) ≡ drop_from rules rest (inside stack d)
  dropped rules stack d (element n kids) rest h =
      let stack' = push stack (local_name n.qualified) in
      let tail = ok (at n.namespace (end_tag n.qualified)) ∷ rest in
      silent _
      ∙ dropped_all rules stack' d kids tail
          (omega (arith, length-push stack (local_name n.qualified)))
      ∙ leave_below rules stack (local_name n.qualified) n.namespace d n.qualified rest h
  dropped rules stack d (void n) rest h = silent _
  dropped rules stack d (chars t) rest h = silent _
  dropped rules stack d (section t) rest h = silent _
  dropped rules stack d (entity r) rest h = silent _

  dropped_all :
      (rules : List MaskRule) (stack : List Bytes) (d : ℕ) (ns : Nodes) (rest : Stream)
      → d ≤ length stack
      → drop_from rules (events_all ns rest) (inside stack d)
        ≡ drop_from rules rest (inside stack d)
  dropped_all rules stack d nil rest h = refl
  dropped_all rules stack d (cons n ns) rest h =
      dropped rules stack d n (events_all ns rest) h ∙ dropped_all rules stack d ns rest h

written_all-cons_if :
    (o : Option Node) (ns : Nodes) (r : Result Bytes (List Event))
    → map_ok (λ others. written_if o (written_all ns others)) r
      ≡ map_ok (written_all (cons_if o ns)) r
unfolding written
written_all-cons_if none ns r = refl
written_all-cons_if (some n) ns r = refl

-- Elsewhere what is written for a node is the pruned node.
mutual
  unfolding drop_from drop_event drop_start drop_empty drop_end events prune written

  pruned :
      (rules : List MaskRule) (stack : List Bytes) (n : Node) (rest : Stream)
      → drop_from rules (events n rest) (outside stack)
        ≡ map_ok (written_if (prune rules stack n)) (drop_from rules rest (outside stack))
  pruned rules stack (element n kids) rest =
      let name = local_name n.qualified in
      let stack' = push stack name in
      let tail = ok (at n.namespace (end_tag n.qualified)) ∷ rest in
      let after = drop_from rules rest (outside stack) in
      elim (Bool-cases (any_matches rules stack')) [
        | inl t ↦ rw t (
            silent _
            ∙ dropped_all rules stack' (length stack') kids tail (omega arith)
            ∙ leave_root rules stack name n.namespace n.qualified rest
            ∙ sym (silent _))
        | inr f ↦ rw f (
            ap (map_ok (λ others. start (to_tag n) ∷ others)) (
              pruned_all rules stack' kids tail
              ∙ ap (map_ok (written_all (prune_all rules stack' kids)))
                  (leave rules stack name n.namespace n.qualified rest)
              ∙ map_ok-map_ok _ _ after)
            ∙ map_ok-map_ok _ _ after)
      ]
  pruned rules stack (void n) rest =
      elim (Bool-cases (any_matches rules (push stack (local_name n.qualified)))) [
        | inl t ↦ rw t
        | inr f ↦ rw f
      ]
  pruned rules stack (chars t) rest = refl
  pruned rules stack (section t) rest = refl
  pruned rules stack (entity r) rest = refl

  pruned_all :
      (rules : List MaskRule) (stack : List Bytes) (ns : Nodes) (rest : Stream)
      → drop_from rules (events_all ns rest) (outside stack)
        ≡ map_ok (written_all (prune_all rules stack ns)) (drop_from rules rest (outside stack))
  pruned_all rules stack nil rest = sym (silent _)
  pruned_all rules stack (cons n ns) rest =
      pruned rules stack n (events_all ns rest)
      ∙ ap (map_ok (written_if (prune rules stack n))) (pruned_all rules stack ns rest)
      ∙ map_ok-map_ok _ _ (drop_from rules rest (outside stack))
      ∙ written_all-cons_if (prune rules stack n) (prune_all rules stack ns)
          (drop_from rules rest (outside stack))

-- For a document given as trees the pass over its events writes exactly the events of the
-- trees without the elements at the paths to drop, each left out with all below it.
pub drop_subtrees-prune :
    (rules : List MaskRule) (ns : Nodes)
    → drop_subtrees (events_all ns []) rules ≡ ok (written_all (prune_all rules [] ns) [])
unfolding drop_subtrees drop_from
drop_subtrees-prune rules ns = pruned_all rules [] ns []
