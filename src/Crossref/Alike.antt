-- ===== src/Crossref/Alike.antt =====
-- `canonicalize_prefixes` on documents that differ in their prefixes (crossref/src/normalize.rs).
use soap_server.Prelude.{
  ◌≡◌, refl, ap, sym, ◌∙◌, Bytes, bytes, List, [], ◌++◌, str_eq, Result, ok, ◌>>=◌, >>=_congr,
  >>=-eq-ok, Result-cases, inl, inr,
}
use soap_server.Xml.{Tag, start, empty}
use soap_server.Crossref.Prefixes.{SeenStream, collect_tag, collect_used_uris, number_uris}
use soap_server.Crossref.Canonical.{
  Emitting, canon_start, canon_empty, canon_end, canon_event, canon_from, canonicalize_prefixes,
  at_root,
}
use soap_server.Crossref.Equivalence.{SameTags, Equivalent, seen, collect_used_uris-Equivalent}
use soap_server.Crossref.Covered.{plain_tag, collect_used_uris-Collected}
use soap_server.Crossref.Renaming.{canon_start-SameTags, canon_empty-SameTags}

abbrev continue : Bytes × Emitting → Result Bytes Bytes → Result Bytes Bytes
continue step rest = do others ← rest; ok (step.0 ++ others)

module _ (refusal : Tag → Bytes) (uris : List Bytes) where
  pub canon_from-Equivalent :
      {xs ys : SeenStream} (before : List Bytes) (s : Emitting)
      → collect_used_uris refusal xs before ≡ ok uris
      → Equivalent xs ys
      → canon_from refusal (number_uris 0 uris) xs s ≡ canon_from refusal (number_uris 0 uris) ys s
  unfolding canon_from canon_event collect_used_uris
  canon_from-Equivalent before s h Equivalent.done = refl
  canon_from-Equivalent before s h (Equivalent.failed e xs ys) = refl
  canon_from-Equivalent before s h
        (Equivalent.starts r f g {xs = xs} {ys = ys}
          (SameTags.tags name name' local local' {xs = vs} {ys = ws} l same)
          q) =
      let (next, first, rest) =
        >>=-eq-ok (collect_tag refusal r f (plain_tag name local vs) before) _ h in
      let written =
        canon_start-SameTags refusal uris r f g name name' local local' s l
          (λ known. collect_used_uris-Collected refusal r f name local vs xs before uris known h)
          same in
      ap (λ m. m >>= λ step. continue step (canon_from refusal (number_uris 0 uris) xs step.1))
        written
      ∙ >>=_congr
          (canon_start refusal (number_uris 0 uris) (seen r (start (plain_tag name' local' ws)) g)
            (plain_tag name' local' ws) s)
          _ _ (λ step. ap (continue step) (canon_from-Equivalent next step.1 rest q))
  canon_from-Equivalent before s h
        (Equivalent.empties r f g {xs = xs} {ys = ys}
          (SameTags.tags name name' local local' {xs = vs} {ys = ws} l same)
          q) =
      let (next, first, rest) =
        >>=-eq-ok (collect_tag refusal r f (plain_tag name local vs) before) _ h in
      let written =
        canon_empty-SameTags refusal uris r f g name name' local local' s l
          (λ known. collect_used_uris-Collected refusal r f name local vs xs before uris known h)
          same in
      ap (λ m. m >>= λ step. continue step (canon_from refusal (number_uris 0 uris) xs step.1))
        written
      ∙ >>=_congr
          (canon_empty refusal (number_uris 0 uris) (seen r (empty (plain_tag name' local' ws)) g)
            (plain_tag name' local' ws) s)
          _ _ (λ step. ap (continue step) (canon_from-Equivalent next step.1 rest q))
  canon_from-Equivalent before s h (Equivalent.ends r q f g n m rest) =
      >>=_congr (canon_end refusal (number_uris 0 uris) s) _ _ (λ step.
        ap (λ m. m >>= λ others. ok (step.0 ++ others))
          (canon_from-Equivalent before step.1 h rest))
  canon_from-Equivalent before s h (Equivalent.texts r q f g t rest) =
      ap (λ m. m >>= λ others. ok (t ++ others)) (canon_from-Equivalent before s h rest)
  canon_from-Equivalent before s h (Equivalent.sections r q f g t rest) =
      ap (λ m. m >>= λ others. ok ((bytes "<![CDATA[" ++ t ++ bytes "]]>") ++ others))
        (canon_from-Equivalent before s h rest)
  canon_from-Equivalent before s h (Equivalent.references r q f g t rest) =
      ap (λ m. m >>= λ others. ok ((bytes "&" ++ t ++ bytes ";") ++ others))
        (canon_from-Equivalent before s h rest)

-- Two documents that differ only in their namespace prefixes and declarations (the elements
-- and prefixed attributes have the same namespaces, local names and values, in the same order)
-- are rewritten to the same bytes, or to the same error.
pub canonicalize_prefixes-Equivalent :
    (refusal : Tag → Bytes) {xs ys : SeenStream}
    → Equivalent xs ys
    → canonicalize_prefixes refusal xs ≡ canonicalize_prefixes refusal ys
unfolding canonicalize_prefixes
canonicalize_prefixes-Equivalent refusal {xs} {ys} same =
    elim (Result-cases (collect_used_uris refusal xs [])) [
      | inl (uris, p) ↦
          rw (p, sym (collect_used_uris-Equivalent refusal [] same) ∙ p)
            (canon_from-Equivalent refusal uris [] at_root p same)
      | inr (e, p) ↦ rw (p, sym (collect_used_uris-Equivalent refusal [] same) ∙ p)
    ]
