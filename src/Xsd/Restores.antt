-- ===== src/Xsd/Restores.antt =====
-- A type that resolves leaves the names being resolved as they were (src/xsd/resolver.rs).
use soap_server.Prelude.{
  ℕ, zero, suc, ◌≡◌, ◌≢◌, refl, sym, ap, ◌∙◌, arith, Option, none, some, Option-cases, Bool-cases,
  inl, inr, List, [], ◌∷◌, lookup, contains, insert_set, false, ok, err,
}
use soap_server.Prelude.Run.{done-snd}
use soap_server.Qname.{QName, qname_eq}
use soap_server.Xsd.Types.{
  XsdType, complex, simple, ComplexType, complex_type, ComplexContent, sequence, all, choice, empty,
  simple_content, complex_extension, complex_restriction,
}
use soap_server.Xsd.Resolve.{
  FlatTypeMap, Progress, Step, and_then, lift, remove, resolve_raw, resolve_attributes,
  resolve_content, resolve_complex_type, resolve_named_type,
}

-- Sequences of steps.
pub and_then-ne-none {ℓ κ} :
    {A : Type ℓ} {B : Type κ} (m : Step A) (f : A → Progress → Step B)
    → m ≢ none
    → ((a : A) (p : Progress) → m ≡ some (ok (a, p)) → f a p ≢ none)
    → and_then m f ≢ none
and_then-ne-none none f h k = absurd (h refl)
and_then-ne-none (some (err e)) f h k = λ p. cc
and_then-ne-none (some (ok (a, p))) f h k = k a p refl

and_then-eq {ℓ κ} :
    {A : Type ℓ} {B : Type κ} (m : Step A) (f : A → Progress → Step B) {b : B} {q : Progress}
    → and_then m f ≡ some (ok (b, q))
    → (a : A) × (p : Progress) × (m ≡ some (ok (a, p))) × (f a p ≡ some (ok (b, q)))
and_then-eq none f h = cc
and_then-eq (some (err e)) f h = cc
and_then-eq (some (ok (a, p))) f h = (a, p, refl, h)

pub lift-ne-none {ℓ} : {A : Type ℓ} (o : Option A) (p : Progress) → o ≢ none → lift o p ≢ none
lift-ne-none none p h = absurd (h refl)
lift-ne-none (some a) p h = λ q. cc

lift-eq {ℓ} :
    {A : Type ℓ} (o : Option A) (p : Progress) {a : A} {q : Progress}
    → lift o p ≡ some (ok (a, q))
    → p ≡ q
lift-eq none p h = cc
lift-eq (some a) p h = done-snd h

-- The names being resolved.
remove-absent : (name : QName) (ns : List QName) → contains ns name ≡ false → remove name ns ≡ ns
unfolding contains
remove-absent name [] h = refl
remove-absent name (n ∷ ns) h = ground (arith, remove-absent name ns)

remove-insert_set :
    (name : QName) (ns : List QName)
    → contains ns name ≡ false
    → remove name (insert_set name ns) ≡ ns
unfolding insert_set
remove-insert_set name ns h =
    let same = (qname_eq.beq_iff name name).1 refl in
    let absent = remove-absent name ns h in ground arith

abbrev pub resolving_of : Progress → List QName
resolving_of p = p.resolving

-- A call that succeeds leaves the names being resolved as they were.
abbrev pub Restores {ℓ} : {A : Type ℓ} → (Progress → Step A) → Type ℓ
Restores {A = A} step =
    (p : Progress) (a : A) (q : Progress) → step p ≡ some (ok (a, q)) → q.resolving ≡ p.resolving

module _ (flat : FlatTypeMap) (groups_fuel : ℕ) (named : QName → Progress → Step ComplexType)
    (restores : (name : QName) → Restores (named name)) where
  resolve_content-Restores :
      (c : ComplexContent) → Restores (resolve_content flat groups_fuel named c)
  unfolding resolve_content
  resolve_content-Restores (complex_extension base child) p a q h =
      let (base_ct, p', first, h') = and_then-eq (named base p) _ h in
      let (child_resolved, p'', second, h'') =
        and_then-eq (resolve_content flat groups_fuel named child p') _ h' in
      sym (ap resolving_of (done-snd h''))
      ∙ resolve_content-Restores child p' child_resolved p'' second
      ∙ restores base p base_ct p' first
  resolve_content-Restores (complex_restriction base child) p a q h =
      resolve_content-Restores child p a q h
  resolve_content-Restores (sequence els) p a q h = sym (ap resolving_of (lift-eq _ p h))
  resolve_content-Restores (all els) p a q h = sym (ap resolving_of (lift-eq _ p h))
  resolve_content-Restores (choice els) p a q h = sym (ap resolving_of (lift-eq _ p h))
  resolve_content-Restores (simple_content scd) p a q h = sym (ap resolving_of (done-snd h))
  resolve_content-Restores empty p a q h = sym (ap resolving_of (done-snd h))

  resolve_complex_type-Restores :
      (ct : ComplexType) → Restores (resolve_complex_type flat groups_fuel named ct)
  unfolding resolve_complex_type
  resolve_complex_type-Restores (complex_type name c attrs) p a q h =
      let (resolved, p', first, h') =
        and_then-eq (resolve_content flat groups_fuel named c p) _ h in
      let (attributes, p'', second, h'') =
        and_then-eq (lift (resolve_attributes flat groups_fuel attrs) p') _ h' in
      sym (ap resolving_of (done-snd h''))
      ∙ sym (ap resolving_of (lift-eq _ p' second))
      ∙ resolve_content-Restores c p resolved p' first

module _ (flat : FlatTypeMap) (groups_fuel : ℕ) where
  resolve_raw-Restores :
      (f : QName → Progress → Step ComplexType) (restores : (name : QName) → Restores (f name))
      (name : QName) (ty : Option XsdType) (p : Progress) (a : ComplexType) (q : Progress)
      → contains p.resolving name ≡ false
      → resolve_raw flat groups_fuel f name ty p ≡ some (ok (a, q))
      → q.resolving ≡ p.resolving
  resolve_raw-Restores f restores name none p a q unseen h = sym (ap resolving_of (done-snd h))
  resolve_raw-Restores f restores name (some (simple st)) p a q unseen h =
      sym (ap resolving_of (done-snd h))
  resolve_raw-Restores f restores name (some (complex raw)) p a q unseen h =
      let start : Progress = record p { resolving = insert_set name p.resolving } in
      let (ct, p', first, h') =
        and_then-eq (resolve_complex_type flat groups_fuel f raw start) _ h in
      sym (ap resolving_of (done-snd h'))
      ∙ ap (remove name)
          (resolve_complex_type-Restores flat groups_fuel f restores raw start ct p' first)
      ∙ remove-insert_set name p.resolving unseen

  pub resolve_named_type-Restores :
      (fuel : ℕ) (name : QName) → Restores (resolve_named_type flat groups_fuel fuel name)
  unfolding resolve_named_type
  resolve_named_type-Restores zero name p a q h = absurd (cc h)
  resolve_named_type-Restores (suc fuel) name p a q h =
      elim (Option-cases (lookup name p.resolved)) [
        | inr (ct, known) ↦ let same : p ≡ q = ground arith in sym (ap resolving_of same)
        | inl unknown ↦ elim (Bool-cases (contains p.resolving name)) [
          | inl cycle ↦ absurd (ground arith)
          | inr unseen ↦
              let h' : resolve_raw flat groups_fuel (resolve_named_type flat groups_fuel fuel) name
                    (lookup name flat.types) p
                  ≡ some (ok (a, q)) =
                ground arith in
              resolve_raw-Restores (resolve_named_type flat groups_fuel fuel)
                (resolve_named_type-Restores fuel) name (lookup name flat.types) p a q unseen h'
        ]
      ]
