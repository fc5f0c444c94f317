-- ===== src/Crossref/Agreement.antt =====
-- The check of addresses (crossref/src/layer2/mod.rs) accepts what `rewrite_wsdl_address`
-- (src/wsdl/resolver.rs) writes.
use soap_server.Prelude.{
  ◌≡◌, refl, arith, Bytes, bytes, true, Option, none, some, List, [], ◌∷◌, ◌++◌, All, Bool-cases,
  inl, inr, str_eq, str_beq, str_beq_iff, ◌==◌, ==_refl, utf8_or_empty, from_utf8_lossy, ok, err,
  >>=-eq-ok, ok-eq,
}
use soap_server.Xml.{
  Attribute, accepted, Tag, Event, start, empty, end_tag, text, cdata, general_ref, other, Stream,
}
use soap_server.Envelope.Tree.{accepted-map-some}
use soap_server.Wsdl.Address.{
  local_of, is_location, relocate, rewritten, rewrite_tag, rewrite_event, rewrite_wsdl_address,
}
use soap_server.Wsdl.Rewriting.{reread, is_location-location}
use soap_server.Crossref.Addresses.{
  Addresses, add_address, Extracting, raw_local, locations, extract_tag, extract_event,
  extract_from, extract_soap_addresses, host_part, check_hosts, check_single_rewrite_invariant,
}

-- All addresses have this location.
abbrev pub AllAt : Bytes → Addresses → Type 0
AllAt location = All (λ a. a.1 ≡ location)

-- A tag that the harness takes for an address is one for the server.
abbrev pub IsPlainTag : Tag → Type 0
IsPlainTag tag = raw_local tag.name ≡ bytes "address" → local_of tag ≡ bytes "address"

abbrev pub IsPlain : Event → Type 0
IsPlain (start tag) = IsPlainTag tag
IsPlain (empty tag) = IsPlainTag tag
IsPlain e = Unit

abbrev pub ArePlain : Stream → Type 0
ArePlain [] = Unit
ArePlain (err e ∷ rest) = Unit
ArePlain (ok item ∷ rest) = IsPlain item.event × ArePlain rest

AllAt-append :
    (location : Bytes) (xs ys : Addresses)
    → AllAt location xs
    → AllAt location ys
    → AllAt location (xs ++ ys)
AllAt-append location [] ys h k = k
AllAt-append location (x ∷ xs) ys h k = (h.0, AllAt-append location xs ys h.1 k)

location_key :
    (key : Bytes) → key ≡ bytes "location" → (utf8_or_empty key == bytes "location") ≡ true
location_key key h = rw h is_location-location

AllAt-add_address :
    (location : Bytes) (current : Option Bytes) (rest : Addresses)
    → AllAt location rest
    → AllAt location (add_address current location rest)
AllAt-add_address location none rest h = h
AllAt-add_address location (some service) rest h = (refl, h)

-- A tag adds addresses only if it is one.
extract_tag-AllAt :
    (location : Bytes) (tag : Tag) (s : Extracting)
    → (raw_local tag.name ≡ bytes "address"
        → AllAt location (locations s.current_service (accepted tag.attributes)))
    → AllAt location (extract_tag tag s).0
unfolding extract_tag
extract_tag-AllAt location tag s h =
    elim (Bool-cases (str_beq (raw_local tag.name) (bytes "service"))) [
      | inl service ↦ rw service tt
      | inr t ↦ elim (Bool-cases (str_beq (raw_local tag.name) (bytes "address"))) [
        | inr f ↦ rw (t, f) tt
        | inl address ↦ elim (Bool-cases s.in_service) [
          | inl u ↦ rw (t, address, u) (h ((str_beq_iff _ _).0 address))
          | inr u ↦ rw (t, address, u) tt
        ]
      ]
    ]

module _ (escape : Bytes → Bytes) (url : Bytes) where
  abbrev pub new_location : Bytes
  new_location = from_utf8_lossy (escape url)

  locations-relocate :
      (current : Option Bytes) (attrs : List Attribute)
      → AllAt new_location (locations current (relocate escape url attrs))
  unfolding locations relocate
  locations-relocate current [] = tt
  locations-relocate current (a ∷ attrs) = elim (Bool-cases (is_location a)) [
    | inl here ↦
        rw (here, ==_refl (bytes "location"))
          (AllAt-add_address new_location current _ (locations-relocate current attrs))
    | inr away ↦ elim (Bool-cases (a.key == bytes "location")) [
      | inl here ↦ absurd (ground (arith, location_key a.key ((str_beq_iff _ _).0 here)))
      | inr differs ↦ rw (away, differs) (locations-relocate current attrs)
    ]
  ]

  extract_tag-rewrite_tag :
      (tag : Tag) (s : Extracting)
      → IsPlainTag tag
      → AllAt new_location (extract_tag (rewrite_tag escape url tag) s).0
  extract_tag-rewrite_tag tag s h = elim (Bool-cases (local_of tag == bytes "address")) [
    | inl here ↦ rw here (
        extract_tag-AllAt new_location (rewritten escape url tag) s (λ _.
          rw (accepted-map-some (relocate escape url (accepted tag.attributes)))
            (locations-relocate s.current_service (accepted tag.attributes))))
    | inr away ↦ rw away (
        extract_tag-AllAt new_location tag s
          (λ e. absurd (ground (arith, (str_beq_iff _ _).1 (h e)))))
  ]

  extract_event-rewrite_event :
      (e : Event) (s : Extracting)
      → IsPlain e
      → AllAt new_location (extract_event (rewrite_event escape url e) s).0
  unfolding extract_event
  extract_event-rewrite_event (start tag) s h = extract_tag-rewrite_tag tag s h
  extract_event-rewrite_event (empty tag) s h = extract_tag-rewrite_tag tag s h
  extract_event-rewrite_event (end_tag name) s h = tt
  extract_event-rewrite_event (text t) s h = tt
  extract_event-rewrite_event (cdata t) s h = tt
  extract_event-rewrite_event (general_ref t) s h = tt
  extract_event-rewrite_event other s h = tt

  extract_from-rewrite :
      (doc : Stream) (s : Extracting) (out : Addresses)
      → ArePlain doc
      → extract_from (reread (rewrite_wsdl_address escape doc url)) s ≡ ok out
      → AllAt new_location out
  unfolding extract_from rewrite_wsdl_address
  extract_from-rewrite [] s out p h = rw (← ok-eq h) tt
  extract_from-rewrite (err e ∷ doc) s out p h = rw (← ok-eq h) tt
  extract_from-rewrite (ok item ∷ doc) s out p h =
      let found = extract_event (rewrite_event escape url item.event) s in
      let (others, first, last) =
        >>=-eq-ok (extract_from (reread (rewrite_wsdl_address escape doc url)) found.1) _ h in
      rw (← ok-eq last) (
        AllAt-append new_location found.0 others (extract_event-rewrite_event item.event s p.0)
          (extract_from-rewrite doc found.1 others p.1 first))

  check_hosts-AllAt :
      (expected : Bytes) (addresses : Addresses)
      → host_part new_location ≡ expected
      → AllAt new_location addresses
      → check_hosts expected addresses ≡ ok tt
  unfolding check_hosts
  check_hosts-AllAt expected [] e h = refl
  check_hosts-AllAt expected ((service, location) ∷ rest) e h =
      rw (h.0, e, ==_refl expected) (check_hosts-AllAt expected rest e h.1)

  -- Where addresses are found in a document whose addresses the server rewrote to a URL, and
  -- the host of the URL as it is written is that of the base, the check of the harness
  -- passes, if every tag that the harness takes for an address is one for the server.
  pub single_check_accepts :
      (our_base : Bytes) (doc : Stream) (a : Bytes × Bytes) (found : Addresses)
      → ArePlain doc
      → host_part new_location ≡ host_part our_base
      → extract_soap_addresses (reread (rewrite_wsdl_address escape doc url)) ≡ ok (a ∷ found)
      → check_single_rewrite_invariant (reread (rewrite_wsdl_address escape doc url)) our_base
        ≡ ok tt
  unfolding check_single_rewrite_invariant extract_soap_addresses
  single_check_accepts our_base doc a found p e h = rw h (
      check_hosts-AllAt (host_part our_base) (a ∷ found) e
        (extract_from-rewrite doc _ (a ∷ found) p h))
