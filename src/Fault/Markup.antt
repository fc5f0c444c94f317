-- ===== src/Fault/Markup.antt =====
-- What markup a serialised fault has.
use soap_server.Prelude.{
  ◌≡◌, refl, arith, Bytes, bytes, true, false, Option, none, some, List, [], ◌∷◌, ◌++◌,
  append_assoc, append-nil, nat_beq, ◌≢◌,
}
use soap_server.Wsdl.Definitions.{SoapVersion, soap11, soap12}
use soap_server.Fault.{
  FaultCode, version_mismatch, must_understand, data_encoding_unknown, sender, receiver, SoapFault,
  as_soap12_str, faultcode_v11, detail_v11, detail_v12, to_xml_bytes, to_xml_bytes_v11,
  to_xml_bytes_versioned,
}

-- The tags of a text: what stands between a `<` and the next `>`. The first argument is what was
-- read of a tag that is open.
tags_from : Option Bytes → Bytes → List Bytes
tags_from state [] = []
tags_from none (c ∷ s) = elim (nat_beq c b'<') [
  | true ↦ tags_from (some []) s
  | false ↦ tags_from none s
]
tags_from (some tag) (c ∷ s) = elim (nat_beq c b'>') [
  | true ↦ tag ∷ tags_from none s
  | false ↦ tags_from (some (tag ++ c ∷ [])) s
]

pub tags : Bytes → List Bytes
unfolding tags_from
tags s = tags_from none s

-- No byte opens a tag.
abbrev pub OpensNoTag : Bytes → Type 0
OpensNoTag [] = Unit {0}
OpensNoTag (c ∷ s) = (c ≢ b'<') × OpensNoTag s

tags-append : (t s : Bytes) → OpensNoTag t → tags (t ++ s) ≡ tags s
unfolding tags
tags-append [] s h = refl
tags-append (c ∷ t) s (n, h) = ground (arith, tags-append t s h)

code12 : (c : FaultCode) (s : Bytes) → tags (as_soap12_str c ++ s) ≡ tags s
unfolding tags as_soap12_str bytes
code12 version_mismatch s = refl
code12 must_understand s = refl
code12 data_encoding_unknown s = refl
code12 sender s = refl
code12 receiver s = refl

code11 : (c : FaultCode) (s : Bytes) → tags (faultcode_v11 c ++ s) ≡ tags s
unfolding tags faultcode_v11 bytes
code11 version_mismatch s = refl
code11 must_understand s = refl
code11 data_encoding_unknown s = refl
code11 sender s = refl
code11 receiver s = refl

abbrev head12 : List Bytes
head12 =
    bytes "env:Envelope xmlns:env=\"http://www.w3.org/2003/05/soap-envelope\""
    ∷ bytes "env:Body"
    ∷ bytes "env:Fault"
    ∷ bytes "env:Code"
    ∷ bytes "env:Value"
    ∷ []

abbrev reason12 : List Bytes
reason12 =
    bytes "/env:Value"
    ∷ bytes "/env:Code"
    ∷ bytes "env:Reason"
    ∷ bytes "env:Text xml:lang=\"en\""
    ∷ []

abbrev foot12 : List Bytes
foot12 = bytes "/env:Fault" ∷ bytes "/env:Body" ∷ bytes "/env:Envelope" ∷ []

abbrev head11 : List Bytes
head11 =
    bytes "SOAP-ENV:Envelope xmlns:SOAP-ENV=\"http://schemas.xmlsoap.org/soap/envelope/\""
    ∷ bytes "SOAP-ENV:Body"
    ∷ bytes "SOAP-ENV:Fault"
    ∷ bytes "faultcode"
    ∷ []

abbrev foot11 : List Bytes
foot11 = bytes "/SOAP-ENV:Fault" ∷ bytes "/SOAP-ENV:Body" ∷ bytes "/SOAP-ENV:Envelope" ∷ []

abbrev detail_tags : Option Bytes → List Bytes
detail_tags none = []
detail_tags (some d) = bytes "detail" ∷ bytes "/detail" ∷ []

-- The markup that the two versions prescribe for a fault whose detail is plain text.
abbrev pub prescribed : SoapVersion → Option Bytes → List Bytes
prescribed soap12 detail =
    head12 ++ (reason12 ++ (bytes "/env:Text" ∷ bytes "/env:Reason" ∷ foot12))
prescribed soap11 detail =
    head11
    ++ (bytes "/faultcode" ∷ bytes "faultstring" ∷ bytes "/faultstring" ∷ detail_tags detail
        ++ foot11)

module _ (s : Bytes) where
  open12 :
      tags (
        bytes
          "<env:Envelope xmlns:env=\"http://www.w3.org/2003/05/soap-envelope\"><env:Body><env:Fault><env:Code><env:Value>"
        ++ s)
      ≡ head12 ++ tags s
  unfolding tags bytes
  open12 = refl

  middle12 :
      tags (bytes "</env:Value></env:Code><env:Reason><env:Text xml:lang=\"en\">" ++ s)
      ≡ reason12 ++ tags s
  unfolding tags bytes
  middle12 = refl

  open11 :
      tags (
        bytes
          "<SOAP-ENV:Envelope xmlns:SOAP-ENV=\"http://schemas.xmlsoap.org/soap/envelope/\"><SOAP-ENV:Body><SOAP-ENV:Fault><faultcode>"
        ++ s)
      ≡ head11 ++ tags s
  unfolding tags bytes
  open11 = refl

  middle11 :
      tags (bytes "</faultcode><faultstring>" ++ s)
      ≡ bytes "/faultcode" ∷ bytes "faultstring" ∷ tags s
  unfolding tags bytes
  middle11 = refl

  close11 : tags (bytes "</faultstring>" ++ s) ≡ bytes "/faultstring" ∷ tags s
  unfolding tags bytes
  close11 = refl

  detail_open : tags (bytes "<detail>" ++ s) ≡ bytes "detail" ∷ tags s
  unfolding tags bytes
  detail_open = refl

  detail_close : tags (bytes "</detail>" ++ s) ≡ bytes "/detail" ∷ tags s
  unfolding tags bytes
  detail_close = refl

foot12_lem :
    tags (bytes "</env:Text></env:Reason>" ++ bytes "</env:Fault></env:Body></env:Envelope>")
    ≡ bytes "/env:Text" ∷ bytes "/env:Reason" ∷ foot12
unfolding tags bytes
foot12_lem = refl

foot11_lem : tags (bytes "</SOAP-ENV:Fault></SOAP-ENV:Body></SOAP-ENV:Envelope>") ≡ foot11
unfolding tags bytes
foot11_lem = refl

module _ (escape : Bytes → Bytes) (escapes : (s : Bytes) → OpensNoTag (escape s)) where
  escape_lem : (t s : Bytes) → tags (escape t ++ s) ≡ tags s
  escape_lem t s = tags-append (escape t) s (escapes t)

  detail_lem :
      (detail : Option Bytes) (s : Bytes)
      → tags (detail_v11 escape none detail ++ s) ≡ detail_tags detail ++ tags s
  unfolding detail_v11
  detail_lem none s = refl
  detail_lem (some d) s = simp (append_assoc, detail_open, escape_lem, detail_close)

  -- A fault without a detail element of its own serialises, in either version, to exactly
  -- the tags that the version prescribes, whatever its code, reason and detail text, if the
  -- escaping leaves no `<`.
  pub fault_markup :
      (f : SoapFault) (v : SoapVersion)
      → f.detail_xml ≡ none
      → tags (to_xml_bytes_versioned escape f v) ≡ prescribed v f.detail
  unfolding to_xml_bytes_versioned to_xml_bytes to_xml_bytes_v11 detail_v12
  fault_markup f soap12 e =
      rw (e, detail_v12)
        (simp (append_assoc, open12, code12, middle12, escape_lem, append-nil, foot12_lem))
  fault_markup f soap11 e =
      rw e
        (simp (append_assoc, open11, code11, middle11, escape_lem, close11, detail_lem, foot11_lem))
