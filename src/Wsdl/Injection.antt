-- ===== src/Wsdl/Injection.antt =====
-- What the writing of schemas back as text loses (src/wsdl/parser.rs).
use soap_server.Prelude.{◌≡◌, refl, ap, ◌∙◌, Bytes, bytes, List, [], ◌∷◌, ◌++◌, append_assoc}
use soap_server.Xml.Dom.{Element, Nodes}
use soap_server.Wsdl.Parse.Text.{
  write_attributes, find_prefix_for_ns, qualified_name, write_element, node_to_string,
}

-- A value that ends the attribute and starts another one.
abbrev pub forged : Bytes → Bytes → Bytes → Bytes
forged value name other = value ++ (bytes "\" " ++ (name ++ (bytes "=\"" ++ other)))

write_attributes-append :
    (a b : List (Bytes × Bytes))
    → write_attributes (a ++ b) ≡ write_attributes a ++ write_attributes b
unfolding write_attributes
write_attributes-append [] b = refl
write_attributes-append ((name, value) ∷ a) b = simp (write_attributes-append a b, append_assoc)

forged_attribute :
    (name value other_name other : Bytes) (after : List (Bytes × Bytes))
    → write_attributes ((name, forged value other_name other) ∷ after)
      ≡ write_attributes ((name, value) ∷ (other_name, other) ∷ after)
unfolding write_attributes bytes
forged_attribute name value other_name other after = simp append_assoc

abbrev pub with_attributes : Element → List (Bytes × Bytes) → Element
with_attributes node attrs = record node { attributes = attrs }

-- A node with an attribute value that ends in a quote followed by the text of another
-- attribute is written as the same text as a node that has both attributes, wherever they
-- stand among its attributes.
pub attribute_injection :
    (node : Element) (kids : Nodes) (before after : List (Bytes × Bytes))
    (name value other_name other : Bytes)
    → node_to_string
        (with_attributes node (before ++ (name, forged value other_name other) ∷ after))
        kids
      ≡ node_to_string
          (with_attributes node (before ++ (name, value) ∷ (other_name, other) ∷ after))
          kids
unfolding node_to_string write_element qualified_name find_prefix_for_ns bytes
attribute_injection node kids before after name value other_name other =
    let same =
      write_attributes-append before ((name, forged value other_name other) ∷ after)
      ∙ ap (λ s. write_attributes before ++ s)
          (forged_attribute name value other_name other after) in
    rw (same, write_attributes-append before ((name, value) ∷ (other_name, other) ∷ after))
