-- ===== src/Xsd/Models.antt =====
-- What the parser keeps of a content model (src/xsd/parser.rs).
use soap_server.Prelude.{◌≡◌, refl, sym, ap, ◌∙◌, bytes, List, [], ◌++◌, append_assoc}
use soap_server.Xml.Dom.{Element, Nodes, append}
use soap_server.Xsd.Types.{ComplexContent, empty, complex_extension, XsdElement}
use soap_server.Xsd.Extension.{required_names-append}
use soap_server.Dispatch.Validate.{required_names}
use soap_server.Xsd.Parse.Names.{kind, Kind}
use soap_server.Xsd.Parse.Particles.{
  particle, extension_child, visit_inline_type, visit_particle_children, visit_complex_type,
  visit_complex_children, visit_complex_content, visit_extension_children, extension_base,
}

visit_particle_children-append :
    (a b : Nodes)
    → visit_particle_children (append a b) ≡ visit_particle_children a ++ visit_particle_children b
unfolding visit_particle_children
visit_particle_children-append Nodes.nil b = refl
visit_particle_children-append (Nodes.element node kids rest) b =
    ap (λ l. particle (kind node) node (visit_inline_type kids) (visit_particle_children kids) ++ l)
      (visit_particle_children-append rest b)
    ∙ sym (append_assoc _ (visit_particle_children rest) (visit_particle_children b))
visit_particle_children-append (Nodes.text s rest) b = visit_particle_children-append rest b
visit_particle_children-append (Nodes.other rest) b = visit_particle_children-append rest b

-- A compositor, whose children are particles.
abbrev pub IsCompositor : Kind → Type 0
IsCompositor Kind.sequence = Unit {0}
IsCompositor Kind.choice = Unit {0}
IsCompositor Kind.all = Unit {0}
IsCompositor _ = ⊥

particle-compositor :
    (k : Kind) (node : Element) (kids : Nodes)
    → IsCompositor k
    → particle k node (visit_inline_type kids) (visit_particle_children kids)
      ≡ visit_particle_children kids
particle-compositor Kind.sequence node kids h = refl
particle-compositor Kind.choice node kids h = refl
particle-compositor Kind.all node kids h = refl
particle-compositor _ node kids h = absurd h

nested_compositor_spliced :
    (before kids after : Nodes) (node : Element)
    → IsCompositor (kind node)
    → visit_particle_children (append before (Nodes.element node kids after))
      ≡ visit_particle_children (append before (append kids after))
unfolding visit_particle_children
nested_compositor_spliced before kids after node h =
    visit_particle_children-append before (Nodes.element node kids after)
    ∙ ap (λ l. visit_particle_children before ++ (l ++ visit_particle_children after))
        (particle-compositor (kind node) node kids h)
    ∙ ap (λ l. visit_particle_children before ++ l)
        (sym (visit_particle_children-append kids after))
    ∙ sym (visit_particle_children-append before (append kids after))

-- The element names that a content model requires, where a sequence, choice or group of all
-- stands inside it among other children, are those of the children before it, those of its own
-- children, alternatives of a choice included, and those of the children after it.
pub nested_alternatives_required :
    (before kids after : Nodes) (node : Element)
    → IsCompositor (kind node)
    → required_names (visit_particle_children (append before (Nodes.element node kids after)))
      ≡ required_names (visit_particle_children before)
        ++ (required_names (visit_particle_children kids)
            ++ required_names (visit_particle_children after))
nested_alternatives_required before kids after node h =
    ap required_names (nested_compositor_spliced before kids after node h)
    ∙ ap required_names (visit_particle_children-append before (append kids after))
    ∙ required_names-append (visit_particle_children before)
        (visit_particle_children (append kids after))
    ∙ ap (λ l. required_names (visit_particle_children before) ++ l)
        (ap required_names (visit_particle_children-append kids after)
          ∙ required_names-append (visit_particle_children kids) (visit_particle_children after))

-- A reference to a model group among the particles of a content model, whatever its attributes
-- and children, leaves the elements that are read as they are without it.
pub group_references_lost :
    (before kids after : Nodes) (node : Element)
    → kind node ≡ Kind.group
    → visit_particle_children (append before (Nodes.element node kids after))
      ≡ visit_particle_children (append before after)
unfolding visit_particle_children
group_references_lost before kids after node h =
    visit_particle_children-append before (Nodes.element node kids after)
    ∙ ap
        (λ (k : Kind).
          visit_particle_children before
          ++ (particle k node (visit_inline_type kids) (visit_particle_children kids)
              ++ visit_particle_children after))
        h
    ∙ sym (visit_particle_children-append before after)

-- Children that an extension's loop passes over.
abbrev pub IsAttribute : Kind → Type 0
IsAttribute Kind.attribute = Unit {0}
IsAttribute Kind.attribute_group = Unit {0}
IsAttribute Kind.any_attribute = Unit {0}
IsAttribute _ = ⊥

extension_child-IsAttribute :
    (k : Kind) (els : List XsdElement) (content : ComplexContent)
    → IsAttribute k
    → extension_child k els content ≡ content
extension_child-IsAttribute Kind.attribute els content h = refl
extension_child-IsAttribute Kind.attribute_group els content h = refl
extension_child-IsAttribute Kind.any_attribute els content h = refl
extension_child-IsAttribute _ els content h = absurd h

visit_extension_children-skip :
    (before kids after : Nodes) (attr : Element) (content : ComplexContent)
    → IsAttribute (kind attr)
    → visit_extension_children (append before (Nodes.element attr kids after)) content
      ≡ visit_extension_children (append before after) content
unfolding visit_particle_children
visit_extension_children-skip Nodes.nil kids after attr content h =
    ap (visit_extension_children after)
      (extension_child-IsAttribute (kind attr) (visit_particle_children kids) content h)
visit_extension_children-skip (Nodes.element node inner rest) kids after attr content h =
    visit_extension_children-skip rest kids after attr
      (extension_child (kind node) (visit_particle_children inner) content) h
visit_extension_children-skip (Nodes.text s rest) kids after attr content h =
    visit_extension_children-skip rest kids after attr content h
visit_extension_children-skip (Nodes.other rest) kids after attr content h =
    visit_extension_children-skip rest kids after attr content h

-- A complex type whose first child is a `complexContent` with an extension.
abbrev pub extended : Element → Element → Nodes → Nodes → Nodes → Nodes
extended content_node extension children more rest =
    Nodes.element content_node (Nodes.element extension children more) rest

visit_complex_content-extension :
    (extension : Element) (children more : Nodes)
    → kind extension ≡ Kind.extension
    → visit_complex_content (Nodes.element extension children more)
      ≡ complex_extension (extension_base extension) (visit_extension_children children empty)
unfolding visit_particle_children
visit_complex_content-extension extension children more e = rw (e, visit_complex_content)

visit_complex_children-complex_content :
    (content_node node : Element) (kids rest : Nodes)
    → kind content_node ≡ Kind.complex_content
    → visit_complex_type node (Nodes.element content_node kids rest)
      ≡ visit_complex_children rest (node.attribute (bytes "name")) (visit_complex_content kids) []
unfolding visit_complex_type visit_particle_children
visit_complex_children-complex_content content_node node kids rest c =
    rw (c, visit_complex_type, visit_complex_children)

-- A complex type whose first child is a complexContent that begins with an extension is read
-- alike with and without an attribute, attribute group or any-attribute among the children of
-- the extension.
pub extension_attributes_lost :
    (node content_node extension attr : Element) (before kids after more rest : Nodes)
    → kind content_node ≡ Kind.complex_content
    → kind extension ≡ Kind.extension
    → IsAttribute (kind attr)
    → visit_complex_type node
        (extended content_node extension (append before (Nodes.element attr kids after)) more rest)
      ≡ visit_complex_type node (extended content_node extension (append before after) more rest)
extension_attributes_lost node content_node extension attr before kids after more rest c e h =
    let with = append before (Nodes.element attr kids after) in
    let without = append before after in
    let type_of = λ (inner : ComplexContent).
      visit_complex_children rest (node.attribute (bytes "name")) inner [] in
    visit_complex_children-complex_content content_node node (Nodes.element extension with more)
      rest c
    ∙ ap type_of (visit_complex_content-extension extension with more e)
    ∙ ap (λ inner. type_of (complex_extension (extension_base extension) inner))
        (visit_extension_children-skip before kids after attr empty h)
    ∙ ap type_of (sym (visit_complex_content-extension extension without more e))
    ∙ sym (
        visit_complex_children-complex_content content_node node
          (Nodes.element extension without more) rest c)
