-- ===== src/Tests/Wsdl.antt =====
-- A WSDL with one operation, and a request for it.
use soap_server.Prelude.{Bytes, bytes, false, none, some, [], ◌∷◌}
use soap_server.Qname.{QName}
use soap_server.Qname
use soap_server.Wsdl.Definitions.{
  soap12, document, request_response, literal, WsdlDefinition, BindingMessage, MessagePart,
}
use soap_server.Wsdl.Resolved.{ResolvedWsdl}
use soap_server.Xsd.Elements.{bounded}
use soap_server.Xsd.Types.{
  XsdType, complex, complex_type, sequence, element, no_inline, nil, cons, TypeRegistry,
}
use soap_server.Envelope.Tree.{Name, Nodes, at}
use soap_server.Envelope.Tree
use soap_server.Envelope.Document.{Document, full}
use soap_server.Wssec.UsernameToken.Names.{wsse_ns}

abbrev pub name : Bytes → QName
name local = Qname.new (bytes "urn:t") local

abbrev part : MessagePart
part = record { name = bytes "p"; element = some (name (bytes "Ping")); type_ref = none }

abbrev message_of_binding : BindingMessage
message_of_binding = record {
  body = record { use_attr = literal; namespace = none; encoding_style = none };
  headers = [];
}

abbrev pub ping : Bytes
ping = bytes "Ping"

abbrev pub definition : WsdlDefinition
definition = record {
  target_namespace = bytes "urn:t";
  imports = [];
  types = record { schemas = [] };
  messages = (bytes "In", record { name = bytes "In"; parts = part ∷ [] }) ∷ [];
  port_types =
      (
        bytes "T",
        record {
          name = bytes "T";
          operations =
              record {
                name = ping;
                input = some (record { name = none; message = name (bytes "In") });
                output = none;
                faults = [];
                style = request_response;
              }
              ∷ [];
        },
      )
      ∷ [];
  bindings =
      (
        bytes "B",
        record {
          name = bytes "B";
          port_type = name (bytes "T");
          soap_binding = record { style = document; transport = []; soap_version = soap12 };
          operations =
              record {
                name = ping;
                soap_action = bytes "act";
                input = message_of_binding;
                output = message_of_binding;
              }
              ∷ [];
        },
      )
      ∷ [];
  services =
      (
        bytes "S",
        record {
          name = bytes "S";
          ports =
              record { name = bytes "P"; binding = name (bytes "B"); address = bytes "http://h/s" }
              ∷ [];
        },
      )
      ∷ [];
}

-- `Ping` must have a child `a`.
abbrev pub ping_type : XsdType
ping_type = complex (
    complex_type none
      (sequence (
        cons
          (element
            (record {
              name = some (bytes "a");
              type_ref = none;
              min_occurs = 1;
              max_occurs = bounded 1;
              nillable = false;
              default = none;
              fixed = none;
              ref_attr = none;
            })
            no_inline)
          nil))
      [])

abbrev pub registry : TypeRegistry
registry = record { types = (name ping, ping_type) ∷ [] }

abbrev pub resolved : ResolvedWsdl
resolved = record {
  definition = definition;
  type_registry = registry;
  element_type_map = (name ping, name ping) ∷ [];
  raw_bytes = [];
}

-- A request with a security header: its tags, and the text and events of the two children.
abbrev pub tag_name : Bytes → Bytes → Name
tag_name ns local = record {
  namespace = some ns;
  qualified = local;
  local_name = local;
  attributes = [];
}

abbrev pub ping_kids : Nodes
ping_kids = Tree.cons (Tree.void (tag_name (bytes "urn:t") (bytes "a"))) Tree.nil

abbrev pub request : Document
request = record {
  version = soap12;
  envelope = record { qualified = bytes "e:Envelope"; attributes = [] };
  gap₁ = [];
  header = some (record {
    part = record { qualified = bytes "e:Header"; attributes = [] };
    children = Tree.cons (Tree.void (tag_name wsse_ns (bytes "Security"))) Tree.nil;
  });
  gap₂ = bytes " " ∷ [];
  body = record { qualified = bytes "e:Body"; attributes = [] };
  gap₃ = [];
  child = full (tag_name (bytes "urn:t") ping) ping_kids;
  after = Tree.nil;
  trailing = [];
}
