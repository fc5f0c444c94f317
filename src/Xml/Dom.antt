-- ===== src/Xml/Dom.antt =====
-- What the program sees of a roxmltree document: a tree whose elements answer the queries that the
-- parsers make. How a document is read, and what the answers are, is that library's work.
use soap_server.Prelude.{Bytes, Option, List}

pub record Element : Type 0 where
  -- `tag_name().namespace()` and `tag_name().name()`
  pub tag_namespace : Option Bytes
  pub tag : Bytes
  -- `attribute(name)`
  pub attribute : Bytes → Option Bytes
  -- `lookup_namespace_uri(prefix)`
  pub lookup_namespace_uri : Option Bytes → Option Bytes
  -- `namespaces()`: names and URIs, in the order of iteration
  pub namespaces : List (Option Bytes × Bytes)
  -- `attributes()`: local names and values
  pub attributes : List (Bytes × Bytes)

-- The children of a node, in order: elements with their own children, texts, and what is neither.
pub data Nodes : Type 0 where
  nil : Nodes
  element : Element → Nodes → Nodes → Nodes
  text : Bytes → Nodes → Nodes
  other : Nodes → Nodes

-- An element with its children.
abbrev pub Node : Type 0
Node = Element × Nodes

-- The children that stand in one list before those in another.
abbrev pub append : Nodes → Nodes → Nodes
append nil more = more
append (element e kids rest) more = element e kids (append rest more)
append (text s rest) more = text s (append rest more)
append (other rest) more = other (append rest more)
