-- ===== src/Xml.antt =====
-- What the program sees of XML: the events of quick-xml's `Reader` and `NsReader`. How bytes are
-- split into events is the library's work, so a document is here the stream of the events that it
-- yields; the end of the list is `Eof`, and an `err` item is a read that failed, with its message.
pub mod Dom
use soap_server.Prelude.{Bytes, Option, none, some, List, [], ◌∷◌, Result}

pub record Attribute : Type 0 where
  pub key : Bytes
  pub value : Bytes

-- A start or an empty tag. An attribute is `none` where quick-xml refuses it.
pub record Tag : Type 0 where
  pub name : Bytes
  pub local_name : Bytes
  pub attributes : List (Option Attribute)

pub data Event : Type 0 where
  start empty : Tag → Event
  end_tag : Bytes → Event
  text cdata general_ref : Bytes → Event
  other : Event

-- An event with the namespace that its name is bound to, `none` if it is bound to none.
pub record Resolved : Type 0 where
  pub namespace : Option Bytes
  pub event : Event

abbrev pub Stream : Type 0
Stream = List (Result Bytes Resolved)

-- The readers of quick-xml that the program opens on bytes.
pub record Readers : Type 0 where
  -- `NsReader::from_reader`
  pub resolved : Bytes → Stream
  -- the same with `trim_text(true)`
  pub trimmed : Bytes → Stream
  -- `Reader::from_reader` with `trim_text(true)`: no name is resolved
  pub plain : Bytes → Stream
  -- the same with `trim_text(false)`
  pub raw : Bytes → Stream

-- `attributes().flatten()`: the attributes that quick-xml accepts.
abbrev pub accepted : List (Option Attribute) → List Attribute
accepted [] = []
accepted (none ∷ rest) = accepted rest
accepted (some a ∷ rest) = a ∷ accepted rest
