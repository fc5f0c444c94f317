-- ===== src/Wssec/UsernameToken/Names.antt =====
-- Namespaces and qualified names in a token, and the token itself (src/wssec/username_token.rs).
use soap_server.Prelude.{
  Bytes, bytes, Option, none, some, List, [], ◌∷◌, Map, lookup, insert, str_eq, ◌==◌, strip_prefix,
  split_at_byte, utf8_or_empty, from_utf8_lossy, if◌then◌else◌,
}
use soap_server.Xml.{Attribute, accepted}

abbrev pub wsse_ns : Bytes
wsse_ns = bytes "http://docs.oasis-open.org/wss/2004/01/oasis-200401-wss-wssecurity-secext-1.0.xsd"

abbrev pub wsu_ns : Bytes
wsu_ns = bytes "http://docs.oasis-open.org/wss/2004/01/oasis-200401-wss-wssecurity-utility-1.0.xsd"

abbrev pub password_digest_type : Bytes
password_digest_type =
    bytes
      "http://docs.oasis-open.org/wss/2004/01/oasis-200401-wss-username-token-profile-1.0#PasswordDigest"

abbrev pub password_text_type : Bytes
password_text_type =
    bytes
      "http://docs.oasis-open.org/wss/2004/01/oasis-200401-wss-username-token-profile-1.0#PasswordText"

pub data PasswordType : Type 0 where
  digest text : PasswordType

pub record UsernameToken : Type 0 where
  pub username : Bytes
  pub password : Bytes
  pub password_type : PasswordType
  pub nonce : Option Bytes
  pub created : Option Bytes

-- One attribute of `collect_ns_attrs`.
unfoldable pub bind_ns : Attribute → Map Bytes Bytes → Map Bytes Bytes
bind_ns attr ns_map =
    let key = utf8_or_empty attr.key in
    let val = from_utf8_lossy attr.value in
    elim (strip_prefix (bytes "xmlns:") key) [
      | some prefix ↦ insert prefix val ns_map
      | none ↦ if key == bytes "xmlns" then insert [] val ns_map else ns_map
    ]

abbrev bind_all : List Attribute → Map Bytes Bytes → Map Bytes Bytes
bind_all [] ns_map = ns_map
bind_all (attr ∷ attrs) ns_map = bind_all attrs (bind_ns attr ns_map)

unfoldable pub collect_ns_attrs : List (Option Attribute) → Map Bytes Bytes → Map Bytes Bytes
unfolding bind_ns
collect_ns_attrs attrs ns_map = bind_all (accepted attrs) ns_map

-- A qualified name as its prefix, if it has one, and its local name.
unfoldable pub split_name : Bytes → Option Bytes × Bytes
split_name name =
    let s = utf8_or_empty name in
    elim (split_at_byte b':' s) [ some (prefix, local) ↦ (some prefix, local) | none ↦ (none, s) ]

unfoldable pub resolve_ns : Option Bytes → Map Bytes Bytes → Option Bytes
resolve_ns (some prefix) ns_map = lookup prefix ns_map
resolve_ns none ns_map = lookup [] ns_map
