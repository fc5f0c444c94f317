-- ===== src/Wssec/UsernameToken/Reading.antt =====
-- What the token parser reads.
use soap_server.Prelude.{
  Bytes, bytes, true, false, Option, none, some, List, [], ◌∷◌, ◌++◌, lookup, insert, str_eq,
  str_beq, strip_prefix, split_at_byte, ◌≡◌, refl, arith, utf8_or_empty, from_utf8_lossy, ok, ap,
  bytes,
}
use soap_server.Xml.{Attribute, Tag, Event, start, end_tag, text, general_ref, Resolved, Stream}
use soap_server.Wssec.UsernameToken.Names.{
  wsse_ns, wsu_ns, password_digest_type, password_text_type, PasswordType, digest, UsernameToken,
}
use soap_server.Wssec.UsernameToken.Parse.{ParseState, run, parse_username_token}

-- The reader of a token resolves no namespaces.
abbrev pub unresolved : Event → Resolved
unresolved e = record { namespace = none; event = e }

-- While the parser is in a user name and in no other value, of a text, an entity reference and
-- another text only the first text becomes the user name.
pub reference_truncates_username :
    (before name after : Bytes) (rest : Stream) (s : ParseState)
    → s.in_username_elem ≡ true
    → s.in_password_elem ≡ false
    → s.in_nonce_elem ≡ false
    → s.in_created_elem ≡ false
    → run
        (ok (unresolved (text before))
          ∷ ok (unresolved (general_ref name))
          ∷ ok (unresolved (text after))
          ∷ rest)
        s
      ≡ run rest (record s { username = some (from_utf8_lossy before); in_username_elem = false })
unfolding run
reference_truncates_username before name after rest s u p n c = ap (run rest) (ground arith)

abbrev tag : Bytes → Bytes → List (Option Attribute) → Tag
tag prefix local attrs = record {
  name = prefix ++ bytes ":" ++ local;
  local_name = local;
  attributes = attrs;
}

abbrev leaf : Bytes → Bytes → List (Option Attribute) → Bytes → Stream → Stream
leaf prefix local attrs value rest =
    ok (unresolved (start (tag prefix local attrs)))
    ∷ ok (unresolved (text value))
    ∷ ok (unresolved (end_tag (prefix ++ bytes ":" ++ local)))
    ∷ rest

abbrev optional_leaf : Bytes → Bytes → Option Bytes → Stream → Stream
optional_leaf prefix local none rest = rest
optional_leaf prefix local (some value) rest = leaf prefix local [] value rest

abbrev type_uri : PasswordType → Bytes
type_uri digest = password_digest_type
type_uri PasswordType.text = password_text_type

abbrev attr : Bytes → Bytes → Option Attribute
attr key value = some (record { key = key; value = value })

-- The events of a token, written with the prefixes `wsse` and `wsu`.
abbrev pub token_events : UsernameToken → Stream
token_events token =
    ok (
      unresolved (
        start (
          tag (bytes "wsse") (bytes "UsernameToken")
            (attr (bytes "xmlns:wsse") wsse_ns ∷ attr (bytes "xmlns:wsu") wsu_ns ∷ []))))
    ∷ leaf (bytes "wsse") (bytes "Username") [] token.username (
        leaf (bytes "wsse") (bytes "Password")
          (attr (bytes "Type") (type_uri token.password_type) ∷ []) token.password
          (optional_leaf (bytes "wsse") (bytes "Nonce") token.nonce (
            optional_leaf (bytes "wsu") (bytes "Created") token.created
              (ok (unresolved (end_tag (bytes "wsse:UsernameToken"))) ∷ []))))

abbrev pub decoded : Option Bytes → Option Bytes
decoded none = none
decoded (some s) = some (from_utf8_lossy s)

pub parse-token_events :
    (u p : Bytes) (t : PasswordType) (n c : Option Bytes)
    → parse_username_token (
        token_events
          (record { username = u; password = p; password_type = t; nonce = n; created = c }))
      ≡ ok (record {
        username = from_utf8_lossy u;
        password = from_utf8_lossy p;
        password_type = t;
        nonce = decoded n;
        created = decoded c;
      })
unfolding parse_username_token bytes str_beq strip_prefix split_at_byte utf8_or_empty
    from_utf8_lossy lookup insert
parse-token_events u p digest none none = refl
parse-token_events u p digest none (some c) = refl
parse-token_events u p digest (some n) none = refl
parse-token_events u p digest (some n) (some c) = refl
parse-token_events u p _ none none = refl
parse-token_events u p _ none (some c) = refl
parse-token_events u p _ (some n) none = refl
parse-token_events u p _ (some n) (some c) = refl
