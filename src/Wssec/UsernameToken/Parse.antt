-- ===== src/Wssec/UsernameToken/Parse.antt =====
-- `parse_username_token` of src/wssec/username_token.rs, as a machine over the events.
use soap_server.Prelude.{
  Bytes, bytes, Bool, true, false, ◌&&◌, Option, none, some, List, [], ◌∷◌, ◌++◌, Map, str_eq, ◌==◌,
  utf8_or_empty, from_utf8_lossy, if◌then◌else◌, ok, err, ok_or, ◌>>=◌,
}
use soap_server.Xml.{
  Attribute, accepted, Tag, Event, start, empty, end_tag, text, general_ref, Stream,
}
use soap_server.Fault.{Fallible, fail, sender_fault}
use soap_server.Wssec.UsernameToken.Names.{
  wsse_ns, wsu_ns, password_digest_type, password_text_type, PasswordType, digest, UsernameToken,
  collect_ns_attrs, split_name, resolve_ns,
}

-- The variables of the loop.
pub record ParseState : Type 0 where
  pub username : Option Bytes
  pub password : Option Bytes
  pub password_type : PasswordType
  pub nonce : Option Bytes
  pub created : Option Bytes
  pub ns_map : Map Bytes Bytes
  pub in_username_token : Bool
  pub in_username_elem : Bool
  pub in_password_elem : Bool
  pub in_nonce_elem : Bool
  pub in_created_elem : Bool
  pub found_token : Bool

abbrev pub initial : ParseState
initial = record {
  username = none;
  password = none;
  password_type = digest;
  nonce = none;
  created = none;
  ns_map = [];
  in_username_token = false;
  in_username_elem = false;
  in_password_elem = false;
  in_nonce_elem = false;
  in_created_elem = false;
  found_token = false;
}

abbrev pub is_ns : Bytes → Option Bytes → Bool
is_ns uri none = false
is_ns uri (some ns) = ns == uri

abbrev type_of_value : Bytes → PasswordType
type_of_value val =
    if val == password_digest_type
    then PasswordType.digest
    else if val == password_text_type
    then PasswordType.text
    else PasswordType.digest

-- The loop over the attributes of `Password`.
abbrev read_type : List Attribute → PasswordType → PasswordType
read_type [] t = t
read_type (attr ∷ attrs) t = read_type attrs (
    if utf8_or_empty attr.key == bytes "Type"
    then type_of_value (from_utf8_lossy attr.value)
    else t)

-- The arms of the match on a start tag's name.
unfoldable pub enter : Tag → Bytes → Option Bytes → ParseState → ParseState
enter tag local ns s =
    if local == bytes "UsernameToken" && is_ns wsse_ns ns
    then record s { in_username_token = true; found_token = true }
    else if local == bytes "Username" && is_ns wsse_ns ns && s.in_username_token
    then record s { in_username_elem = true }
    else if local == bytes "Password" && is_ns wsse_ns ns && s.in_username_token
    then record s {
      in_password_elem = true;
      password_type = read_type (accepted tag.attributes) s.password_type;
    }
    else if local == bytes "Nonce" && is_ns wsse_ns ns && s.in_username_token
    then record s { in_nonce_elem = true }
    else if local == bytes "Created" && is_ns wsu_ns ns && s.in_username_token
    then record s { in_created_elem = true }
    else s

unfoldable pub on_start : Tag → ParseState → ParseState
unfolding enter collect_ns_attrs split_name resolve_ns
on_start tag s =
    let ns_map = collect_ns_attrs tag.attributes s.ns_map in
    let (prefix, local) = split_name tag.name in
    enter tag local (resolve_ns prefix ns_map) (record s { ns_map = ns_map })

unfoldable pub on_empty : Tag → ParseState → ParseState
unfolding collect_ns_attrs split_name resolve_ns
on_empty tag s =
    let ns_map = collect_ns_attrs tag.attributes s.ns_map in
    let (prefix, local) = split_name tag.name in
    if local == bytes "UsernameToken" && is_ns wsse_ns (resolve_ns prefix ns_map)
    then record s { ns_map = ns_map; found_token = true }
    else record s { ns_map = ns_map }

unfoldable pub on_text : Bytes → ParseState → ParseState
on_text raw s =
    let value = some (from_utf8_lossy raw) in
    if s.in_username_elem
    then record s { username = value; in_username_elem = false }
    else if s.in_password_elem
    then record s { password = value; in_password_elem = false }
    else if s.in_nonce_elem
    then record s { nonce = value; in_nonce_elem = false }
    else if s.in_created_elem
    then record s { created = value; in_created_elem = false }
    else s

unfoldable pub on_end : Bytes → ParseState → ParseState
unfolding split_name
on_end name s =
    let (prefix, local) = split_name name in
    if local == bytes "UsernameToken"
    then record s { in_username_token = false }
    else if local == bytes "Username"
    then record s { in_username_elem = false }
    else if local == bytes "Password"
    then record s { in_password_elem = false }
    else if local == bytes "Nonce"
    then record s { in_nonce_elem = false }
    else if local == bytes "Created"
    then record s { in_created_elem = false }
    else s

unfoldable pub step : Event → ParseState → ParseState
unfolding on_start on_empty on_text on_end
step (start tag) s = on_start tag s
step (empty tag) s = on_empty tag s
step (text raw) s = on_text raw s
step (end_tag name) s = on_end name s
step (general_ref name) s = s
step _ s = s

-- The loop, up to `Eof` or an error.
unfoldable pub run : Stream → ParseState → Fallible ParseState
unfolding step
run [] s = ok s
run (err e ∷ rest) s = fail (bytes "WS-Security XML parse error: " ++ e)
run (ok item ∷ rest) s = run rest (step item.event s)

-- What follows the loop.
unfoldable pub finish : ParseState → Fallible UsernameToken
finish s =
    if s.found_token
    then (do
      username ← ok_or (sender_fault (bytes "Missing Username in UsernameToken")) s.username
      password ← ok_or (sender_fault (bytes "Missing Password in UsernameToken")) s.password
      ok (record {
        username = username;
        password = password;
        password_type = s.password_type;
        nonce = s.nonce;
        created = s.created;
      }))
    else fail (bytes "Missing UsernameToken")

unfoldable pub parse_username_token : Stream → Fallible UsernameToken
unfolding run finish
parse_username_token events = do s ← run events initial; finish s
