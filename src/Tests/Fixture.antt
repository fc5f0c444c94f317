-- ===== src/Tests/Fixture.antt =====
-- Values that the tests share.
use soap_server.Prelude.{Bytes, bytes, Option, none, some, [], ◌∷◌, str_beq, str_beq_iff, ok}
use soap_server.Xml.{Stream}
use soap_server.Wssec.NonceCache.{NonceCache, Clock, with_max_entries}
use soap_server.Wssec.UsernameToken.Names.{digest, UsernameToken}
use soap_server.Wssec.UsernameToken.Validate.{Crypto}
use soap_server.Wssec.UsernameToken.Reading.{token_events}

-- Encodings and a hash that change nothing, and a clock that reads every time as 0.
abbrev pub crypto : Crypto
crypto = record {
  decode = λ s. ok s;
  encode = λ s. s;
  sha1 = λ s. s;
  ct_eq = str_beq;
  ct_eq_iff = str_beq_iff;
  parse_from_rfc3339 = λ s. some 0;
}

abbrev pub nonce : Bytes
nonce = bytes "n0n0"

abbrev pub token : UsernameToken
token = record {
  username = bytes "ann";
  password = bytes "n0n0tpw";
  password_type = digest;
  nonce = some nonce;
  created = some (bytes "t");
}

abbrev pub security : Stream
security = token_events token

-- Every user's password is `pw`, or no user is known.
abbrev pub all_known : Bytes → Option Bytes
all_known name = some (bytes "pw")

abbrev pub none_known : Bytes → Option Bytes
none_known name = none

-- An empty cache of 10-second windows that holds two nonces a bucket.
abbrev pub cache : NonceCache
cache = with_max_entries 0 10 2

-- The cache after the nonce of the token.
abbrev pub used : NonceCache
used = record cache { current = nonce ∷ [] }

-- One reading, in the first second.
abbrev pub early : Clock
early = record { readings = 5 ∷ []; instant = 5 }

-- One reading, after three seconds.
abbrev pub later : Clock
later = record { readings = 3_000_000_000 ∷ []; instant = 3_000_000_000 }
