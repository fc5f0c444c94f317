-- ===== src/Wssec/UsernameToken/Validate.antt =====
-- Checking a token's password, time and nonce (src/wssec/username_token.rs). The encodings, the
-- hash and the comparison come from other crates and are the fields of `Crypto`.
use soap_server.Prelude.{
  ℕ, ◌-◌, ◌%◌, Bytes, bytes, Bool, true, false, ◌≡◌, refl, ◌↔◌, Option, none, some, [], ◌∷◌, ◌++◌,
  length, nat_beq, str_eq, ◌==◌, if◌then◌else◌, Result, ok, err, ok_or, map_err, ◌>>=◌, ◌>>◌, zero,
  suc,
}
use soap_server.Prelude.Int.{ℤ}
use soap_server.Xml.{Stream}
use soap_server.Fault.{Fallible, fail, sender_fault}
use soap_server.Wssec.NonceCache.{NonceCache, Clock, check_and_insert}
use soap_server.Wssec.Timestamp.{DateTime, parse_created, check_freshness}
use soap_server.Wssec.UsernameToken.Names.{PasswordType, digest, text, UsernameToken}
use soap_server.Wssec.UsernameToken.Parse.{parse_username_token}

pub record Crypto : Type 0 where
  -- `BASE64.decode`, with the message of its error, and `BASE64.encode`
  pub decode : Bytes → Result Bytes Bytes
  pub encode : Bytes → Bytes
  pub sha1 : Bytes → Bytes
  -- `subtle::ConstantTimeEq::ct_eq`
  pub ct_eq : Bytes → Bytes → Bool
  pub ct_eq_iff : (a b : Bytes) → (ct_eq a b ≡ true) ↔ (a ≡ b)
  -- `DateTime::parse_from_rfc3339`
  pub parse_from_rfc3339 : Bytes → Option DateTime

abbrev repeat_byte : ℕ → ℕ → Bytes
repeat_byte b zero = []
repeat_byte b (suc n) = b ∷ repeat_byte b n

unfoldable pub add_base64_padding : Bytes → Bytes
add_base64_padding s =
    let remainder = length s % 4 in
    if nat_beq remainder 0 then s else s ++ repeat_byte b'=' (4 - remainder)

abbrev pub guard : Bool → Bytes → Fallible (Unit {0})
guard b reason = if b then ok tt else fail reason

pub guard-eq-ok : (b : Bool) (reason : Bytes) → guard b reason ≡ ok tt → b ≡ true
guard-eq-ok true reason h = refl
guard-eq-ok false reason h = cc

module _ (crypto : Crypto) where
  open crypto use {decode, encode, sha1, ct_eq, parse_from_rfc3339}

  unfoldable pub compute_digest : Bytes → Bytes → Bytes → Fallible Bytes
  unfolding add_base64_padding
  compute_digest nonce_b64 created password = do
    nonce_bytes ←
        map_err (λ e. sender_fault (bytes "Invalid nonce encoding: " ++ e))
          (decode (add_base64_padding nonce_b64))
    ok (encode (sha1 (nonce_bytes ++ created ++ password)))

  -- The match on the password's type.
  unfoldable pub verify_password :
      PasswordType → UsernameToken → Bytes → ℤ → DateTime → Fallible (Unit {0})
  verify_password digest token stored tolerance_secs now = do
    nonce ← ok_or (sender_fault (bytes "Missing Nonce for PasswordDigest")) token.nonce
    created ← ok_or (sender_fault (bytes "Missing Created for PasswordDigest")) token.created
    expected ← compute_digest nonce created stored
    guard (ct_eq expected token.password) (bytes "Authentication failed")
    created_dt ← parse_created parse_from_rfc3339 created
    check_freshness now created_dt tolerance_secs
  verify_password text token stored tolerance_secs now = do
    created ← ok_or (sender_fault (bytes "Missing Created for PasswordText")) token.created
    created_dt ← parse_created parse_from_rfc3339 created
    check_freshness now created_dt tolerance_secs
    guard (token.password == stored) (bytes "Authentication failed")

  -- The steps before the nonce is looked at: parse, look the user up, verify the password.
  unfoldable pub authenticate :
      Stream → (Bytes → Option Bytes) → ℤ → DateTime → Fallible UsernameToken
  authenticate security get_password tolerance_secs now = do
    token ← parse_username_token security
    stored ← ok_or (sender_fault (bytes "Authentication failed")) (get_password token.username)
    verify_password token.password_type token stored tolerance_secs now
    ok token

  -- The replay check of a token that carries a nonce.
  unfoldable pub check_nonce :
      Clock → UsernameToken → Option Bytes → NonceCache → Option (Fallible Bytes × NonceCache)
  check_nonce clock token none cache = some (ok token.username, cache)
  check_nonce clock token (some nonce) cache = elim (check_and_insert clock nonce cache) [
    | none ↦ none
    | some (out, cache') ↦ some ((do out; ok token.username), cache')
  ]

  abbrev pub finish_validation :
      Clock → Fallible UsernameToken → NonceCache → Option (Fallible Bytes × NonceCache)
  finish_validation clock (err fault) cache = some (err fault, cache)
  finish_validation clock (ok token) cache = check_nonce clock token token.nonce cache

  -- `none` only where the rotation of the cache outlasts the readings of the clock.
  unfoldable pub validate_username_token :
      Stream
      → (Bytes → Option Bytes)
      → Clock
      → ℤ
      → DateTime
      → NonceCache
      → Option (Fallible Bytes × NonceCache)
  validate_username_token security get_password clock tolerance_secs now cache =
      finish_validation clock (authenticate security get_password tolerance_secs now) cache
