-- ===== src/Wssec/UsernameToken/Disclosure.antt =====
-- What a refusal reveals.
use soap_server.Prelude.{
  Bytes, bytes, false, Option, none, some, Option-cases, ◌≡◌, ◌≢◌, inl, inr, ◌↔◌, arith, ok, str_eq,
}
use soap_server.Prelude.Int.{ℤ}
use soap_server.Xml.{Stream}
use soap_server.Fault.{fail}
use soap_server.Wssec.NonceCache.{NonceCache, Clock}
use soap_server.Wssec.Timestamp.{DateTime}
use soap_server.Wssec.UsernameToken.Names.{digest, UsernameToken}
use soap_server.Wssec.UsernameToken.Parse.{parse_username_token}
use soap_server.Wssec.UsernameToken.Validate.{
  Crypto, compute_digest, verify_password, authenticate, validate_username_token,
}

failed_ne_missing :
    ◌≢◌ {A = Bytes} (bytes "Authentication failed") (bytes "Missing Nonce for PasswordDigest")
unfolding bytes
failed_ne_missing h = ground arith

module _ (crypto : Crypto) (tolerance : ℤ) (now : DateTime) where
  open crypto use {ct_eq, ct_eq_iff}

  -- A digest token with a time and a nonce that decodes, but the wrong digest, is answered
  -- exactly as if its user were unknown.
  pub wrong_password_as_unknown :
      (security : Stream) (known unknown : Bytes → Option Bytes) (clock : Clock)
      (cache : NonceCache) (token : UsernameToken) (nonce created stored expected : Bytes)
      → parse_username_token security ≡ ok token
      → token.password_type ≡ digest
      → token.nonce ≡ some nonce
      → token.created ≡ some created
      → known token.username ≡ some stored
      → unknown token.username ≡ none
      → compute_digest crypto nonce created stored ≡ ok expected
      → expected ≢ token.password
      → validate_username_token crypto security known clock tolerance now cache
        ≡ validate_username_token crypto security unknown clock tolerance now cache
  unfolding validate_username_token authenticate verify_password
  wrong_password_as_unknown security known unknown clock cache token nonce created stored expected p
        t n c k u d w =
      let differs : ct_eq expected token.password ≡ false =
        ground (arith, ct_eq_iff expected token.password) in
      ground arith

  -- A digest token that parses and has no nonce is answered with the generic fault exactly
  -- if its user is unknown.
  pub missing_nonce_reveals_user :
      (security : Stream) (get_password : Bytes → Option Bytes) (clock : Clock) (cache : NonceCache)
      (token : UsernameToken)
      → parse_username_token security ≡ ok token
      → token.password_type ≡ digest
      → token.nonce ≡ none
      → (validate_username_token crypto security get_password clock tolerance now cache
          ≡ some (fail (bytes "Authentication failed"), cache))
        ↔ (get_password token.username ≡ none)
  unfolding validate_username_token authenticate verify_password
  missing_nonce_reveals_user security get_password clock cache token p t n =
      elim (Option-cases (get_password token.username)) [
        | inl unknown ↦ (λ _. unknown, λ _. ground arith)
        | inr (stored, known) ↦
            (λ h. absurd (ground (arith, failed_ne_missing)), λ u. absurd (ground arith))
      ]
