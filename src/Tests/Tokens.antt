-- ===== src/Tests/Tokens.antt =====
-- Tokens, on concrete inputs.
use soap_server.Prelude.{
  true, ◌≡◌, ◌≢◌, refl, Bytes, bytes, none, some, arith, ok, err, contains, insert_set, str_beq,
  strip_prefix, split_at_byte, utf8_or_empty, from_utf8_lossy, lookup, insert,
}
use soap_server.Prelude.Int.{pos}
use soap_server.Fault.{SoapFault, fail}
use soap_server.Wssec.NonceCache.{
  check_and_insert, check_rotated, is_known, make_room, remember, rotate_if_needed,
}
use soap_server.Wssec.Timestamp.{check_freshness, parse_created}
use soap_server.Wssec.UsernameToken.Names.{digest, UsernameToken}
use soap_server.Wssec.UsernameToken.Parse.{ParseState, initial, parse_username_token}
use soap_server.Wssec.UsernameToken.Validate.{
  authenticate, verify_password, compute_digest, add_base64_padding, check_nonce,
  validate_username_token,
}
use soap_server.Wssec.UsernameToken.Rules.{
  IsGenuine, IsAccepted, validate-IsAccepted, refused_keeps_cache,
}
use soap_server.Wssec.UsernameToken.Disclosure.{wrong_password_as_unknown}
use soap_server.Wssec.UsernameToken.Reading.{token_events, parse-token_events}
use soap_server.Tests.Fixture.{
  crypto, nonce, token, security, all_known, none_known, cache, used, early,
}

validate-IsAccepted_example :
    IsAccepted crypto (pos 300) 0 security all_known early cache used (bytes "ann")
unfolding validate_username_token authenticate parse_username_token verify_password compute_digest
    add_base64_padding parse_created check_freshness check_nonce check_and_insert check_rotated
    is_known make_room remember rotate_if_needed contains insert_set lookup insert strip_prefix
    split_at_byte utf8_or_empty from_utf8_lossy bytes str_beq
validate-IsAccepted_example =
    validate-IsAccepted crypto (pos 300) 0 security all_known early cache used (bytes "ann") refl

-- A token with a wrong password.
abbrev wrong : UsernameToken
wrong = record token { password = bytes "guess" }

wrong_digest : compute_digest crypto nonce (bytes "t") (bytes "pw") ≢ ok (bytes "guess")
unfolding compute_digest add_base64_padding bytes
wrong_digest h = ground arith

wrong_is_not-IsGenuine :
    (t : UsernameToken)
    → parse_username_token (token_events wrong) ≡ ok t
    → ¬ IsGenuine crypto (pos 300) 0 all_known t
unfolding from_utf8_lossy bytes
wrong_is_not-IsGenuine t read genuine =
    let parsed : parse_username_token (token_events wrong) ≡ ok wrong =
      parse-token_events (bytes "ann") (bytes "guess") digest (some nonce) (some (bytes "t")) in
    let same : wrong ≡ t = cc (read, parsed) in
    let real = rw (← same) at genuine in
    let (nonce', created', n, c, d) = real.proof in
    let same_nonce : nonce ≡ nonce' = cc n in
    let same_time : bytes "t" ≡ created' = cc c in
    let same_password : bytes "pw" ≡ real.stored = cc (real.user_known) in
    wrong_digest (rw (← same_nonce, ← same_time, ← same_password) at d)

refused_keeps_cache_example :
    (cache ≡ cache)
    × ((fault : SoapFault) × (fail {A = Bytes} (bytes "Authentication failed") ≡ err fault))
unfolding validate_username_token authenticate parse_username_token verify_password compute_digest
    add_base64_padding parse_created check_freshness check_nonce lookup insert strip_prefix
    split_at_byte utf8_or_empty from_utf8_lossy bytes str_beq
refused_keeps_cache_example =
    refused_keeps_cache crypto (pos 300) 0 (token_events wrong) all_known early cache cache
      (fail (bytes "Authentication failed")) wrong_is_not-IsGenuine refl

wrong_password_as_unknown_example :
    validate_username_token crypto (token_events wrong) all_known early (pos 300) 0 cache
    ≡ validate_username_token crypto (token_events wrong) none_known early (pos 300) 0 cache
unfolding parse_username_token compute_digest add_base64_padding lookup insert strip_prefix
    split_at_byte utf8_or_empty from_utf8_lossy bytes str_beq
wrong_password_as_unknown_example =
    wrong_password_as_unknown crypto (pos 300) 0 (token_events wrong) all_known none_known early
      cache wrong nonce (bytes "t") (bytes "pw") (bytes "n0n0tpw") refl refl refl refl refl refl
      refl (λ h. ground arith)

abbrev no_nonce : UsernameToken
no_nonce = record token { nonce = none }

abbrev in_username : ParseState
in_username = record initial { in_username_elem = true }
