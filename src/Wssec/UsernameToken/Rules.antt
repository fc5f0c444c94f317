-- ===== src/Wssec/UsernameToken/Rules.antt =====
-- What a validated token has shown.
use soap_server.Prelude.{
  Bytes, Option, none, some, Option-cases, ◌≡◌, inl, inr, arith, ok, err, ok_or, >>=-eq-ok,
  ok_or-eq-ok, Result-cases, ◌==◌, str_eq, str_beq_iff,
}
use soap_server.Prelude.Int.{ℤ}
use soap_server.Xml.{Stream}
use soap_server.Fault.{SoapFault, Fallible}
use soap_server.Wssec.NonceCache.{NonceCache, Clock, check_and_insert}
use soap_server.Wssec.Timestamp.{DateTime, parse_created, check_freshness}
use soap_server.Wssec.UsernameToken.Names.{PasswordType, digest, text, UsernameToken}
use soap_server.Wssec.UsernameToken.Parse.{parse_username_token}
use soap_server.Wssec.UsernameToken.Validate.{
  Crypto, guard, guard-eq-ok, compute_digest, verify_password, authenticate, check_nonce,
  validate_username_token,
}

module _ (crypto : Crypto) (tolerance : ℤ) (now : DateTime) where
  open crypto use {ct_eq, ct_eq_iff, parse_from_rfc3339}

  -- The token's time is there, can be read and is fresh.
  pub record HasFreshTime (token : UsernameToken) : Type 0 where
    pub created : Bytes
    pub given : token.created ≡ some created
    pub time : DateTime
    pub parsed : parse_from_rfc3339 created ≡ some time
    pub fresh : check_freshness now time tolerance ≡ ok tt

  -- The password of the token proves that its sender knows the stored one.
  abbrev pub ProvesPassword : PasswordType → UsernameToken → Bytes → Type 0
  ProvesPassword digest token stored =
      (nonce : Bytes) × (created : Bytes) × (token.nonce ≡ some nonce)
      × (token.created ≡ some created)
      × (compute_digest crypto nonce created stored ≡ ok token.password)
  ProvesPassword text token stored = token.password ≡ stored

  verify_password-ok :
      (t : PasswordType) (token : UsernameToken) (stored : Bytes)
      → verify_password crypto t token stored tolerance now ≡ ok tt
      → HasFreshTime token × ProvesPassword t token stored
  unfolding verify_password parse_created
  verify_password-ok digest token stored h =
      let (nonce, n, h) = >>=-eq-ok (ok_or _ token.nonce) _ h in
      let (created, c, h) = >>=-eq-ok (ok_or _ token.created) _ h in
      let (expected, d, h) = >>=-eq-ok (compute_digest crypto nonce created stored) _ h in
      let (_, same, h) = >>=-eq-ok (guard (ct_eq expected token.password) _) _ h in
      let (time, t, fresh) = >>=-eq-ok (ok_or _ (parse_from_rfc3339 created)) _ h in
      (
        record {
          created = created;
          given = ok_or-eq-ok _ token.created c;
          time = time;
          parsed = ok_or-eq-ok _ (parse_from_rfc3339 created) t;
          fresh = fresh;
        },
        (
          nonce,
          created,
          ok_or-eq-ok _ token.nonce n,
          ok_or-eq-ok _ token.created c,
          rw (← (ct_eq_iff expected token.password).0 (guard-eq-ok _ _ same)) d,
        ),
      )
  verify_password-ok text token stored h =
      let (created, c, h) = >>=-eq-ok (ok_or _ token.created) _ h in
      let (time, t, h) = >>=-eq-ok (ok_or _ (parse_from_rfc3339 created)) _ h in
      let (_, fresh, same) = >>=-eq-ok (check_freshness now time tolerance) _ h in
      (
        record {
          created = created;
          given = ok_or-eq-ok _ token.created c;
          time = time;
          parsed = ok_or-eq-ok _ (parse_from_rfc3339 created) t;
          fresh = fresh;
        },
        (str_beq_iff token.password stored).0 (guard-eq-ok (token.password == stored) _ same),
      )

  -- The user of the token exists, and the token proves that user's password at a fresh time.
  pub record IsGenuine (get_password : Bytes → Option Bytes) (token : UsernameToken) : Type 0 where
    pub stored : Bytes
    pub user_known : get_password token.username ≡ some stored
    pub time : HasFreshTime token
    pub proof : ProvesPassword token.password_type token stored

  pub authenticate-IsGenuine :
      (security : Stream) (get_password : Bytes → Option Bytes) (token : UsernameToken)
      → authenticate crypto security get_password tolerance now ≡ ok token
      → (parse_username_token security ≡ ok token) × IsGenuine get_password token
  unfolding authenticate
  authenticate-IsGenuine security get_password token h =
      let (t, parsed, h) = >>=-eq-ok (parse_username_token security) _ h in
      let (stored, known, h) = >>=-eq-ok (ok_or _ (get_password t.username)) _ h in
      let (_, verified, h) =
        >>=-eq-ok (verify_password crypto t.password_type t stored tolerance now) _ h in
      let same : t ≡ token = cc in
      let (time, proof) = verify_password-ok t.password_type t stored verified in
      rw (← same) (
        parsed,
        record {
          stored = stored;
          user_known = ok_or-eq-ok _ (get_password t.username) known;
          time = time;
          proof = proof;
        },
      )

  -- What the replay check does with the nonce of a token.
  abbrev pub SpendsNonce : Clock → Option Bytes → NonceCache → NonceCache → Type 0
  SpendsNonce clock none cache cache' = cache' ≡ cache
  SpendsNonce clock (some nonce) cache cache' =
      check_and_insert clock nonce cache ≡ some (ok tt, cache')

  check_nonce-ok :
      (clock : Clock) (token : UsernameToken) (nonce : Option Bytes) (cache cache' : NonceCache)
      (user : Bytes)
      → check_nonce crypto clock token nonce cache ≡ some (ok user, cache')
      → (token.username ≡ user) × SpendsNonce clock nonce cache cache'
  unfolding check_nonce
  check_nonce-ok clock token none cache cache' user h = ground arith
  check_nonce-ok clock token (some nonce) cache cache' user h =
      elim (Option-cases (check_and_insert clock nonce cache)) [
        | inl stuck ↦ absurd (ground arith)
        | inr ((out, c), checked) ↦ ground arith
      ]

  -- What an accepted token has shown.
  pub record IsAccepted (security : Stream) (get_password : Bytes → Option Bytes) (clock : Clock)
      (cache cache' : NonceCache) (user : Bytes) : Type 0 where
    pub token : UsernameToken
    pub parsed : parse_username_token security ≡ ok token
    pub genuine : IsGenuine get_password token
    pub username : token.username ≡ user
    pub spent : SpendsNonce clock token.nonce cache cache'

  -- A user name is returned only for a token that parses, names that user, proves the stored
  -- password (by the digest of its nonce and time, or as text) at a fresh time, and whose
  -- nonce, if it has one, passed the replay check.
  pub validate-IsAccepted :
      (security : Stream) (get_password : Bytes → Option Bytes) (clock : Clock)
      (cache cache' : NonceCache) (user : Bytes)
      → validate_username_token crypto security get_password clock tolerance now cache
        ≡ some (ok user, cache')
      → IsAccepted security get_password clock cache cache' user
  unfolding validate_username_token
  validate-IsAccepted security get_password clock cache cache' user h =
      elim (Result-cases (authenticate crypto security get_password tolerance now)) [
        | inr (fault, e) ↦ absurd (ground arith)
        | inl (token, e) ↦
            let (parsed, genuine) = authenticate-IsGenuine security get_password token e in
            let (username, spent) =
              check_nonce-ok clock token token.nonce cache cache' user (ground arith) in
            record {
              token = token;
              parsed = parsed;
              genuine = genuine;
              username = username;
              spent = spent;
            }
      ]

  -- Validation of a token that is not genuine returns a fault and leaves the nonce cache as
  -- it was.
  pub refused_keeps_cache :
      (security : Stream) (get_password : Bytes → Option Bytes) (clock : Clock)
      (cache cache' : NonceCache) (out : Fallible Bytes)
      → ((token : UsernameToken)
          → parse_username_token security ≡ ok token
          → ¬ IsGenuine get_password token)
      → validate_username_token crypto security get_password clock tolerance now cache
        ≡ some (out, cache')
      → (cache' ≡ cache) × ((fault : SoapFault) × (out ≡ err fault))
  unfolding validate_username_token
  refused_keeps_cache security get_password clock cache cache' out bad h =
      elim (Result-cases (authenticate crypto security get_password tolerance now)) [
        | inr (fault, e) ↦ (ground arith, (fault, ground arith))
        | inl (token, e) ↦
            let (parsed, genuine) = authenticate-IsGenuine security get_password token e in
            absurd (bad token parsed genuine)
      ]
