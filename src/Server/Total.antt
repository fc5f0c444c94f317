-- ===== src/Server/Total.antt =====
-- Every request is answered (src/server.rs).
use soap_server.Prelude.{
  ℕ, suc, ◌+◌, ◌*◌, ◌≤◌, ◌<◌, Bytes, Bool-cases, Option, none, some, Option-cases, List, ◌∷◌, ◌≡◌,
  ◌≢◌, inl, inr, arith, ok, err, Result-cases, All, length,
}
use soap_server.Envelope.Parse.{ParsedEnvelope, detect_soap_version}
use soap_server.Envelope.Total.{parse_envelope_total}
use soap_server.Dispatch.Table.{DispatchEntry, DispatchTable}
use soap_server.Wssec.NonceCache.{NonceCache, Clock, check_and_insert}
use soap_server.Wssec.NonceCache.Rotation.{window, rotate_if_needed_total}
use soap_server.Wssec.Timestamp.{DateTime}
use soap_server.Wssec.UsernameToken.Names.{UsernameToken}
use soap_server.Wssec.UsernameToken.Validate.{authenticate, check_nonce, validate_username_token}
use soap_server.Server.Handler.{SoapHandler}
use soap_server.Server.Request.{HeaderMap, content_type, find_security_header}
use soap_server.Server.Service.{Library, SoapService, Outcome}
use soap_server.Server.Post.{authorize, select, serve, post}

-- The readings of the clock reach no further than the windows that they can rotate away.
pub record IsEnough (clock : Clock) (cache : NonceCache) : Type 0 where
  pub first : ℕ
  pub rest : List ℕ
  pub readings : clock.readings ≡ first ∷ rest
  pub last : ℕ
  pub bounded : All (λ t. t ≤ last) (first ∷ rest)
  pub enough : last < cache.bucket_start + window cache * suc (length rest)

module _ (clock : Clock) (cache : NonceCache) (positive : 0 < cache.half_window_secs)
    (enough : IsEnough clock cache) where
  check_and_insert-ne-none : (nonce : Bytes) → check_and_insert clock nonce cache ≢ none
  unfolding check_and_insert
  check_and_insert-ne-none nonce h =
      let (c, rotated) =
        rotate_if_needed_total enough.first enough.rest cache enough.last positive enough.bounded
          enough.enough in
      ground (arith, enough.readings)

  module _ {W : Type 0} (lib : Library) (svc : SoapService W) (now : DateTime) where
    open lib use {readers, crypto}

    check_nonce-ne-none :
        (token : UsernameToken) (nonce : Option Bytes)
        → check_nonce crypto clock token nonce cache ≢ none
    unfolding check_nonce
    check_nonce-ne-none token none h = ground arith
    check_nonce-ne-none token (some nonce) h =
        elim (Option-cases (check_and_insert clock nonce cache)) [
          | inl stuck ↦ check_and_insert-ne-none nonce stuck
          | inr ((out, c), e) ↦ ground arith
        ]

    validate-ne-none :
        (security : Bytes) (f : Bytes → Option Bytes)
        → validate_username_token crypto
            (readers.plain security)
            f
            clock
            svc.timestamp_tolerance_secs
            now
            cache
          ≢ none
    unfolding validate_username_token
    validate-ne-none security f h =
        elim (Result-cases
          (authenticate crypto (readers.plain security) f svc.timestamp_tolerance_secs now)) [
            | inr (fault, e) ↦ ground arith
            | inl (token, e) ↦ check_nonce-ne-none token token.nonce (ground arith)
          ]

    authorize-ne-none :
        (entry : DispatchEntry (SoapHandler W)) (envelope : ParsedEnvelope)
        → authorize lib svc entry envelope clock now cache ≢ none
    unfolding authorize
    authorize-ne-none entry envelope h = elim (Bool-cases entry.auth_required) [
      | inr public ↦ ground arith
      | inl req ↦ elim (Option-cases svc.auth_fn) [
        | inl open_server ↦ ground arith
        | inr (f, given) ↦
            elim (Option-cases (find_security_header readers envelope.header_children)) [
              | inl missing ↦ ground arith
              | inr (security, found) ↦ validate-ne-none security f (ground arith)
            ]
      ]
    ]

    post-ne-none :
        (table : DispatchTable (SoapHandler W)) (headers : HeaderMap) (body : Bytes) (world : W)
        → post lib svc table headers body clock now cache world ≢ none
    unfolding post serve
    post-ne-none table headers body world h =
        elim (Result-cases (detect_soap_version (content_type headers))) [
          | inr (fault, d) ↦ ground arith
          | inl (version, d) ↦
              let (parsed, p) = parse_envelope_total (readers.resolved body) in
              elim (Result-cases parsed) [
                | inr (fault, e) ↦ ground arith
                | inl (envelope, e) ↦ elim (Result-cases (select lib table headers envelope)) [
                  | inr (fault, s) ↦ ground arith
                  | inl (entry, s) ↦
                      elim (Option-cases (authorize lib svc entry envelope clock now cache)) [
                        | inl stuck ↦ authorize-ne-none entry envelope stuck
                        | inr ((err fault, c), a) ↦ ground arith
                        | inr ((ok user, c), a) ↦ ground arith
                      ]
                ]
              ]
        ]

    -- Every POST is answered, whatever its headers and body, if the half-window is
    -- positive and the clock is read often enough to rotate the cache up to its last
    -- reading.
    pub post_total :
        (table : DispatchTable (SoapHandler W)) (headers : HeaderMap) (body : Bytes) (world : W)
        → (outcome : Outcome W) × (post lib svc table headers body clock now cache world
            ≡ some outcome)
    post_total table headers body world =
        elim (Option-cases (post lib svc table headers body clock now cache world)) [
          | inl stuck ↦ absurd (post-ne-none table headers body world stuck)
          | inr found ↦ found
        ]
